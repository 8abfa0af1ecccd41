-- ===== src/Trace/Validation.antt =====
-- packages/trace/src/validation.ts: the form of a decision trace, as the dynamic value that it is.
-- All failures are errors of one class; integral numbers of 10 ^ 21 and more are left aside.
use inspect_element.Prelude.{ℕ, Bool, true, false, ◌&&◌, ◌||◌, List, [], ◌∷◌, if◌then◌else◌}
use inspect_element.Prelude.Texts.{Text, codes, text_eq, is_hex, is_hex_data, is_decimal}
use inspect_element.Prelude.Integers.{int_text}
use inspect_element.Prelude.Results.{Result, ok, err, internal}
use inspect_element.Prelude.Tables.{order_by}
use inspect_element.Canonical.Value.{
  Json, null, undefined, boolean, integer, fraction, not_finite, bigint, string, array, object,
  Items, no_items, item, Entries, no_entries, entry, text_less, join,
}

abbrev pub keys : Entries → List Text
keys no_entries = []
keys (entry k v es) = k ∷ keys es

-- `record[key]`
abbrev pub get : Text → Entries → Json
get key no_entries = undefined
get key (entry k v es) = if text_eq k key then v else get key es

-- The entries of an object; other values have none that are read.
abbrev pub entries_of : Json → Entries
entries_of (object es) = es
entries_of v = no_entries

abbrev pub prop : Text → Json → Json
prop key v = get key (entries_of v)

-- `keys.sort()`
abbrev pub sorted : List Text → List Text
sorted ks = order_by text_less ks

-- The same length, and the same text at each place.
unfoldable pub same_texts : List Text → List Text → Bool
same_texts [] [] = true
same_texts (a ∷ s) (b ∷ t) = text_eq a b && same_texts s t
same_texts _ _ = false

-- `toRecord` and `assertExactKeys`
unfoldable pub has_exact_keys : List Text → Json → Bool
has_exact_keys allowed (object es) = same_texts (sorted (keys es)) (sorted allowed)
has_exact_keys allowed v = false

unfoldable pub is_string : Json → Bool
is_string (string s) = true
is_string v = false

unfoldable pub is_number : Json → Bool
is_number (integer n) = true
is_number (fraction t) = true
is_number v = false

unfoldable pub is_integer : Json → Bool
is_integer (integer n) = true
is_integer v = false

unfoldable pub is_record : Json → Bool
is_record (object es) = true
is_record v = false

-- `assertHex`
unfoldable pub is_hex_value : ℕ → Json → Bool
is_hex_value hex_length (string s) = is_hex hex_length s
is_hex_value hex_length v = false

-- `String(v)`, which `RegExp.test` reads; `null` and `undefined` print as nothing in an array.
mutual
  pub coerced : Json → Text
  coerced null = codes "null"
  coerced undefined = codes "undefined"
  coerced (boolean true) = codes "true"
  coerced (boolean false) = codes "false"
  coerced (integer n) = int_text n
  coerced (fraction t) = t
  coerced not_finite = codes "NaN"
  coerced (bigint n) = int_text n
  coerced (string s) = s
  coerced (array vs) = join (coerced_items vs)
  coerced (object es) = codes "[object Object]"

  pub coerced_items : Items → List Text
  coerced_items no_items = []
  coerced_items (item null vs) = [] ∷ coerced_items vs
  coerced_items (item undefined vs) = [] ∷ coerced_items vs
  coerced_items (item v vs) = coerced v ∷ coerced_items vs

abbrev pub all_items : (Json → Bool) → Items → Bool
all_items p no_items = true
all_items p (item v vs) = p v && all_items p vs

-- `assertArray`, and the loop over it.
unfoldable pub each_item : (Json → Bool) → Json → Bool
each_item p (array vs) = all_items p vs
each_item p v = false

abbrev pub root_keys : List Text
root_keys =
    codes "schemaVersion"
    ∷ codes "agentId"
    ∷ codes "owner"
    ∷ codes "intentHash"
    ∷ codes "session"
    ∷ codes "prompts"
    ∷ codes "toolCalls"
    ∷ codes "observations"
    ∷ codes "proposedAction"
    ∷ codes "nonce"
    ∷ []

abbrev pub session_keys : List Text
session_keys = codes "id" ∷ codes "startedAt" ∷ codes "model" ∷ codes "temperature" ∷ []

abbrev pub prompt_keys : List Text
prompt_keys = codes "role" ∷ codes "content" ∷ codes "timestamp" ∷ []

abbrev pub tool_call_keys : List Text
tool_call_keys = codes "name" ∷ codes "input" ∷ codes "output" ∷ codes "timestamp" ∷ []

abbrev pub observation_keys : List Text
observation_keys = codes "source" ∷ codes "content" ∷ codes "timestamp" ∷ []

abbrev pub action_keys : List Text
action_keys =
    codes "target" ∷ codes "token" ∷ codes "amount" ∷ codes "callData" ∷ codes "rationale" ∷ []

abbrev is_text : Text → Json → Bool
is_text t (string s) = text_eq s t
is_text t v = false

unfoldable pub is_role : Json → Bool
is_role v = is_text (codes "user") v || is_text (codes "system") v || is_text (codes "assistant") v

unfoldable pub valid_session : Json → Bool
valid_session v =
    has_exact_keys session_keys v
    && is_integer (prop (codes "startedAt") v)
    && is_number (prop (codes "temperature") v)

unfoldable pub valid_prompt : Json → Bool
valid_prompt v =
    has_exact_keys prompt_keys v
    && is_role (prop (codes "role") v)
    && is_string (prop (codes "content") v)
    && is_integer (prop (codes "timestamp") v)

unfoldable pub valid_tool_call : Json → Bool
valid_tool_call v =
    has_exact_keys tool_call_keys v
    && is_string (prop (codes "name") v)
    && is_record (prop (codes "input") v)
    && is_record (prop (codes "output") v)
    && is_integer (prop (codes "timestamp") v)

unfoldable pub valid_observation : Json → Bool
valid_observation v =
    has_exact_keys observation_keys v
    && is_string (prop (codes "source") v)
    && is_string (prop (codes "content") v)
    && is_integer (prop (codes "timestamp") v)

unfoldable pub valid_action : Json → Bool
unfolding coerced
valid_action v =
    has_exact_keys action_keys v
    && is_hex_value 40 (prop (codes "target") v)
    && is_hex_value 40 (prop (codes "token") v)
    && is_decimal (coerced (prop (codes "amount") v))
    && is_hex_data (coerced (prop (codes "callData") v))
    && is_string (prop (codes "rationale") v)

unfoldable pub valid_trace : Json → Bool
valid_trace v =
    has_exact_keys root_keys v
    && is_text (codes "1.0.0") (prop (codes "schemaVersion") v)
    && is_hex_value 64 (prop (codes "agentId") v)
    && is_hex_value 40 (prop (codes "owner") v)
    && is_hex_value 64 (prop (codes "intentHash") v)
    && valid_session (prop (codes "session") v)
    && each_item valid_prompt (prop (codes "prompts") v)
    && each_item valid_tool_call (prop (codes "toolCalls") v)
    && each_item valid_observation (prop (codes "observations") v)
    && valid_action (prop (codes "proposedAction") v)
    && is_integer (prop (codes "nonce") v)

-- `validateDecisionTrace`; the missing of a required key is seen by the comparison of the keys too.
unfoldable pub validate_decision_trace : Json → Result (Unit {0})
validate_decision_trace v = if valid_trace v then ok tt else err internal
