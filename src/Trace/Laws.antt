-- ===== src/Trace/Laws.antt =====
-- About packages/trace/src/serialize.ts: what normalization leaves as it is.
use inspect_element.Prelude.{◌≡◌, refl, sym, subst, Bool, true, false, ◌&&◌, List, ◌∷◌, arith}
use inspect_element.Prelude.Texts.{Text, codes, text_eq}
use inspect_element.Prelude.Results.{ok, ◌>>=◌, split_bind}
use inspect_element.Canonical.Value.{
  Json, null, undefined, boolean, integer, fraction, not_finite, bigint, string, array, object,
  Items, no_items, item, Entries, entry,
}
use inspect_element.Canonical.Encode.{Pair, object_text, array_text}
use inspect_element.Canonical.Stringify.{stringify, stringify_items, stringify_entries}
use inspect_element.Trace.Validation.{
  keys, prop, sorted, has_exact_keys, all_items, each_item, root_keys, session_keys, prompt_keys,
  tool_call_keys, observation_keys, action_keys, valid_session, valid_prompt, valid_tool_call,
  valid_observation, valid_action, valid_trace, validate_decision_trace,
}
use inspect_element.Trace.Serialize.{
  pick, copied, map_items, mapped, normalize_trace, serialize_canonical,
}
use inspect_element.Trace.Numbers.{IsWhole, stringify-IsWhole}
use inspect_element.Trace.Keys.{
  distinct, distinct-Distinct, same_texts-eq, stringify_entries-pick_all,
}

-- What has a text has the same text in the other form.
abbrev Refines : Json → Json → Type 0
Refines v w = (t : Text) → stringify v ≡ ok t → stringify w ≡ ok t

abbrev RefinesEntries : Entries → Entries → Type 0
RefinesEntries es fs =
    (ps : List Pair) → stringify_entries es ≡ ok ps → stringify_entries fs ≡ ok ps

both_left : (a b : Bool) → a && b ≡ true → a ≡ true
both_left true b h = refl
both_left false b h = cc

both_right : (a b : Bool) → a && b ≡ true → b ≡ true
both_right true b h = h
both_right false b h = cc

pub as_object :
    (ks : List Text) (v : Json) → has_exact_keys ks v ≡ true → (es : Entries) × (v ≡ object es)
unfolding has_exact_keys
as_object ks null h = cc
as_object ks undefined h = cc
as_object ks (boolean b) h = cc
as_object ks (integer n) h = cc
as_object ks (fraction s) h = cc
as_object ks not_finite h = cc
as_object ks (bigint n) h = cc
as_object ks (string s) h = cc
as_object ks (array vs) h = cc
as_object ks (object es) h = (es, refl)

object-pick :
    (ks : List Text) (es : Entries)
    → distinct ks ≡ true
    → has_exact_keys ks (object es) ≡ true
    → Refines (object es) (object (pick ks es))
unfolding has_exact_keys stringify object_text
object-pick ks es d h t e =
    let (ps, each, whole) = split_bind (stringify_entries es) (λ ps. ok (object_text ps)) e in
    let (qs, other, sorts) =
      stringify_entries-pick_all ks es ps (distinct-Distinct ks d)
        (same_texts-eq (sorted (keys es)) (sorted ks) h) each in
    rw other (rw sorts whole)

copied-Refines :
    (ks : List Text) (v : Json)
    → distinct ks ≡ true
    → has_exact_keys ks v ≡ true
    → Refines v (copied ks v)
copied-Refines ks v d h =
    let (es, eq) = as_object ks v h in
    subst (λ v. Refines v (copied ks v)) (sym eq)
      (object-pick ks es d (subst (λ v. has_exact_keys ks v ≡ true) eq h))

entry-Refines :
    (k : Text) (v w : Json) (es fs : Entries)
    → Refines v w
    → RefinesEntries es fs
    → RefinesEntries (entry k v es) (entry k w fs)
unfolding stringify_entries
entry-Refines k v w es fs r rs ps e =
    let (t, here, more) =
      split_bind (stringify v) (λ t. stringify_entries es >>= (λ ps. ok ((k, t) ∷ ps))) e in
    let (qs, rest, whole) = split_bind (stringify_entries es) (λ ps. ok ((k, t) ∷ ps)) more in
    rw (r t here) (rw (rs qs rest) whole)

map_items-Refines :
    (p : Json → Bool) (f : Json → Json) (vs : Items) (ts : List Text)
    → ((v : Json) → p v ≡ true → Refines v (f v))
    → all_items p vs ≡ true
    → stringify_items vs ≡ ok ts
    → stringify_items (map_items f vs) ≡ ok ts
unfolding stringify_items
map_items-Refines p f no_items ts r h e = e
map_items-Refines p f (item v vs) ts r h e =
    let (t, here, more) =
      split_bind (stringify v) (λ t. stringify_items vs >>= (λ ts. ok (t ∷ ts))) e in
    let (us, rest, whole) = split_bind (stringify_items vs) (λ ts. ok (t ∷ ts)) more in
    rw (r v (both_left (p v) (all_items p vs) h) t here)
      (rw (map_items-Refines p f vs us r (both_right (p v) (all_items p vs) h) rest) whole)

mapped-Refines :
    (p : Json → Bool) (f : Json → Json) (v : Json)
    → ((v : Json) → p v ≡ true → Refines v (f v))
    → each_item p v ≡ true
    → Refines v (mapped f v)
unfolding each_item stringify
mapped-Refines p f null r h t e = cc
mapped-Refines p f undefined r h t e = cc
mapped-Refines p f (boolean b) r h t e = cc
mapped-Refines p f (integer n) r h t e = cc
mapped-Refines p f (fraction s) r h t e = cc
mapped-Refines p f not_finite r h t e = cc
mapped-Refines p f (bigint n) r h t e = cc
mapped-Refines p f (string s) r h t e = cc
mapped-Refines p f (object es) r h t e = cc
mapped-Refines p f (array vs) r h t e =
    let (ts, each, whole) = split_bind (stringify_items vs) (λ ts. ok (array_text ts)) e in
    rw (map_items-Refines p f vs ts r h each) whole

valid_session-has_exact_keys :
    (v : Json) → valid_session v ≡ true → has_exact_keys session_keys v ≡ true
unfolding valid_session
valid_session-has_exact_keys v h = ground arith

valid_prompt-has_exact_keys :
    (v : Json) → valid_prompt v ≡ true → has_exact_keys prompt_keys v ≡ true
unfolding valid_prompt
valid_prompt-has_exact_keys v h = ground arith

valid_tool_call-has_exact_keys :
    (v : Json) → valid_tool_call v ≡ true → has_exact_keys tool_call_keys v ≡ true
unfolding valid_tool_call
valid_tool_call-has_exact_keys v h = ground arith

valid_observation-has_exact_keys :
    (v : Json) → valid_observation v ≡ true → has_exact_keys observation_keys v ≡ true
unfolding valid_observation
valid_observation-has_exact_keys v h = ground arith

valid_action-has_exact_keys :
    (v : Json) → valid_action v ≡ true → has_exact_keys action_keys v ≡ true
unfolding valid_action
valid_action-has_exact_keys v h = ground arith

-- What is asked of the parts that are written anew.
parts_valid :
    (v : Json)
    → valid_trace v ≡ true
    → (has_exact_keys root_keys v ≡ true)
      × (valid_session (prop (codes "session") v) ≡ true)
      × (each_item valid_prompt (prop (codes "prompts") v) ≡ true)
      × (each_item valid_tool_call (prop (codes "toolCalls") v) ≡ true)
      × (each_item valid_observation (prop (codes "observations") v) ≡ true)
      × (valid_action (prop (codes "proposedAction") v) ≡ true)
unfolding valid_trace
parts_valid v h =
    (ground arith, ground arith, ground arith, ground arith, ground arith, ground arith)

object-Refines : (es fs : Entries) → RefinesEntries es fs → Refines (object es) (object fs)
unfolding stringify
object-Refines es fs r t e =
    let (ps, each, whole) = split_bind (stringify_entries es) (λ ps. ok (object_text ps)) e in
    rw (r ps each) whole

-- The fields of the root, each in its form.
root-Refines : (v : Json) → valid_trace v ≡ true → Refines (copied root_keys v) (normalize_trace v)
unfolding normalize_trace distinct text_eq
root-Refines v h =
    let (exact, session, prompts, calls, observations, action) = parts_valid v h in
    let session' =
      copied-Refines session_keys (prop (codes "session") v) refl
        (valid_session-has_exact_keys _ session) in
    let prompts' =
      mapped-Refines valid_prompt (copied prompt_keys) (prop (codes "prompts") v)
        (λ p q. copied-Refines prompt_keys p refl (valid_prompt-has_exact_keys p q)) prompts in
    let calls' =
      mapped-Refines valid_tool_call (copied tool_call_keys) (prop (codes "toolCalls") v)
        (λ p q. copied-Refines tool_call_keys p refl (valid_tool_call-has_exact_keys p q)) calls in
    let observations' =
      mapped-Refines valid_observation (copied observation_keys) (prop (codes "observations") v)
        (λ p q. copied-Refines observation_keys p refl (valid_observation-has_exact_keys p q))
        observations in
    let action' =
      copied-Refines action_keys (prop (codes "proposedAction") v) refl
        (valid_action-has_exact_keys _ action) in
    object-Refines _ _ (
      entry-Refines (codes "schemaVersion") _ _ _ _ (λ t e. e)
        (entry-Refines (codes "agentId") _ _ _ _ (λ t e. e)
          (entry-Refines (codes "owner") _ _ _ _ (λ t e. e)
            (entry-Refines (codes "intentHash") _ _ _ _ (λ t e. e)
              (entry-Refines (codes "session") _ _ _ _ session' (
                entry-Refines (codes "prompts") _ _ _ _ prompts' (
                  entry-Refines (codes "toolCalls") _ _ _ _ calls' (
                    entry-Refines (codes "observations") _ _ _ _ observations' (
                      entry-Refines (codes "proposedAction") _ _ _ _ action'
                        (entry-Refines (codes "nonce") _ _ _ _ (λ t e. e) (λ ps e. e)))))))))))

normalize_trace-Refines : (v : Json) → valid_trace v ≡ true → Refines v (normalize_trace v)
unfolding distinct text_eq
normalize_trace-Refines v h t e =
    root-Refines v h t (copied-Refines root_keys v refl (parts_valid v h).0 t e)

pub serialize_canonical_text :
    (v : Json) (t : Text)
    → validate_decision_trace v ≡ ok tt
    → stringify v ≡ ok t
    → serialize_canonical v ≡ ok t
unfolding validate_decision_trace serialize_canonical
serialize_canonical_text v t h e =
    let valid : valid_trace v ≡ true = ground arith in
    rw valid (normalize_trace-Refines v valid t e)

-- A decision trace that is valid and has no fraction and no infinite number in it, in whatever order
-- its fields are written, has a canonical text, and its serialization, which normalizes it first,
-- succeeds and is that text.
pub serialize_canonical-stringify :
    (v : Json)
    → validate_decision_trace v ≡ ok tt
    → IsWhole v
    → (t : Text) × (stringify v ≡ ok t) × (serialize_canonical v ≡ ok t)
serialize_canonical-stringify v h whole =
    let (t, e) = stringify-IsWhole v whole in (t, e, serialize_canonical_text v t h e)
