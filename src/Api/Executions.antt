-- ===== src/Api/Executions.antt =====
-- services/infra/src/api/executions.ts: the checks that a partner runtime asks for, first without a
-- record (`preflight`), then with one.
pub mod Laws
use inspect_element.Prelude.{
  ℕ, Bool, true, false, not, ◌&&◌, ◌||◌, Option, none, some, List, [], ◌∷◌, ◌++◌, ltb, leb,
  if◌then◌else◌,
}
use inspect_element.Prelude.Texts.{Text, codes, is_hex, is_empty, text_eq, to_decimal, to_lower}
use inspect_element.Prelude.Integers.{big_int, int_text, exceeds}
use inspect_element.Prelude.Results.{Result, ok, err, ◌>>=◌, bad_request, not_found, internal}
use inspect_element.Prelude.Tables.{any}
use inspect_element.Store.Provider.{Provider}
use inspect_element.Store.Manifests.{ManifestRow, get_manifest_by_hash}
use inspect_element.Store.Executions.{
  ExecutionRow, ExecutionStatus, allowed, blocked, no_updates, insert_execution, update_execution,
  get_execution,
}
use inspect_element.Canonical.Value.{Json, string, array, object}
use inspect_element.Canonical.Encode.{canonicalize}

pub record ExecutionBody : Type 0 where
  pub owner : Text
  pub agent_id : Text
  pub proposed_action : Text
  pub trace : Json
  pub target : Option Text
  pub token : Option Text
  pub amount : Option Text
  pub intent_hash : Option Text

-- A field that may be left out.
abbrev when_given : (Text → Bool) → Option Text → Bool
when_given p none = true
when_given p (some s) = p s

abbrev is_trace : Json → Bool
is_trace (string s) = true
is_trace (array vs) = true
is_trace (object es) = true
is_trace v = false

-- `PreflightBody` accepts the request.
unfoldable pub accepts : ExecutionBody → Bool
accepts b =
    (is_hex 40 b.owner
      && is_hex 64 b.agent_id
      && not (is_empty b.proposed_action)
      && is_trace b.trace)
    && (when_given (is_hex 40) b.target
        && when_given (is_hex 40) b.token
        && when_given (is_hex 64) b.intent_hash)

abbrev or_bad_request : Result Text → Result Text
or_bad_request (ok t) = ok t
or_bad_request (err e) = err bad_request

unfoldable pub to_canonical_json : Json → Result Text
to_canonical_json (string s) = ok s
to_canonical_json v = or_bad_request (canonicalize v)

-- A missing or empty amount is not checked; one that `BigInt` does not read throws.
unfoldable pub amount_reasons : Option Text → ℕ → Result (List Text)
amount_reasons none cap = ok []
amount_reasons (some a) cap = if is_empty a then ok [] else elim (big_int a) [
  | none ↦ err internal
  | some n ↦
      if exceeds n cap
      then ok (
          (codes "AMOUNT_EXCEEDS_CAP: "
            ++ int_text n
            ++ codes " > "
            ++ to_decimal cap
            ++ codes " maxSpendPerTx")
          ∷ [])
      else ok []
]

unfoldable pub target_reasons : Option Text → List Text → List Text
target_reasons none counterparties = []
target_reasons (some t) [] = []
target_reasons (some t) (c ∷ cs) =
    if any (λ cp. text_eq (to_lower cp) (to_lower t)) (c ∷ cs)
    then []
    else (codes "COUNTERPARTY_NOT_ALLOWED: " ++ t ++ codes " is not in the allowlist") ∷ []

unfoldable pub expiry_reasons : ℕ → ℕ → List Text
expiry_reasons expiry now =
    if ltb expiry now
    then (codes "INTENT_EXPIRED: intent expired at " ++ to_decimal expiry) ∷ []
    else []

abbrev manifest_of : Option Text → List ManifestRow → Option ManifestRow
manifest_of none manifests = none
manifest_of (some h) manifests = get_manifest_by_hash h manifests

-- The reasons to block; `passed` says that there is none.
unfoldable pub run_deterministic_checks : List ManifestRow → ℕ → ExecutionBody → Result (List Text)
run_deterministic_checks manifests now b = elim (manifest_of b.intent_hash manifests) [
  | none ↦ ok []
  | some m ↦ amount_reasons b.amount m.max_spend_per_tx >>= (λ over.
      ok (over ++ target_reasons b.target m.allowed_counterparties ++ expiry_reasons m.expiry now))
]

-- Scores and the threshold are only compared and printed: numbers on one scale.
pub record ScreenOutput : Type 0 where
  pub injection_score : ℕ
  pub severity : Text
  pub signals : List Text
  pub explanation : Text
  pub recommended_action : Text

pub record HardMode : Type 0 where
  pub enabled : Bool
  pub threshold : ℕ

pub record ExecutionResponse : Type 0 where
  pub execution_id : Option Text
  pub status : ExecutionStatus
  pub block_reasons : List Text
  pub context_digest : Text
  pub advisory_screen : Option (ScreenOutput × Bool)

-- `reasons.join("; ")`
unfoldable pub join_reasons : List Text → Text
join_reasons [] = []
join_reasons (r ∷ []) = r
join_reasons (r ∷ q ∷ rest) = r ++ codes "; " ++ join_reasons (q ∷ rest)

-- The data of an `attempt.blocked` event.
pub record BlockedEvent : Type 0 where
  pub execution_id : Text
  pub owner : Text
  pub agent_id : Text
  pub reasons : List Text
  pub timestamp : ℕ

-- The table, and the events emitted so far.
pub record Executions : Type 0 where
  pub rows : List ExecutionRow
  pub events : List BlockedEvent

pub record Reply : Type 0 where
  pub after : Executions
  pub answer : Result ExecutionResponse

abbrev pub is_passed : List Text → Bool
is_passed [] = true
is_passed (r ∷ rs) = false

unfoldable pub hard_mode_block : HardMode → ScreenOutput → Bool
hard_mode_block hard s = hard.enabled && leb hard.threshold s.injection_score

-- `show_score` prints a number of the scale.
unfoldable pub hard_reason : (ℕ → Text) → HardMode → ScreenOutput → Text
hard_reason show_score hard s =
    codes "gemini_hard_mode: score "
    ++ show_score s.injection_score
    ++ codes " >= "
    ++ show_score hard.threshold

-- `keccak` hashes the bytes of a text, `screen_trace` is what the advisory model answers at this call,
-- or its fallback where it fails (each call asks the model anew), `screen_json` its JSON.
module _ (keccak : Text → Text) (screen_trace : ExecutionBody → ScreenOutput)
    (show_score : ℕ → Text) (screen_json : ScreenOutput → Text) (hard : HardMode)
    (manifests : List ManifestRow) (now : ℕ) (provider : Provider) where
  unfoldable pub preflight : ExecutionBody → Result ExecutionResponse
  unfolding hard_mode_block hard_reason
  preflight b =
      if not (accepts b)
      then err bad_request
      else to_canonical_json b.trace >>= (λ json.
        run_deterministic_checks manifests now b >>= (λ reasons.
          let screen = screen_trace b in
          let hard_block = hard_mode_block hard screen in
          let is_blocked = not (is_passed reasons) || hard_block in
          ok (record {
            execution_id = none;
            status = if is_blocked then blocked else allowed;
            block_reasons =
                if is_blocked
                then reasons ++ (if hard_block then hard_reason show_score hard screen ∷ [] else [])
                else [];
            context_digest = keccak json;
            advisory_screen = some (screen, not hard_block);
          })))

  abbrev pub set_blocked : Text → List Text → ExecutionBody → Executions → Executions
  set_blocked id reasons b s = record {
    rows =
        update_execution provider now id
          (record no_updates { status = some blocked; block_reason = some (join_reasons reasons) })
          s.rows;
    events =
        s.events
        ++ record {
          execution_id = id;
          owner = b.owner;
          agent_id = b.agent_id;
          reasons = reasons;
          timestamp = now;
        }
          ∷ [];
  }

  abbrev pub set_allowed : Text → ScreenOutput → Executions → Executions
  set_allowed id screen s = record s {
    rows =
        update_execution provider now id
          (record no_updates { status = some allowed; result_json = some (screen_json screen) })
          s.rows;
  }

  -- After the checks.
  unfoldable pub settle : Text → Text → ExecutionBody → List Text → Executions → Reply
  unfolding hard_mode_block hard_reason
  settle id digest b (r ∷ rs) s = record {
    after = set_blocked id (r ∷ rs) b s;
    answer = ok (record {
      execution_id = some id;
      status = blocked;
      block_reasons = r ∷ rs;
      context_digest = digest;
      advisory_screen = none;
    });
  }
  settle id digest b [] s =
      let screen = screen_trace b in
      if hard_mode_block hard screen
      then record {
        after = set_blocked id (hard_reason show_score hard screen ∷ []) b s;
        answer = ok (record {
          execution_id = some id;
          status = blocked;
          block_reasons = hard_reason show_score hard screen ∷ [];
          context_digest = digest;
          advisory_screen = some (screen, false);
        });
      }
      else record {
        after = set_allowed id screen s;
        answer = ok (record {
          execution_id = some id;
          status = allowed;
          block_reasons = [];
          context_digest = digest;
          advisory_screen = some (screen, true);
        });
      }

  abbrev pub inserted : Text → Text → ExecutionBody → Executions → Executions
  inserted id json b s = record s {
    rows =
        insert_execution provider id now
          (record {
            owner = b.owner;
            agent_id = b.agent_id;
            proposed_action = b.proposed_action;
            trace_json = some json;
            context_digest = some (keccak json);
          })
          s.rows;
  }

  -- `id` is the fresh UUID. The row is written before the checks run.
  unfoldable pub submit : Text → ExecutionBody → Executions → Reply
  submit id b s =
      if not (accepts b)
      then record { after = s; answer = err bad_request }
      else elim (to_canonical_json b.trace) [
        | err e ↦ record { after = s; answer = err e }
        | ok json ↦
            let with_row = inserted id json b s in
            elim (run_deterministic_checks manifests now b) [
              | err e ↦ record { after = with_row; answer = err e }
              | ok reasons ↦ settle id (keccak json) b reasons with_row
            ]
      ]

-- The answer is a view of the row.
unfoldable pub get_execution_status : Provider → Text → Executions → Result ExecutionRow
get_execution_status provider id s = elim (get_execution provider id s.rows) [
  | none ↦ err not_found
  | some e ↦ ok e
]
