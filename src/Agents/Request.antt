-- ===== src/Agents/Request.antt =====
-- packages/trace/src/execution-request.ts: a live trace from a fixture, and the request to the guard.
use inspect_element.Prelude.{Option, none, some, if◌then◌else◌}
use inspect_element.Prelude.Texts.{Text, codes, text_eq, to_lower, is_empty, is_decimal, decimal}
use inspect_element.Prelude.Integers.{ℤ, pos, negsuc, int_text, trim}
use inspect_element.Prelude.Results.{Result, ok, err, ◌>>=◌, internal}
use inspect_element.Canonical.Value.{Json, string, object, Entries, no_entries, entry}
use inspect_element.Trace.Validation.{entries_of, prop}
use inspect_element.Trace.Client.{TraceAckFields}

pub record LiveTraceOverrides : Type 0 where
  pub owner : Text
  pub agent_id : Text
  pub intent_hash : Text
  pub target : Text
  pub token : Text
  pub amount : Text

-- `string | number | bigint`, a number being an integer or not.
pub data Amount : Type 0 where
  amount_text : Text → Amount
  amount_integer : ℤ → Amount
  amount_not_integer : Amount
  amount_bigint : ℤ → Amount

pub record BuildExecutionRequestInput : Type 0 where
  pub owner : Text
  pub agent_id : Text
  pub target : Text
  pub token : Text
  pub amount : Amount
  pub trace_uri : Text
  pub trace_ack : TraceAckFields
  pub call_data : Option Text

pub record ExecutionRequest : Type 0 where
  pub owner : Text
  pub agent_id : Text
  pub target : Text
  pub token : Text
  pub amount : ℤ
  pub call_data : Text
  pub trace_uri : Text
  pub trace_ack : TraceAckFields

unfoldable pub normalize_amount : Amount → Result ℤ
normalize_amount (amount_bigint n) = ok n
normalize_amount (amount_integer (pos n)) = ok (pos n)
normalize_amount (amount_integer (negsuc n)) = err internal
normalize_amount amount_not_integer = err internal
normalize_amount (amount_text s) =
    let trimmed = trim s in if is_decimal trimmed then ok (pos (decimal trimmed)) else err internal

abbrev pub normalize_amount_string : Text → Result Text
normalize_amount_string s = normalize_amount (amount_text s) >>= λ n. ok (int_text n)

-- A field after a spread: it keeps the place of the field that it replaces.
abbrev pub put : Text → Json → Entries → Entries
put key w no_entries = entry key w no_entries
put key w (entry k v es) = if text_eq k key then entry k w es else entry k v (put key w es)

abbrev pub live_action : Json → Text → Text → Text → Json
live_action action target token amount = object (
    put (codes "amount") (string amount) (
      put (codes "token") (string token)
        (put (codes "target") (string target) (entries_of action))))

unfoldable pub live_trace : Json → LiveTraceOverrides → Text → Text → Text → Text → Json
live_trace v o owner target token amount = object (
    put (codes "proposedAction") (live_action (prop (codes "proposedAction") v) target token amount)
      (put (codes "intentHash") (string o.intent_hash) (
        put (codes "agentId") (string o.agent_id)
          (put (codes "owner") (string owner) (entries_of v)))))

-- `input.data ?? "0x"`
abbrev pub or_empty_call : Option Text → Text
or_empty_call none = codes "0x"
or_empty_call (some d) = d

-- The struct of the request.
abbrev pub request_of : BuildExecutionRequestInput → Text → Text → Text → ℤ → ExecutionRequest
request_of i owner target token amount = record {
  owner = owner;
  agent_id = i.agent_id;
  target = target;
  token = token;
  amount = amount;
  call_data = or_empty_call i.call_data;
  trace_uri = trim i.trace_uri;
  trace_ack = i.trace_ack;
}

-- `checksum` is viem's `getAddress`.
module _ (checksum : Text → Result Text) where
  unfoldable pub prepare_live_trace : Json → LiveTraceOverrides → Result Json
  prepare_live_trace v o = checksum (to_lower o.owner) >>= λ owner.
      checksum (to_lower o.target) >>= λ target. checksum (to_lower o.token) >>= λ token.
      normalize_amount_string o.amount >>= λ amount. ok (live_trace v o owner target token amount)

  unfoldable pub build_execution_request : BuildExecutionRequestInput → Result ExecutionRequest
  build_execution_request i =
      if is_empty (trim i.trace_uri)
      then err internal
      else (checksum (to_lower i.owner) >>= λ owner. checksum (to_lower i.target) >>= λ target.
          checksum (to_lower i.token) >>= λ token.
          normalize_amount i.amount >>= λ amount. ok (request_of i owner target token amount))
