-- ===== src/Api/Traces.antt =====
-- services/infra/src/api/traces.ts: a decision trace is pinned and acknowledged with a signature;
-- services/infra/src/api/replay.ts gives it back.
pub mod Laws
use inspect_element.Prelude.{
  ℕ, ◌+◌, Bool, true, false, not, ◌&&◌, Option, none, some, List, ltb, if◌then◌else◌,
}
use inspect_element.Prelude.Texts.{Text, is_hex, to_lower, text_eq}
use inspect_element.Prelude.Results.{Result, ok, err, ◌>>=◌, bad_request, not_found}
use inspect_element.Store.Provider.{Provider}
use inspect_element.Store.Traces.{TraceRow, insert_trace, get_trace_by_digest}
use inspect_element.Canonical.Value.{Json, string, array, object}
use inspect_element.Canonical.Encode.{canonicalize}

pub record TraceBody : Type 0 where
  pub agent_id : Text
  pub owner : Text
  pub context_digest : Text
  pub trace : Json

abbrev is_trace : Json → Bool
is_trace (string s) = true
is_trace (array vs) = true
is_trace (object es) = true
is_trace v = false

-- `TraceBody` accepts the request.
unfoldable pub accepts_trace : TraceBody → Bool
accepts_trace b =
    is_hex 64 b.agent_id && is_hex 40 b.owner && is_hex 64 b.context_digest && is_trace b.trace

abbrev or_bad_request : Result Text → Result Text
or_bad_request (ok t) = ok t
or_bad_request (err e) = err bad_request

unfoldable pub to_canonical_bytes : Json → Result Text
to_canonical_bytes (string s) = ok s
to_canonical_bytes v = or_bad_request (canonicalize v)

-- What is signed, and the signature.
pub record TraceAck : Type 0 where
  pub context_digest : Text
  pub uri_hash : Text
  pub expires_at : ℕ
  pub agent_id : Text
  pub owner : Text

pub record Signed : Type 0 where
  pub signer : Text
  pub signature : Text

-- What `resolveTraceAckContext` reads from the deployment manifest.
pub record TraceAckContext : Type 0 where
  pub guarded_executor : Text
  pub chain_id : ℕ

pub record TraceResponse : Type 0 where
  pub trace_uri : Text
  pub context_digest : Text
  pub uri_hash : Text
  pub expires_at : ℕ
  pub signature : Text
  pub signer : Text
  pub guarded_executor : Text
  pub chain_id : ℕ
  pub agent_id : Text
  pub owner : Text

-- The table after the request, and the answer.
pub record Uploaded : Type 0 where
  pub table : List TraceRow
  pub answer : Result TraceResponse

-- `cached && cached.expiresAt > now`
abbrev pub unexpired : ℕ → Option TraceRow → Option TraceRow
unexpired now none = none
unexpired now (some r) = if ltb now r.expires_at then some r else none

abbrev pub answer_cached : TraceAckContext → TraceBody → TraceRow → TraceResponse
answer_cached ctx b r = record {
  trace_uri = r.trace_uri;
  context_digest = r.context_digest;
  uri_hash = r.uri_hash;
  expires_at = r.expires_at;
  signature = r.signature;
  signer = r.signer;
  guarded_executor = ctx.guarded_executor;
  chain_id = ctx.chain_id;
  agent_id = b.agent_id;
  owner = b.owner;
}

abbrev pub ack_of : (Text → Text) → (Text → Text) → ℕ → ℕ → TraceBody → Text → TraceAck
ack_of keccak checksum ttl now b uri = record {
  context_digest = b.context_digest;
  uri_hash = keccak uri;
  expires_at = now + ttl;
  agent_id = b.agent_id;
  owner = checksum b.owner;
}

-- `keccak` hashes the bytes of a text, `pin` gives the URI of a pinned text, `sign` is the signer,
-- which signs in a context, `checksum` is viem's `getAddress`.
module _ (keccak : Text → Text) (pin : Text → Result Text)
    (sign : TraceAckContext → TraceAck → Result Signed) (checksum : Text → Text) (ttl : ℕ)
    (provider : Provider) where
  abbrev pub stored : ℕ → TraceBody → Text → Text → Signed → List TraceRow → List TraceRow
  stored now b json uri s table =
      insert_trace provider now
        (record {
          context_digest = b.context_digest;
          trace_uri = uri;
          uri_hash = keccak uri;
          agent_id = some b.agent_id;
          owner = some (checksum b.owner);
          trace_json = json;
          expires_at = now + ttl;
          signer = s.signer;
          signature = s.signature;
        })
        table

  -- The part after the cache.
  unfoldable pub pin_and_sign : TraceAckContext → ℕ → TraceBody → Text → List TraceRow → Uploaded
  pin_and_sign ctx now b json table = elim (pin json) [
    | err e ↦ record { table = table; answer = err e }
    | ok uri ↦ elim (sign ctx (ack_of keccak checksum ttl now b uri)) [
      | err e ↦ record { table = table; answer = err e }
      | ok s ↦ record {
        table = stored now b json uri s table;
        answer = ok (record {
          trace_uri = uri;
          context_digest = b.context_digest;
          uri_hash = keccak uri;
          expires_at = now + ttl;
          signature = s.signature;
          signer = s.signer;
          guarded_executor = ctx.guarded_executor;
          chain_id = ctx.chain_id;
          agent_id = b.agent_id;
          owner = checksum b.owner;
        });
      }
    ]
  ]

  -- `context` is the outcome of `resolveTraceAckContext`, which throws without a deployment manifest.
  unfoldable pub upload : Result TraceAckContext → ℕ → TraceBody → List TraceRow → Uploaded
  upload context now b table =
      if not (accepts_trace b)
      then record { table = table; answer = err bad_request }
      else elim (to_canonical_bytes b.trace) [
        | err e ↦ record { table = table; answer = err e }
        | ok json ↦
            if text_eq (to_lower (keccak json)) (to_lower b.context_digest)
            then elim context [
              | err e ↦ record { table = table; answer = err e }
              | ok ctx ↦ elim (unexpired now (get_trace_by_digest b.context_digest table)) [
                | some r ↦ record { table = table; answer = ok (answer_cached ctx b r) }
                | none ↦ pin_and_sign ctx now b json table
              ]
            ]
            else record { table = table; answer = err bad_request }
      ]

-- GET /v1/replay: the row, and the trace that its stored text is parsed to. `parse` is `JSON.parse`,
-- which throws on a text that was uploaded as a string and is no JSON.
unfoldable pub replay_trace : (Text → Result Json) → Text → List TraceRow → Result (TraceRow × Json)
replay_trace parse digest table =
    if not (is_hex 64 digest) then err bad_request else elim (get_trace_by_digest digest table) [
      | none ↦ err not_found
      | some r ↦ parse r.trace_json >>= λ trace. ok (r, trace)
    ]
