-- ===== src/Trace/Client.antt =====
-- packages/trace/src/trace-client.ts: a trace is sent to the service, whose digest is compared.
use inspect_element.Prelude.{ℕ, [], if◌then◌else◌}
use inspect_element.Prelude.Texts.{Text, codes, text_eq}
use inspect_element.Prelude.Results.{Result, Failure, ok, err, ◌>>=◌}
use inspect_element.Canonical.Value.{Json, string}
use inspect_element.Api.Traces.{TraceBody, TraceResponse}
use inspect_element.Trace.Validation.{prop, validate_decision_trace}
use inspect_element.Trace.Serialize.{serialize_canonical}

-- A response, or what is thrown: by the validation and the serialization, which send nothing, as a
-- TraceUploadError, as a TraceDigestMismatchError.
pub data UploadOutcome : Type 0 where
  delivered : TraceResponse → UploadOutcome
  not_sent : Failure → UploadOutcome
  upload_failed : Failure → UploadOutcome
  digest_mismatch : Text → Text → UploadOutcome

-- A field whose type is string.
abbrev pub text_of : Json → Text
text_of (string s) = s
text_of v = []

pub record TraceAckFields : Type 0 where
  pub context_digest : Text
  pub uri_hash : Text
  pub expires_at : ℕ
  pub signature : Text

unfoldable pub to_trace_ack : TraceResponse → TraceAckFields
to_trace_ack r = record {
  context_digest = r.context_digest;
  uri_hash = r.uri_hash;
  expires_at = r.expires_at;
  signature = r.signature;
}

-- The body of the request.
abbrev pub upload_body : Json → Text → Json → TraceBody
upload_body v digest payload = record {
  agent_id = text_of (prop (codes "agentId") v);
  owner = text_of (prop (codes "owner") v);
  context_digest = digest;
  trace = payload;
}

-- The comparison of the digests.
unfoldable pub check_digest : Text → Result TraceResponse → UploadOutcome
check_digest local_digest (err e) = upload_failed e
check_digest local_digest (ok response) =
    if text_eq response.context_digest local_digest
    then delivered response
    else digest_mismatch local_digest response.context_digest

-- packages/trace/src/digest.ts; `keccak` hashes the bytes of a text.
unfoldable pub compute_context_digest : (Text → Text) → Json → Result Text
compute_context_digest keccak v = serialize_canonical v >>= λ t. ok (keccak t)

-- `parse` is the value of a JSON text, which the client parses and sends in the body, as the service
-- has parsed the body; `post` sends a body to the service.
module _ (keccak : Text → Text) (parse : Text → Json)
    (post : TraceBody → Result TraceResponse) where
  unfoldable pub upload_trace : Json → UploadOutcome
  unfolding compute_context_digest
  upload_trace v = elim (validate_decision_trace v) [
    | err e ↦ not_sent e
    | ok _ ↦ elim (compute_context_digest keccak v) [
      | err e ↦ not_sent e
      | ok local_digest ↦ elim (serialize_canonical v) [
        | err e ↦ not_sent e
        | ok canonical_json ↦
            check_digest local_digest (post (upload_body v local_digest (parse canonical_json)))
      ]
    ]
  ]
