-- ===== src/Trace/Upload.antt =====
-- About packages/trace/src/trace-client.ts and the service that it uploads to,
-- services/infra/src/api/traces.ts.
use inspect_element.Prelude.{
  ℕ, ◌≡◌, refl, sym, ap, ◌∙◌, subst, true, Option, none, some, List, [], arith, Option-cases, inl,
  inr,
}
use inspect_element.Prelude.Texts.{Text, codes, text_eq, text_eq_refl, is_hex, to_lower}
use inspect_element.Prelude.Results.{Result, ok, err, Result-cases}
use inspect_element.Store.Provider.{Provider}
use inspect_element.Store.Traces.{TraceRow, get_trace_by_digest}
use inspect_element.Canonical.Value.{
  Json, null, undefined, boolean, integer, fraction, not_finite, bigint, string, array, object,
  Entries,
}
use inspect_element.Canonical.Encode.{canonicalize}
use inspect_element.Canonical.Stringify.{stringify}
use inspect_element.Canonical.Laws.{IsIntegral, canonicalize-stringify}
use inspect_element.Canonical.Order.{Reordered, same, arrays, objects, canonicalize-Reordered}
use inspect_element.Api.Traces.{
  TraceBody, TraceAckContext, TraceAck, Signed, TraceResponse, accepts_trace, to_canonical_bytes,
  unexpired, answer_cached, ack_of, pin_and_sign, upload,
}
use inspect_element.Api.Traces.Laws.{get_trace-digest}
use inspect_element.Trace.Validation.{
  prop, root_keys, has_exact_keys, is_hex_value, valid_trace, validate_decision_trace,
}
use inspect_element.Trace.Laws.{as_object, serialize_canonical_text}
use inspect_element.Trace.Client.{
  UploadOutcome, delivered, upload_failed, text_of, upload_body, check_digest,
  compute_context_digest, upload_trace,
}

text_of-is_hex : (n : ℕ) (v : Json) → is_hex_value n v ≡ true → is_hex n (text_of v) ≡ true
unfolding is_hex_value
text_of-is_hex n null h = cc
text_of-is_hex n undefined h = cc
text_of-is_hex n (boolean b) h = cc
text_of-is_hex n (integer m) h = cc
text_of-is_hex n (fraction s) h = cc
text_of-is_hex n not_finite h = cc
text_of-is_hex n (bigint m) h = cc
text_of-is_hex n (string s) h = h
text_of-is_hex n (array vs) h = cc
text_of-is_hex n (object es) h = cc

-- An object in another order is an object.
reordered_object :
    {v w : Json} (es : Entries) → Reordered v w → v ≡ object es → (fs : Entries) × (w ≡ object fs)
reordered_object es (same {v = v}) e = (es, e)
reordered_object es (arrays r) e = cc
reordered_object es (objects {fs = fs} r) e = (fs, refl)

root_valid :
    (v : Json)
    → valid_trace v ≡ true
    → (has_exact_keys root_keys v ≡ true)
      × (is_hex_value 64 (prop (codes "agentId") v) ≡ true)
      × (is_hex_value 40 (prop (codes "owner") v) ≡ true)
unfolding valid_trace
root_valid v h = (ground arith, ground arith, ground arith)

upload_body-accepts :
    (v : Json) (digest : Text) (fs : Entries)
    → valid_trace v ≡ true
    → is_hex 64 digest ≡ true
    → accepts_trace (upload_body v digest (object fs)) ≡ true
unfolding accepts_trace
upload_body-accepts v digest fs h hex =
    let (exact, agent, owner) = root_valid v h in
    let a = text_of-is_hex 64 (prop (codes "agentId") v) agent in
    let o = text_of-is_hex 40 (prop (codes "owner") v) owner in rw (a, o, hex) refl

-- What the client makes of an answer whose digest is its own.
abbrev received : Result TraceResponse → UploadOutcome
received (err e) = upload_failed e
received (ok response) = delivered response

check_digest-received :
    (digest : Text) (answer : Result TraceResponse)
    → ((response : TraceResponse) → answer ≡ ok response → response.context_digest ≡ digest)
    → check_digest digest answer ≡ received answer
unfolding check_digest
check_digest-received digest (err e) h = refl
check_digest-received digest (ok response) h = rw (h response refl) (rw (text_eq_refl digest) refl)

validate_decision_trace-valid :
    (v : Json) → validate_decision_trace v ≡ ok tt → valid_trace v ≡ true
unfolding validate_decision_trace
validate_decision_trace-valid v h = ground arith

unexpired-some :
    (now : ℕ) (o : Option TraceRow) (r : TraceRow) → unexpired now o ≡ some r → o ≡ some r
unexpired-some now none r h = cc
unexpired-some now (some x) r h = ground arith

abbrev digest_of : Result TraceResponse → Text
digest_of (err e) = []
digest_of (ok response) = response.context_digest

canonical_object :
    (fs : Entries) (t : Text)
    → canonicalize (object fs) ≡ ok t
    → to_canonical_bytes (object fs) ≡ ok t
unfolding to_canonical_bytes
canonical_object fs t h = rw h refl

module _ (keccak : Text → Text) (pin : Text → Result Text)
    (sign : TraceAckContext → TraceAck → Result Signed) (checksum : Text → Text) (ttl : ℕ)
    (provider : Provider) (parse : Text → Json) (ctx : TraceAckContext) where
  -- The answer of the service to a trace that it has accepted.
  abbrev accepted_answer : ℕ → TraceBody → Text → List TraceRow → Result TraceResponse
  accepted_answer now b t table =
      elim (unexpired now (get_trace_by_digest b.context_digest table)) [
        | some r ↦ ok (answer_cached ctx b r)
        | none ↦ (pin_and_sign keccak pin sign checksum ttl provider ctx now b t table).answer
      ]

  accepted_answer-upload :
      (now : ℕ) (b : TraceBody) (t : Text) (table : List TraceRow)
      → accepts_trace b ≡ true
      → to_canonical_bytes b.trace ≡ ok t
      → text_eq (to_lower (keccak t)) (to_lower b.context_digest) ≡ true
      → (upload keccak pin sign checksum ttl provider (ok ctx) now b table).answer
        ≡ accepted_answer now b t table
  unfolding upload
  accepted_answer-upload now b t table a c d =
      let row = unexpired now (get_trace_by_digest b.context_digest table) in
      rw (a, c, d)
        (elim (Option-cases row) [
          | inl none_left ↦ rw (none_left, accepted_answer) refl
          | inr kept ↦ rw (kept.1, accepted_answer) refl
        ])

  pin_and_sign-digest :
      (now : ℕ) (b : TraceBody) (t : Text) (table : List TraceRow) (response : TraceResponse)
      → (pin_and_sign keccak pin sign checksum ttl provider ctx now b t table).answer ≡ ok response
      → response.context_digest ≡ b.context_digest
  unfolding pin_and_sign
  pin_and_sign-digest now b t table response h = elim (Result-cases (pin t)) [
    | inl (uri, e) ↦ elim (Result-cases (sign ctx (ack_of keccak checksum ttl now b uri))) [
      | inl (s, d) ↦ ap digest_of (sym h) ∙ rw (e, pin_and_sign) (rw d refl)
      | inr (f, d) ↦ let no : err f ≡ ok response = rw d at (rw (e, pin_and_sign) at h) in cc
    ]
    | inr (f, e) ↦ let no : err f ≡ ok response = rw (e, pin_and_sign) at h in cc
  ]

  accepted_answer-digest :
      (now : ℕ) (b : TraceBody) (t : Text) (table : List TraceRow) (response : TraceResponse)
      → to_lower b.context_digest ≡ b.context_digest
      → accepted_answer now b t table ≡ ok response
      → response.context_digest ≡ b.context_digest
  accepted_answer-digest now b t table response low h =
      let row = unexpired now (get_trace_by_digest b.context_digest table) in
      elim (Option-cases row) [
        | inl gone ↦ pin_and_sign-digest now b t table response (rw (gone, accepted_answer) at h)
        | inr kept ↦
            let found =
              unexpired-some now (get_trace_by_digest b.context_digest table) kept.0 kept.1 in
            ap digest_of (sym h)
            ∙ rw (kept.1, accepted_answer)
                (get_trace-digest b.context_digest table kept.0 found ∙ low)
      ]

  -- A valid trace whose values are integers, not fractions, is accepted by the service, where its
  -- deployment manifest is there, whenever keccak gives 64 lower-case digits and JSON.parse gives the trace back with its fields in some
  -- order: the client gets the cached row that has not expired, else what pinning and signing give,
  -- and never a refusal of the body or a digest that is not its own.
  pub upload_trace-upload :
      (now : ℕ) (table : List TraceRow) (v : Json) (t : Text)
      → validate_decision_trace v ≡ ok tt
      → IsIntegral v
      → stringify v ≡ ok t
      → Reordered v (parse t)
      → is_hex 64 (keccak t) ≡ true
      → to_lower (keccak t) ≡ keccak t
      → upload_trace keccak parse
          (λ b. (upload keccak pin sign checksum ttl provider (ok ctx) now b table).answer)
          v
        ≡ received (accepted_answer now (upload_body v (keccak t) (parse t)) t table)
  unfolding upload_trace compute_context_digest
  upload_trace-upload now table v t valid integral text parsed hex low =
      let is_valid : valid_trace v ≡ true = validate_decision_trace-valid v valid in
      let (es, whole) = as_object root_keys v (root_valid v is_valid).0 in
      let (fs, payload) = reordered_object es parsed whole in
      let canonical : canonicalize (parse t) ≡ ok t =
        canonicalize-Reordered t parsed (canonicalize-stringify v integral ∙ text) in
      let body = upload_body v (keccak t) (parse t) in
      let bytes : to_canonical_bytes (parse t) ≡ ok t =
        subst (λ w. to_canonical_bytes w ≡ ok t) (sym payload)
          (canonical_object fs t (subst (λ w. canonicalize w ≡ ok t) payload canonical)) in
      let accepted : accepts_trace body ≡ true =
        subst (λ w. accepts_trace (upload_body v (keccak t) w) ≡ true) (sym payload)
          (upload_body-accepts v (keccak t) fs is_valid hex) in
      let done = serialize_canonical_text v t valid text in
      rw (valid, upload_trace)
        (rw (done, compute_context_digest)
          (rw done (
            ap (check_digest (keccak t)) (
              accepted_answer-upload now body t table accepted bytes
                (text_eq_refl (to_lower (keccak t))))
            ∙ check_digest-received (keccak t) (accepted_answer now body t table)
                (λ response h. accepted_answer-digest now body t table response low h))))
