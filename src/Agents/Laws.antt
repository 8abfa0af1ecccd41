-- ===== src/Agents/Laws.antt =====
-- About packages/trace/src/execution-request.ts: the request and the trace that it is for.
use inspect_element.Prelude.{◌≡◌, refl, sym, ap, ◌∙◌, subst, false, arith, Bool-cases, inl, inr}
use inspect_element.Prelude.Texts.{
  Text, codes, text_eq, text_eq_iff, text_eq_refl, to_lower, is_empty,
}
use inspect_element.Prelude.Integers.{ℤ, int_text, trim}
use inspect_element.Prelude.Results.{Result, ok, err, ◌>>=◌, internal, split_bind, Result-cases}
use inspect_element.Canonical.Value.{Json, string, Entries, no_entries, entry}
use inspect_element.Api.Traces.{TraceBody, TraceResponse}
use inspect_element.Trace.Validation.{get, entries_of, prop, validate_decision_trace}
use inspect_element.Trace.Serialize.{serialize_canonical}
use inspect_element.Trace.Client.{compute_context_digest, check_digest, upload_body, upload_trace}
use inspect_element.Agents.Request.{
  ExecutionRequest, or_empty_call, BuildExecutionRequestInput, LiveTraceOverrides, amount_text,
  normalize_amount, normalize_amount_string, request_of, put, live_action, live_trace,
  prepare_live_trace, build_execution_request,
}
use inspect_element.Agents.Flow.{received_response}

get-put_self : (k : Text) (w : Json) (es : Entries) → get k (put k w es) ≡ w
get-put_self k w no_entries = rw (text_eq_refl k) refl
get-put_self k w (entry l v es) = elim (Bool-cases (text_eq l k)) [
  | inl hit ↦ rw hit (rw hit refl)
  | inr miss ↦ rw miss (rw miss (get-put_self k w es))
]

get-put_ne :
    (k l : Text) (w : Json) (es : Entries) → text_eq l k ≡ false → get k (put l w es) ≡ get k es
get-put_ne k l w no_entries ne = rw ne refl
get-put_ne k l w (entry m v es) ne =
    ground (arith, text_eq_iff m l, text_eq_iff m k, get-put_ne k l w es ne)

-- Four results in a row that end well.
four_results {ℓ ℓ'} :
    {D : Type ℓ} {R : Type ℓ'} (a b c : Result Text) (d : Result D)
    (f : Text → Text → Text → D → Result R) {whole : R}
    → (a >>= λ x. b >>= λ y. c >>= λ z. d >>= λ n. f x y z n) ≡ ok whole
    → (x : Text) × (y : Text) × (z : Text) × (n : D) × (a ≡ ok x)
      × (b ≡ ok y)
      × (c ≡ ok z)
      × (d ≡ ok n)
      × (f x y z n ≡ ok whole)
four_results (err e) b c d f h = cc
four_results (ok x) (err e) c d f h = cc
four_results (ok x) (ok y) (err e) d f h = cc
four_results (ok x) (ok y) (ok z) (err e) f h = cc
four_results (ok x) (ok y) (ok z) (ok n) f h = (x, y, z, n, refl, refl, refl, refl, h)

pub ok_injective {ℓ} : {T : Type ℓ} (a b : T) → ok a ≡ ok b → a ≡ b
ok_injective a b h = cc

-- The request has the owner, the agent, the target, the token and the amount of the trace. The call
-- data is no part of it: no flow passes it on.
abbrev pub Matches : Json → ExecutionRequest → Type 0
Matches v q =
    (prop (codes "owner") v ≡ string q.owner)
    × (prop (codes "agentId") v ≡ string q.agent_id)
    × (prop (codes "target") (prop (codes "proposedAction") v) ≡ string q.target)
    × (prop (codes "token") (prop (codes "proposedAction") v) ≡ string q.token)
    × (prop (codes "amount") (prop (codes "proposedAction") v) ≡ string (int_text q.amount))

check_digest-digest :
    (digest : Text) (answer : Result TraceResponse) (r : TraceResponse)
    → received_response (check_digest digest answer) ≡ ok r
    → r.context_digest ≡ digest
unfolding check_digest
check_digest-digest digest (err e) r h = cc
check_digest-digest digest (ok x) r h = elim (Bool-cases (text_eq x.context_digest digest)) [
  | inl hit ↦
      let same : x ≡ r = ok_injective x r (rw hit at h) in
      ap (λ x. x.context_digest) (sym same) ∙ (text_eq_iff _ _).0 hit
  | inr miss ↦ let no : err internal ≡ ok r = rw miss at h in cc
]

-- What the client returns has the digest of the trace.
pub response-digest :
    (keccak : Text → Text) (parse : Text → Json) (post : TraceBody → Result TraceResponse)
    (v : Json) (r : TraceResponse)
    → received_response (upload_trace keccak parse post v) ≡ ok r
    → compute_context_digest keccak v ≡ ok r.context_digest
unfolding upload_trace compute_context_digest check_digest
response-digest keccak parse post v r h = elim (Result-cases (validate_decision_trace v)) [
  | inr (f, e) ↦ let no : err f ≡ ok r = rw (e, upload_trace) at h in cc
  | inl (u, e) ↦ elim (Result-cases (serialize_canonical v)) [
    | inr (f, d) ↦
        let no : err f ≡ ok r = rw (d, compute_context_digest) at (rw (e, upload_trace) at h) in cc
    | inl (t, d) ↦
        let sent : received_response
              (check_digest (keccak t) (post (upload_body v (keccak t) (parse t))))
            ≡ ok r =
          rw d at (rw (d, compute_context_digest) at (rw (e, upload_trace) at h)) in
        rw d (
          ap (λ t. ok t)
            (sym
              (check_digest-digest (keccak t) (post (upload_body v (keccak t) (parse t))) r sent)))
  ]
]

live_trace-Matches :
    (v : Json) (o : LiveTraceOverrides) (owner target token : Text) (n : ℤ) (q : ExecutionRequest)
    → q.owner ≡ owner
    → q.agent_id ≡ o.agent_id
    → q.target ≡ target
    → q.token ≡ token
    → q.amount ≡ n
    → Matches (live_trace v o owner target token (int_text n)) q
unfolding live_trace text_eq
live_trace-Matches v o owner target token n q e1 e2 e3 e4 e5 =
    let es = entries_of v in
    let a = put (codes "owner") (string owner) es in
    let b = put (codes "agentId") (string o.agent_id) a in
    let c = put (codes "intentHash") (string o.intent_hash) b in
    let action = live_action (prop (codes "proposedAction") v) target token (int_text n) in
    let old = entries_of (prop (codes "proposedAction") v) in
    let t = put (codes "target") (string target) old in
    let k = put (codes "token") (string token) t in
    let acted = get-put_self (codes "proposedAction") action c in
    (
      get-put_ne (codes "owner") (codes "proposedAction") action c refl
          ∙ get-put_ne (codes "owner") (codes "intentHash") (string o.intent_hash) b refl
          ∙ get-put_ne (codes "owner") (codes "agentId") (string o.agent_id) a refl
          ∙ get-put_self (codes "owner") (string owner) es
          ∙ ap (λ t. string t) (sym e1),
      get-put_ne (codes "agentId") (codes "proposedAction") action c refl
          ∙ get-put_ne (codes "agentId") (codes "intentHash") (string o.intent_hash) b refl
          ∙ get-put_self (codes "agentId") (string o.agent_id) a
          ∙ ap (λ t. string t) (sym e2),
      ap (prop (codes "target")) acted
          ∙ get-put_ne (codes "target") (codes "amount") (string (int_text n)) k refl
          ∙ get-put_ne (codes "target") (codes "token") (string token) t refl
          ∙ get-put_self (codes "target") (string target) old
          ∙ ap (λ t. string t) (sym e3),
      ap (prop (codes "token")) acted
          ∙ get-put_ne (codes "token") (codes "amount") (string (int_text n)) k refl
          ∙ get-put_self (codes "token") (string token) t
          ∙ ap (λ t. string t) (sym e4),
      ap (prop (codes "amount")) acted
          ∙ get-put_self (codes "amount") (string (int_text n)) k
          ∙ ap (λ n. string (int_text n)) (sym e5),
    )

module _ (checksum : Text → Result Text) where
  pub build_execution_request-fields :
      (i : BuildExecutionRequestInput) (q : ExecutionRequest)
      → build_execution_request checksum i ≡ ok q
      → (checksum (to_lower i.owner) ≡ ok q.owner)
        × (checksum (to_lower i.target) ≡ ok q.target)
        × (checksum (to_lower i.token) ≡ ok q.token)
        × (normalize_amount i.amount ≡ ok q.amount)
        × (i.agent_id ≡ q.agent_id)
        × (i.trace_ack ≡ q.trace_ack)
        × (or_empty_call i.call_data ≡ q.call_data)
  unfolding build_execution_request
  build_execution_request-fields i q h = elim (Bool-cases (is_empty (trim i.trace_uri))) [
    | inl none_left ↦ let no : err internal ≡ ok q = rw none_left at h in cc
    | inr some_left ↦
        let (owner, target, token, amount, c1, c2, c3, c4, whole) =
          four_results (checksum (to_lower i.owner)) (checksum (to_lower i.target))
            (checksum (to_lower i.token)) (normalize_amount i.amount)
            (λ x y z n. ok (request_of i x y z n)) (rw some_left at h) in
        let eq = ok_injective (request_of i owner target token amount) q whole in
        (
          c1 ∙ ap (λ q. ok q.owner) eq,
          c2 ∙ ap (λ q. ok q.target) eq,
          c3 ∙ ap (λ q. ok q.token) eq,
          c4 ∙ ap (λ q. ok q.amount) eq,
          ap (λ q. q.agent_id) eq,
          ap (λ q. q.trace_ack) eq,
          ap (λ q. q.call_data) eq,
        )
  ]

  -- A request for the values with which a trace was prepared.
  pub prepare_live_trace-Matches :
      (v : Json) (o : LiveTraceOverrides) (w : Json) (i : BuildExecutionRequestInput)
      (q : ExecutionRequest)
      → prepare_live_trace checksum v o ≡ ok w
      → build_execution_request checksum i ≡ ok q
      → i.owner ≡ o.owner
      → i.agent_id ≡ o.agent_id
      → i.target ≡ o.target
      → i.token ≡ o.token
      → i.amount ≡ amount_text o.amount
      → Matches w q
  unfolding prepare_live_trace
  prepare_live_trace-Matches v o w i q h b e1 e2 e3 e4 e5 =
      let (d1, d2, d3, d4, d5, d6, d7) = build_execution_request-fields i q b in
      let (owner, target, token, text, c1, c2, c3, c4, whole) =
        four_results (checksum (to_lower o.owner)) (checksum (to_lower o.target))
          (checksum (to_lower o.token)) (normalize_amount_string o.amount)
          (λ x y z n. ok (live_trace v o x y z n)) h in
      let (n, c5, printed) =
        split_bind (normalize_amount (amount_text o.amount)) (λ n. ok (int_text n)) c4 in
      let same_owner =
        ok_injective q.owner owner (sym d1 ∙ ap (λ a. checksum (to_lower a)) e1 ∙ c1) in
      let same_target =
        ok_injective q.target target (sym d2 ∙ ap (λ a. checksum (to_lower a)) e3 ∙ c2) in
      let same_token =
        ok_injective q.token token (sym d3 ∙ ap (λ a. checksum (to_lower a)) e4 ∙ c3) in
      let same_amount = ok_injective q.amount n (sym d4 ∙ ap normalize_amount e5 ∙ c5) in
      subst (λ w. Matches w q) (ok_injective (live_trace v o owner target token text) w whole)
        (subst (λ t. Matches (live_trace v o owner target token t) q)
          (ok_injective (int_text n) text printed)
          (live_trace-Matches v o owner target token n q same_owner (sym d5 ∙ e2) same_target
            same_token same_amount))
