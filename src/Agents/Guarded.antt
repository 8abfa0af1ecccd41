-- ===== src/Agents/Guarded.antt =====
-- About agents/shared.ts: what stands behind a request that an agent executes.
use inspect_element.Prelude.{
  ◌≡◌, refl, sym, ap, ◌∙◌, false, List, [], ◌∷◌, ◌++◌, All, inl, inr, ◌⊎◌,
}
use inspect_element.Prelude.Texts.{Text, codes, to_lower}
use inspect_element.Prelude.Results.{Result, ok, err, split_bind}
use inspect_element.Canonical.Value.{Json}
use inspect_element.Api.Traces.{TraceBody, TraceResponse}
use inspect_element.Trace.Client.{compute_context_digest, upload_trace, to_trace_ack}
use inspect_element.Agents.Request.{
  ExecutionRequest, LiveTraceOverrides, amount_text, prepare_live_trace,
}
use inspect_element.Agents.Flow.{
  AgentEnv, Fixture, PreflightResult, ExecuteResult, ScenarioOutcome, success, GuardDecision, green,
  yellow, red, is_green, AgentCall, uploads, preflights, executes, AgentRun, after, ends_with,
  received_response, PreparedScenario, read_active_intent_hash, prepare_scenario_execution,
  request_for, after_preflight, run_execute_flow,
}
use inspect_element.Agents.Laws.{
  Matches, ok_injective, response-digest, build_execution_request-fields,
  prepare_live_trace-Matches,
}

abbrev pub executed : List AgentCall → List ExecutionRequest
executed [] = []
executed (uploads v ∷ cs) = executed cs
executed (preflights q ∷ cs) = executed cs
executed (executes q ∷ cs) = q ∷ executed cs

abbrev pub uploaded : List AgentCall → List Json
uploaded [] = []
uploaded (uploads v ∷ cs) = v ∷ uploaded cs
uploaded (preflights q ∷ cs) = uploaded cs
uploaded (executes q ∷ cs) = uploaded cs

-- A property of every way in which an awaited call and what follows it can go.
after_lem {ℓ ℓ' ℓ''} :
    {A : Type ℓ} {B : Type ℓ'} (calls : List AgentCall) (a : Result A) (rest : A → AgentRun B)
    (P : List AgentCall → Type ℓ'')
    → P calls
    → ((x : A) → a ≡ ok x → P (calls ++ (rest x).calls))
    → P (after calls a rest).calls
after_lem calls (err e) rest P stopped on = stopped
after_lem calls (ok x) rest P stopped on = on x refl

-- The request carries the digest of the response.
request-digest :
    (checksum : Text → Result Text) (p : PreparedScenario) (r : TraceResponse)
    (q : ExecutionRequest)
    → request_for checksum p r ≡ ok q
    → r.context_digest ≡ q.trace_ack.context_digest
unfolding to_trace_ack
request-digest checksum p r q h =
    let (d1, d2, d3, d4, d5, acked, called) = build_execution_request-fields checksum _ q h in
    ap (λ a. a.context_digest) acked

-- The call data of the trace is not passed on.
request-call_data :
    (checksum : Text → Result Text) (p : PreparedScenario) (r : TraceResponse)
    (q : ExecutionRequest)
    → request_for checksum p r ≡ ok q
    → q.call_data ≡ codes "0x"
request-call_data checksum p r q h =
    let (d1, d2, d3, d4, d5, acked, called) = build_execution_request-fields checksum _ q h in
    sym called

decision_cases : (d : GuardDecision) → (d ≡ green) ⊎ (is_green d ≡ false)
decision_cases green = inl refl
decision_cases yellow = inr refl
decision_cases red = inr refl

module _ (checksum : Text → Result Text) (keccak : Text → Text) (parse : Text → Json)
    (post : TraceBody → Result TraceResponse) (usdc : Text) (fixture : Text → Result Fixture)
    (active_intent : Text → Result Text)
    (preflight_check : ExecutionRequest → Result PreflightResult)
    (execute_guarded : ExecutionRequest → Result ExecuteResult) where
  -- A request that a run may execute: of the one uploaded trace it has the owner, agent, target, token
  -- and amount, and the digest; its call data is empty; and the guard has answered green to it.
  abbrev pub IsGuarded : List AgentCall → ExecutionRequest → Type 0
  IsGuarded calls q =
      (v : Json) × (uploaded calls ≡ v ∷ [])
      × Matches v q
      × (compute_context_digest keccak v ≡ ok q.trace_ack.context_digest)
      × (q.call_data ≡ codes "0x")
      × ((c : PreflightResult) × (preflight_check q ≡ ok c) × (c.decision ≡ green))

  abbrev flow_after_preflight : ExecutionRequest → PreflightResult → AgentRun ScenarioOutcome
  flow_after_preflight =
      after_preflight checksum keccak parse post usdc fixture active_intent preflight_check
        execute_guarded

  prepare_scenario_execution-Matches :
      (scenario : Text) (env : AgentEnv) (p : PreparedScenario) (r : TraceResponse)
      (q : ExecutionRequest)
      → prepare_scenario_execution checksum usdc fixture active_intent scenario env ≡ ok p
      → request_for checksum p r ≡ ok q
      → Matches p.live_trace q
  unfolding prepare_scenario_execution
  prepare_scenario_execution-Matches scenario env p r q h b =
      let (f, e1, h1) = split_bind (fixture scenario) _ h in
      let (target, e2, h2) = split_bind (checksum (to_lower f.expected_target)) _ h1 in
      let (token, e3, h3) = split_bind (checksum (to_lower usdc)) _ h2 in
      let (owner, e4, h4) = split_bind (checksum (to_lower env.owner_address)) _ h3 in
      let (intent_hash, e5, h5) =
        split_bind (read_active_intent_hash checksum usdc fixture active_intent env) _ h4 in
      let o : LiveTraceOverrides = record {
        owner = owner;
        agent_id = env.agent_id;
        intent_hash = intent_hash;
        target = target;
        token = token;
        amount = f.expected_amount;
      } in
      let (w, e6, h6) = split_bind (prepare_live_trace checksum f.trace o) _ h5 in
      let same = ok_injective _ p h6 in
      prepare_live_trace-Matches checksum f.trace o p.live_trace _ q
        (e6 ∙ ap (λ p. ok p.live_trace) same) b (sym (ap (λ p. p.owner) same))
        (sym (ap (λ p. p.agent_id) same)) (sym (ap (λ p. p.target) same))
        (sym (ap (λ p. p.token) same)) (sym (ap (λ p. amount_text p.amount) same))

  after_preflight_lem :
      (q : ExecutionRequest) (c : PreflightResult) (P : List AgentCall → Type 0)
      → P []
      → (c.decision ≡ green → P (executes q ∷ []))
      → P (flow_after_preflight q c).calls
  after_preflight_lem q c P none_left one = elim (decision_cases c.decision) [
    | inl go ↦ rw go (
        after_lem (executes q ∷ []) (execute_guarded q)
          (λ x. ends_with (success x.receipt_id x.tx_hash)) P (one go) (λ x e. one go))
    | inr stop ↦ rw stop none_left
  ]

  -- Every request that a run of the agent executes has the owner, agent, target, token and amount of
  -- the one trace that the run has uploaded, and the digest of that trace, and the guard has answered
  -- green to it. Its call data is empty, whatever call data that trace proposes.
  pub run_execute_flow-IsGuarded :
      (scenario : Text) (env : AgentEnv)
      → let calls =
          (run_execute_flow checksum keccak parse post usdc fixture active_intent preflight_check
            execute_guarded scenario env).calls in
        All (IsGuarded calls) (executed calls)
  unfolding run_execute_flow
  run_execute_flow-IsGuarded scenario env =
      let P : List AgentCall → Type 0 = λ cs. All (IsGuarded cs) (executed cs) in
      after_lem [] (prepare_scenario_execution checksum usdc fixture active_intent scenario env) _ P
        tt
        (λ p e1.
          let v = p.live_trace in
          after_lem (uploads v ∷ []) (received_response (upload_trace keccak parse post v)) _ P tt
            (λ r e2.
              let Q : List AgentCall → Type 0 = λ cs. P (uploads v ∷ cs) in
              after_lem [] (request_for checksum p r) _ Q tt (λ q e3.
                after_lem (preflights q ∷ []) (preflight_check q) _ Q tt (λ c e4.
                  after_preflight_lem q c (λ cs. Q (preflights q ∷ cs)) tt
                    (λ go. (
                      (
                        v,
                        refl,
                        prepare_scenario_execution-Matches scenario env p r q e1 e3,
                        response-digest keccak parse post v r e2
                            ∙ ap (λ d. ok d) (request-digest checksum p r q e3),
                        request-call_data checksum p r q e3,
                        (c, e4, go),
                      ),
                      tt,
                    ))))))
