-- ===== src/Agents/Flow.antt =====
-- agents/shared.ts: what a demo agent does, from its fixture to the payment.
use inspect_element.Prelude.{Bool, true, false, not, some, List, [], ◌∷◌, ◌++◌, if◌then◌else◌}
use inspect_element.Prelude.Texts.{Text, codes, text_eq, to_lower}
use inspect_element.Prelude.Results.{Result, ok, err, ◌>>=◌, internal}
use inspect_element.Canonical.Value.{Json}
use inspect_element.Api.Traces.{TraceBody, TraceResponse}
use inspect_element.Trace.Client.{
  UploadOutcome, delivered, not_sent, upload_failed, digest_mismatch, to_trace_ack, upload_trace,
}
use inspect_element.Agents.Request.{
  ExecutionRequest, amount_text, prepare_live_trace, build_execution_request,
}

pub record AgentEnv : Type 0 where
  pub owner_address : Text
  pub agent_id : Text

pub record Fixture : Type 0 where
  pub trace : Json
  pub expected_target : Text
  pub expected_amount : Text

pub data GuardDecision : Type 0 where
  green : GuardDecision
  yellow : GuardDecision
  red : GuardDecision

pub record PreflightResult : Type 0 where
  pub decision : GuardDecision
  pub reason_code : Text
  pub reason_label : Text

pub record ExecuteResult : Type 0 where
  pub receipt_id : Text
  pub tx_hash : Text

-- The outcomes of a ScenarioResult, with what each of them carries.
pub data ScenarioOutcome : Type 0 where
  success : Text → Text → ScenarioOutcome
  blocked : Text → Text → ScenarioOutcome
  failed : Text → Text → ScenarioOutcome

-- The calls that leave the agent, in their order.
pub data AgentCall : Type 0 where
  uploads : Json → AgentCall
  preflights : ExecutionRequest → AgentCall
  executes : ExecutionRequest → AgentCall

pub record AgentRun {ℓ} (A : Type ℓ) : Type ℓ where
  pub calls : List AgentCall
  pub result : Result A

-- `await`: the calls that it makes, its result, and what follows.
abbrev pub after {ℓ ℓ'} :
    {A : Type ℓ} {B : Type ℓ'} → List AgentCall → Result A → (A → AgentRun B) → AgentRun B
after calls (err e) rest = record { calls = calls; result = err e }
after calls (ok a) rest = record { calls = calls ++ (rest a).calls; result = (rest a).result }

abbrev pub ends_with {ℓ} : {A : Type ℓ} → A → AgentRun A
ends_with a = record { calls = []; result = ok a }

-- The response, or what the client throws.
abbrev pub received_response : UploadOutcome → Result TraceResponse
received_response (delivered r) = ok r
received_response (not_sent e) = err e
received_response (upload_failed e) = err e
received_response (digest_mismatch l r) = err internal

abbrev pub is_green : GuardDecision → Bool
is_green green = true
is_green d = false

pub record PreparedScenario : Type 0 where
  pub live_trace : Json
  pub owner : Text
  pub agent_id : Text
  pub target : Text
  pub token : Text
  pub amount : Text

-- The request for what was prepared and uploaded.
abbrev pub request_for :
    (Text → Result Text) → PreparedScenario → TraceResponse → Result ExecutionRequest
request_for checksum p r = build_execution_request checksum (record {
  owner = p.owner;
  agent_id = p.agent_id;
  target = p.target;
  token = p.token;
  amount = amount_text p.amount;
  trace_uri = r.trace_uri;
  trace_ack = to_trace_ack r;
  call_data = some (codes "0x");
})

-- `checksum` is viem's `getAddress`, `usdc` is the deployed token, `fixture` reads a fixture file,
-- `active_intent` reads the registry.
module _ (checksum : Text → Result Text) (usdc : Text) (fixture : Text → Result Fixture)
    (active_intent : Text → Result Text) where
  unfoldable pub read_active_intent_hash : AgentEnv → Result Text
  read_active_intent_hash env = active_intent env.owner_address >>= λ intent_hash.
      if text_eq intent_hash
        (codes "0x0000000000000000000000000000000000000000000000000000000000000000")
      then err internal
      else ok intent_hash

  unfoldable pub prepare_scenario_execution : Text → AgentEnv → Result PreparedScenario
  prepare_scenario_execution scenario env = fixture scenario >>= λ f.
      checksum (to_lower f.expected_target) >>= λ target. checksum (to_lower usdc) >>= λ token.
      checksum (to_lower env.owner_address) >>= λ owner.
      read_active_intent_hash env >>= λ intent_hash.
      prepare_live_trace checksum f.trace (record {
        owner = owner;
        agent_id = env.agent_id;
        intent_hash = intent_hash;
        target = target;
        token = token;
        amount = f.expected_amount;
      })
      >>= λ live_trace. ok (record {
        live_trace = live_trace;
        owner = owner;
        agent_id = env.agent_id;
        target = target;
        token = token;
        amount = f.expected_amount;
      })

-- `keccak` and `parse` are as in the client, `post` sends a body to the trace service,
-- `preflight_check` and `execute_guarded` call the guarded executor.
module _ (checksum : Text → Result Text) (keccak : Text → Text) (parse : Text → Json)
    (post : TraceBody → Result TraceResponse) (usdc : Text) (fixture : Text → Result Fixture)
    (active_intent : Text → Result Text)
    (preflight_check : ExecutionRequest → Result PreflightResult)
    (execute_guarded : ExecutionRequest → Result ExecuteResult) where
  abbrev pub after_preflight : ExecutionRequest → PreflightResult → AgentRun ScenarioOutcome
  after_preflight q c =
      if not (is_green c.decision)
      then ends_with (blocked c.reason_label c.reason_code)
      else after (executes q ∷ []) (execute_guarded q)
          (λ x. ends_with (success x.receipt_id x.tx_hash))

  -- What is common to both flows: the upload of the trace, and the request.
  abbrev pub with_request :
      Text → AgentEnv → (ExecutionRequest → AgentRun ScenarioOutcome) → AgentRun ScenarioOutcome
  with_request scenario env rest =
      after [] (prepare_scenario_execution checksum usdc fixture active_intent scenario env) (λ p.
        after (uploads p.live_trace ∷ [])
          (received_response (upload_trace keccak parse post p.live_trace))
          (λ r. after [] (request_for checksum p r) rest))

  unfoldable pub run_execute_flow : Text → AgentEnv → AgentRun ScenarioOutcome
  run_execute_flow scenario env =
      with_request scenario env
        (λ q. after (preflights q ∷ []) (preflight_check q) (λ c. after_preflight q c))

  unfoldable pub run_preflight_only_flow : AgentEnv → AgentRun ScenarioOutcome
  run_preflight_only_flow env = with_request (codes "blocked") env (λ q.
      after (preflights q ∷ []) (preflight_check q) (λ c. ends_with (elim c.decision [
        | red ↦ blocked c.reason_label c.reason_code
        | green ↦ failed c.reason_label c.reason_code
        | yellow ↦ failed c.reason_label c.reason_code
      ])))
