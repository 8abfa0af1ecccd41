-- ===== src/Tests/Agents.antt =====
-- An agent that pays, with a guard that agrees.
use inspect_element.Prelude.{◌≡◌, refl, [], ◌∷◌, All, map, Option, none, some, if◌then◌else◌}
use inspect_element.Prelude.Texts.{
  Text, codes, text_eq, to_lower, is_hex, is_decimal, decimal, is_hex_data, to_decimal,
}
use inspect_element.Prelude.Integers.{pos, int_text, trim}
use inspect_element.Prelude.Results.{Result, ok, err, internal}
use inspect_element.Canonical.Value.{Json, integer, text_less, quote, join}
use inspect_element.Api.Traces.{TraceBody, TraceResponse}
use inspect_element.Prelude.Tables.{order_by}
use inspect_element.Canonical.Encode.{object_text, array_text}
use inspect_element.Canonical.Stringify.{stringify}
use inspect_element.Trace.Validation.{
  validate_decision_trace, valid_trace, has_exact_keys, same_texts, is_hex_value, is_integer,
  is_number, is_string, is_record, each_item, is_role, valid_session, valid_prompt, valid_tool_call,
  valid_observation, valid_action,
}
use inspect_element.Trace.Serialize.{normalize_trace, serialize_canonical}
use inspect_element.Trace.Client.{upload_trace, check_digest, compute_context_digest}
use inspect_element.Agents.Request.{
  ExecutionRequest, prepare_live_trace, live_trace, build_execution_request, normalize_amount,
}
use inspect_element.Agents.Flow.{
  AgentEnv, Fixture, PreflightResult, ExecuteResult, green, ScenarioOutcome, AgentRun,
  prepare_scenario_execution, read_active_intent_hash, run_execute_flow,
}
use inspect_element.Agents.Runtime.{
  local, RuntimeEnv, runtime_of, resolve_agent_salt, resolve_signer_provider, owner_key_of,
  load_runtime_env, load_agent_account,
}
use inspect_element.Agents.Runtime.Laws.{load_runtime_env-load_agent_account}
use inspect_element.Agents.Guarded.{executed, IsGuarded, run_execute_flow-IsGuarded}
use inspect_element.Tests.DecisionTrace.{zeros, small_trace, zero_digest}

abbrev merchant : Text
merchant = b'0' ∷ b'x' ∷ b'7' ∷ zeros 39

abbrev same_address : Text → Result Text
same_address a = ok a

abbrev one_fixture : Text → Result Fixture
one_fixture scenario = ok (record {
  trace = small_trace (integer (pos 0));
  expected_target = merchant;
  expected_amount = codes " 15";
})

abbrev one_intent : Text → Result Text
one_intent owner = ok (b'0' ∷ b'x' ∷ b'1' ∷ zeros 63)

abbrev answered : TraceBody → Result TraceResponse
answered b = ok (record {
  trace_uri = codes "ipfs://x";
  context_digest = b.context_digest;
  uri_hash = zero_digest;
  expires_at = 160;
  signature = codes "0x02";
  signer = codes "0x01";
  guarded_executor = codes "0x09";
  chain_id = 84532;
  agent_id = b.agent_id;
  owner = b.owner;
})

abbrev agrees : ExecutionRequest → Result PreflightResult
agrees q = ok (record { decision = green; reason_code = zero_digest; reason_label = zero_digest })

abbrev pays : ExecutionRequest → Result ExecuteResult
pays q = ok (record { receipt_id = codes "0x03"; tx_hash = codes "0x04" })

abbrev hashed : Text → Text
hashed t = zero_digest

abbrev parsed : Text → Json
parsed t = small_trace (integer (pos 0))

abbrev env : AgentEnv
env = record { owner_address = merchant; agent_id = zero_digest }

abbrev legit_run : AgentRun ScenarioOutcome
legit_run =
    run_execute_flow same_address hashed parsed answered merchant one_fixture one_intent agrees pays
      (codes "legit") env

run_execute_flow-IsGuarded_example :
    All
      (IsGuarded same_address hashed parsed answered merchant one_fixture one_intent agrees pays
        legit_run.calls)
      (executed legit_run.calls)
run_execute_flow-IsGuarded_example =
    run_execute_flow-IsGuarded same_address hashed parsed answered merchant one_fixture one_intent
      agrees pays (codes "legit") env

-- The run executes one request.
legit_run_pays : map (λ q. q.amount) (executed legit_run.calls) ≡ pos 15 ∷ []
unfolding run_execute_flow prepare_scenario_execution read_active_intent_hash prepare_live_trace
    live_trace build_execution_request normalize_amount trim upload_trace check_digest
    compute_context_digest serialize_canonical validate_decision_trace valid_trace has_exact_keys
    same_texts order_by text_less text_eq to_lower is_hex_value is_hex is_decimal decimal
    is_hex_data is_integer is_number is_string is_record each_item is_role valid_session
    valid_prompt valid_tool_call valid_observation valid_action normalize_trace stringify
    object_text array_text quote join int_text to_decimal
legit_run_pays = refl

-- Only the two keys are set.
abbrev keys_only : Text → Option Text
keys_only name =
    if text_eq name (codes "OPERATOR_PRIVATE_KEY")
    then some (codes "0x01")
    else if text_eq name (codes "OWNER_PRIVATE_KEY")
    then some (codes "0x02")
    else none

abbrev address_of : Text → Result Text
address_of key = ok (b'a' ∷ key)

abbrev id_of : Text → Text → Text
id_of a salt = b'i' ∷ a

abbrev no_cdp : Option Text → Result Text
no_cdp name = err internal

abbrev loaded : RuntimeEnv
loaded =
    runtime_of address_of id_of no_cdp same_address keys_only local (some (codes "0x01"))
      (codes "0x02") (some (codes "a0x01")) (codes "a0x02")

load_runtime_env-load_agent_account_example :
    (key : Text) × (a : Text) × (keys_only (codes "OPERATOR_PRIVATE_KEY") ≡ some key)
    × (address_of key ≡ ok a)
    × (load_agent_account address_of id_of no_cdp same_address loaded
        ≡ ok (record {
          address = a;
          agent_id = id_of a (resolve_agent_salt keys_only);
          source = local;
        }))
unfolding load_runtime_env resolve_signer_provider text_eq owner_key_of
load_runtime_env-load_agent_account_example =
    load_runtime_env-load_agent_account address_of id_of no_cdp same_address keys_only loaded
      (λ a s. refl) refl refl
