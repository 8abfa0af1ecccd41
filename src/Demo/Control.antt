-- ===== src/Demo/Control.antt =====
-- services/demo-control/src/index.ts: a request starts a run and is answered at once; the run ends
-- later, after any other requests and ends of runs.
use inspect_element.Prelude.{ℕ, Option, none, some, if◌then◌else◌}
use inspect_element.Prelude.Texts.{Text, is_hex, is_empty}
use inspect_element.Demo.State.{
  ScenarioName, Outcome, outcome_failed, ScenarioResult, RunStatus, completed, failed, DemoState,
  start_run, finish_run,
}

-- The field `ownerAddress` of a body, as `parseOwnerAddress` tells its values apart.
pub data OwnerField : Type 0 where
  missing : OwnerField
  text : Text → OwnerField
  not_text : OwnerField

-- What it answers: no owner, an owner, or `null` for one that is refused.
pub data Owner : Type 0 where
  no_owner : Owner
  owner : Text → Owner
  refused_owner : Owner

-- `checksum` is viem's `getAddress`.
unfoldable pub parse_owner_address : (Text → Text) → OwnerField → Owner
parse_owner_address checksum missing = no_owner
parse_owner_address checksum not_text = refused_owner
parse_owner_address checksum (text t) =
    if is_empty t then no_owner else if is_hex 40 t then owner (checksum t) else refused_owner

-- A run that is under way.
pub record Job : Type 0 where
  pub scenario_id : Text
  pub scenario : ScenarioName
  pub owner_address : Option Text

pub record Posted : Type 0 where
  pub accepted : Option Job
  pub last_run : Option DemoState

-- The three POST handlers up to their answer: no job is a 400, a job answers with its id.
unfoldable pub post_run :
    (Text → Text) → ScenarioName → OwnerField → Text → ℕ → Option DemoState → Posted
post_run checksum scenario field scenario_id now last = elim (parse_owner_address checksum field) [
  | refused_owner ↦ record { accepted = none; last_run = last }
  | no_owner ↦ record {
    accepted =
        some (record { scenario_id = scenario_id; scenario = scenario; owner_address = none });
    last_run = start_run scenario_id now last;
  }
  | owner a ↦ record {
    accepted =
        some (record { scenario_id = scenario_id; scenario = scenario; owner_address = some a });
    last_run = start_run scenario_id now last;
  }
]

-- How the awaited flow ends: with a result, or with an exception and its message.
pub data Ended : Type 0 where
  returned : ScenarioResult → Ended
  thrown : Text → Ended

unfoldable pub error_result : ScenarioName → Text → ScenarioResult
error_result scenario message = record {
  scenario = scenario;
  outcome = outcome_failed;
  tx_hash = none;
  receipt_id = none;
  reason_code = none;
  reason_code_hex = none;
  error = some message;
}

-- The rest of the handler, once the flow has ended.
unfoldable pub end_run : Job → Ended → Option DemoState → Option DemoState
end_run job (returned result) last = finish_run job.scenario_id completed result last
end_run job (thrown message) last =
    finish_run job.scenario_id failed (error_result job.scenario message) last

pub record StatusBody : Type 0 where
  pub scenario_id : Text
  pub status : RunStatus
  pub outcome : Option Outcome
  pub tx_hash : Option Text
  pub reason_code : Option Text
  pub reason_code_hex : Option Text
  pub receipt_id : Option Text
  pub error : Option Text

abbrev and_then {ℓ κ} : {A : Type ℓ} {B : Type κ} → Option A → (A → Option B) → Option B
and_then none f = none
and_then (some a) f = f a

-- GET /demo/status
unfoldable pub get_status : Option DemoState → Option StatusBody
get_status none = none
get_status (some run) = some (record {
  scenario_id = run.scenario_id;
  status = run.status;
  outcome = and_then run.result (λ r. some r.outcome);
  tx_hash = and_then run.result (λ r. r.tx_hash);
  reason_code = and_then run.result (λ r. r.reason_code);
  reason_code_hex = and_then run.result (λ r. r.reason_code_hex);
  receipt_id = and_then run.result (λ r. r.receipt_id);
  error = and_then run.result (λ r. r.error);
})
