-- ===== src/Demo/State.antt =====
-- services/demo-control/src/state.ts: the one run that the service remembers. The variable `lastRun`
-- is passed along.
use inspect_element.Prelude.{ℕ, Option, none, some, if◌then◌else◌}
use inspect_element.Prelude.Texts.{Text, text_eq}

pub data ScenarioName : Type 0 where
  legit blocked overspend : ScenarioName

pub data Outcome : Type 0 where
  outcome_success outcome_blocked outcome_failed : Outcome

-- `ScenarioResult` of agents/shared.ts; an outcome is "success", "blocked" or "failed".
pub record ScenarioResult : Type 0 where
  pub scenario : ScenarioName
  pub outcome : Outcome
  pub tx_hash : Option Text
  pub receipt_id : Option Text
  pub reason_code : Option Text
  pub reason_code_hex : Option Text
  pub error : Option Text

pub data RunStatus : Type 0 where
  running completed failed : RunStatus

pub record DemoState : Type 0 where
  pub scenario_id : Text
  pub status : RunStatus
  pub result : Option ScenarioResult
  pub started_at : ℕ

unfoldable pub start_run : Text → ℕ → Option DemoState → Option DemoState
start_run scenario_id started_at last =
    some (record {
      scenario_id = scenario_id;
      status = running;
      result = none;
      started_at = started_at;
    })

unfoldable pub finish_run : Text → RunStatus → ScenarioResult → Option DemoState → Option DemoState
finish_run scenario_id status result none = none
finish_run scenario_id status result (some run) =
    if text_eq run.scenario_id scenario_id
    then some (record run { status = status; result = some result })
    else some run
