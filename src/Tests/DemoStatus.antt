-- ===== src/Tests/DemoStatus.antt =====
-- services/infra/src/indexer/demo-status.ts at a status that is polled twice.
use inspect_element.Prelude.{◌≡◌, refl, true, none, some, []}
use inspect_element.Prelude.Texts.{codes}
use inspect_element.Prelude.Results.{ok}
use inspect_element.Prelude.Integers.{pos, big_int}
use inspect_element.Prelude.Tables.{any}
use inspect_element.Store.Blocked.{BlockedTable, insert_blocked_attempt, blocked_attempt_exists}
use inspect_element.Indexer.DemoStatus.{LastRun, read_amount, record_blocked, poll}
use inspect_element.Indexer.DemoStatus.Laws.{poll_again}

abbrev denied : LastRun
denied = record {
  scenario_id = some (codes "s1");
  was_blocked = true;
  reason_code = some (codes "COUNTERPARTY_NOT_ALLOWED");
  reason_label = none;
  owner = none;
  agent_id = none;
  target = none;
  token = none;
  amount = some (codes "20");
}

abbrev nothing : BlockedTable
nothing = record { rows = []; next_id = 1 }

abbrev once : BlockedTable
once =
    insert_blocked_attempt 9
      (record {
        scenario_id = some (codes "s1");
        owner = none;
        agent_id = none;
        target = none;
        token = none;
        amount = some (pos 20);
        reason_code = codes "COUNTERPARTY_NOT_ALLOWED";
        reason_label = none;
        source = some (codes "demo-status");
      })
      nothing

poll_again_example : poll 12000 12 (some denied) once ≡ ok once
unfolding poll record_blocked blocked_attempt_exists any read_amount big_int
poll_again_example = poll_again 9000 9 12000 12 (codes "s1") denied nothing once refl refl refl
