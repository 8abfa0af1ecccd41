-- ===== src/Indexer/DemoStatus.antt =====
-- services/infra/src/indexer/demo-status.ts: one poll of the demo control service, `tick`.
pub mod Laws
use inspect_element.Prelude.{ℕ, Bool, true, false, Option, none, some, ◌++◌, if◌then◌else◌}
use inspect_element.Prelude.Texts.{Text, codes, is_empty, to_decimal}
use inspect_element.Prelude.Integers.{ℤ, big_int}
use inspect_element.Prelude.Results.{Result, ok, err, ◌>>=◌, syntax}
use inspect_element.Store.Blocked.{BlockedTable, insert_blocked_attempt, blocked_attempt_exists}

-- `last` of the envelope; `was_blocked` says that the outcome is "blocked".
pub record LastRun : Type 0 where
  pub scenario_id : Option Text
  pub was_blocked : Bool
  pub reason_code : Option Text
  pub reason_label : Option Text
  pub owner : Option Text
  pub agent_id : Option Text
  pub target : Option Text
  pub token : Option Text
  pub amount : Option Text

-- A missing amount and an empty one are no amount.
unfoldable pub read_amount : Option Text → Result (Option ℤ)
read_amount none = ok none
read_amount (some s) =
    if is_empty s then ok none else elim (big_int s) [ none ↦ err syntax | some n ↦ ok (some n) ]

abbrev pub given : Option Text → Option Text
given none = none
given (some s) = if is_empty s then none else some s

abbrev pub id_or : Option Text → Text → Text
id_or none d = d
id_or (some s) d = s

unfoldable pub record_blocked : ℕ → Text → Text → LastRun → BlockedTable → Result BlockedTable
record_blocked now_sec id reason last t =
    if blocked_attempt_exists id t
    then ok t
    else read_amount last.amount >>= (λ amount. ok (
        insert_blocked_attempt now_sec
          (record {
            scenario_id = some id;
            owner = last.owner;
            agent_id = last.agent_id;
            target = last.target;
            token = last.token;
            amount = amount;
            reason_code = reason;
            reason_label = last.reason_label;
            source = some (codes "demo-status");
          })
          t))

-- `now` is `Date.now()` in milliseconds, `now_sec` the time of the insert.
unfoldable pub poll : ℕ → ℕ → Option LastRun → BlockedTable → Result BlockedTable
poll now now_sec none t = ok t
poll now now_sec (some last) t =
    if last.was_blocked
    then elim (given last.reason_code) [
      | none ↦ ok t
      | some reason ↦
          record_blocked now_sec (id_or last.scenario_id (reason ++ codes ":" ++ to_decimal now))
            reason last t
    ]
    else ok t
