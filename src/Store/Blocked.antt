-- ===== src/Store/Blocked.antt =====
-- services/infra/src/store/blocked.ts: attempts that the guard has blocked.
use inspect_element.Prelude.{
  ℕ, ◌+◌, Bool, true, false, Option, none, some, List, [], ◌∷◌, ◌++◌, ltb, if◌then◌else◌, take,
}
use inspect_element.Prelude.Texts.{Text, codes, text_eq, to_lower, is_empty}
use inspect_element.Prelude.Integers.{ℤ}
use inspect_element.Prelude.Tables.{select, order_by, any}
use inspect_element.Store.Traces.{lower_or_null}

pub record BlockedRow : Type 0 where
  pub id : ℕ
  pub scenario_id : Option Text
  pub owner : Option Text
  pub agent_id : Option Text
  pub target : Option Text
  pub token : Option Text
  pub amount : Option ℤ
  pub reason_code : Text
  pub reason_label : Option Text
  pub source : Text
  pub created_at : ℕ

pub record InsertBlockedInput : Type 0 where
  pub scenario_id : Option Text
  pub owner : Option Text
  pub agent_id : Option Text
  pub target : Option Text
  pub token : Option Text
  pub amount : Option ℤ
  pub reason_code : Text
  pub reason_label : Option Text
  pub source : Option Text

-- The table with the counter of its generated keys.
pub record BlockedTable : Type 0 where
  pub rows : List BlockedRow
  pub next_id : ℕ

abbrev or_default : Option Text → Text → Text
or_default none d = d
or_default (some s) d = s

unfoldable pub blocked_row : ℕ → ℕ → InsertBlockedInput → BlockedRow
blocked_row id now i = record {
  id = id;
  scenario_id = i.scenario_id;
  owner = lower_or_null i.owner;
  agent_id = lower_or_null i.agent_id;
  target = lower_or_null i.target;
  token = lower_or_null i.token;
  amount = i.amount;
  reason_code = i.reason_code;
  reason_label = i.reason_label;
  source = or_default i.source (codes "demo-status");
  created_at = now;
}

unfoldable pub insert_blocked_attempt : ℕ → InsertBlockedInput → BlockedTable → BlockedTable
insert_blocked_attempt now i t = record {
  rows = t.rows ++ blocked_row t.next_id now i ∷ [];
  next_id = t.next_id + 1;
}

newer_blocked : BlockedRow → BlockedRow → Bool
newer_blocked a b = ltb b.created_at a.created_at

-- `owner = ? OR owner IS NULL`
abbrev null_or : Text → Option Text → Bool
null_or key none = true
null_or key (some o) = text_eq o key

-- With no owner every row is listed.
abbrev concerns : Option Text → BlockedRow → Bool
concerns none r = true
concerns (some o) r = if is_empty o then true else null_or (to_lower o) r.owner

unfoldable pub list_blocked_by_owner : Option Text → ℕ → BlockedTable → List BlockedRow
unfolding newer_blocked
list_blocked_by_owner owner limit t =
    take limit (order_by newer_blocked (select (concerns owner) t.rows))

abbrev has_scenario : Text → BlockedRow → Bool
has_scenario id r = elim r.scenario_id [ none ↦ false | some s ↦ text_eq s id ]

unfoldable pub blocked_attempt_exists : Text → BlockedTable → Bool
blocked_attempt_exists id t = if is_empty id then false else any (has_scenario id) t.rows
