-- ===== src/Store/Executions.antt =====
-- services/infra/src/store/executions.ts: execution requests of partner runtimes and their status.
-- SQLite has the table, by store/schema.ts. The only Supabase migration,
-- supabase/migrations/00001_initial_schema.sql, has none of this name: there each statement ends in an
-- error, which the module does not read, so that nothing is written and nothing is found.
use inspect_element.Prelude.{ℕ, Bool, Option, none, some, List, [], ◌∷◌, ◌++◌}
use inspect_element.Prelude.Texts.{Text, text_eq, to_lower}
use inspect_element.Store.Provider.{Provider, sqlite, supabase}
use inspect_element.Prelude.Tables.{find, update}

pub data ExecutionStatus : Type 0 where
  pending preflight allowed blocked executed failed : ExecutionStatus

pub record ExecutionRow : Type 0 where
  pub id : Text
  pub owner : Text
  pub agent_id : Text
  pub status : ExecutionStatus
  pub proposed_action : Text
  pub trace_json : Option Text
  pub context_digest : Option Text
  pub result_json : Option Text
  pub block_reason : Option Text
  pub receipt_id : Option Text
  pub tx_hash : Option Text
  pub created_at : ℕ
  pub updated_at : ℕ

pub record InsertExecutionInput : Type 0 where
  pub owner : Text
  pub agent_id : Text
  pub proposed_action : Text
  pub trace_json : Option Text
  pub context_digest : Option Text

-- `updates` of `updateExecution`; `none` is a field that is left out.
pub record ExecutionUpdates : Type 0 where
  pub status : Option ExecutionStatus
  pub result_json : Option Text
  pub block_reason : Option Text
  pub receipt_id : Option Text
  pub tx_hash : Option Text
  pub context_digest : Option Text

abbrev pub no_updates : ExecutionUpdates
no_updates = record {
  status = none;
  result_json = none;
  block_reason = none;
  receipt_id = none;
  tx_hash = none;
  context_digest = none;
}

-- `x?.toLowerCase()`
abbrev lower_opt : Option Text → Option Text
lower_opt none = none
lower_opt (some s) = some (to_lower s)

-- The id is a fresh UUID, and an argument here.
unfoldable pub insert_execution :
    Provider → Text → ℕ → InsertExecutionInput → List ExecutionRow → List ExecutionRow
insert_execution supabase id now i table = table
insert_execution sqlite id now i table =
    table
    ++ record {
      id = id;
      owner = to_lower i.owner;
      agent_id = to_lower i.agent_id;
      status = pending;
      proposed_action = i.proposed_action;
      trace_json = i.trace_json;
      context_digest = lower_opt i.context_digest;
      result_json = none;
      block_reason = none;
      receipt_id = none;
      tx_hash = none;
      created_at = now;
      updated_at = now;
    }
      ∷ []

abbrev written {ℓ} : {A : Type ℓ} → Option A → A → A
written none old = old
written (some new) old = new

abbrev written_opt {ℓ} : {A : Type ℓ} → Option A → Option A → Option A
written_opt none old = old
written_opt (some new) old = some new

unfoldable pub updated_execution : ℕ → ExecutionUpdates → ExecutionRow → ExecutionRow
updated_execution now u e = record e {
  status = written u.status e.status;
  result_json = written_opt u.result_json e.result_json;
  block_reason = written_opt u.block_reason e.block_reason;
  receipt_id = written_opt (lower_opt u.receipt_id) e.receipt_id;
  tx_hash = written_opt (lower_opt u.tx_hash) e.tx_hash;
  context_digest = written_opt (lower_opt u.context_digest) e.context_digest;
  updated_at = now;
}

abbrev pub has_execution_id : Text → ExecutionRow → Bool
has_execution_id id e = text_eq e.id id

unfoldable pub update_execution :
    Provider → ℕ → Text → ExecutionUpdates → List ExecutionRow → List ExecutionRow
update_execution supabase now id u table = table
update_execution sqlite now id u table =
    update (has_execution_id id) (updated_execution now u) table

unfoldable pub get_execution : Provider → Text → List ExecutionRow → Option ExecutionRow
get_execution supabase id table = none
get_execution sqlite id table = find (has_execution_id id) table
