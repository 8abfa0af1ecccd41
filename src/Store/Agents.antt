-- ===== src/Store/Agents.antt =====
-- services/infra/src/store/agents.ts: registered agents with their stake, and delegate approvals.
use inspect_element.Prelude.{ℕ, Bool, ◌&&◌, Option, List, ◌==◌}
use inspect_element.Prelude.Texts.{Text, text_eq, to_lower}
use inspect_element.Prelude.Tables.{find, update, upsert}
use inspect_element.Store.Provider.{Provider, sqlite, supabase}

pub record AgentRow : Type 0 where
  pub agent_id : Text
  pub operator : Text
  pub metadata_uri : Text
  pub total_stake : ℕ
  pub block_number : ℕ
  pub tx_hash : Text
  pub created_at : ℕ

pub record AgentInput : Type 0 where
  pub agent_id : Text
  pub operator : Text
  pub metadata_uri : Text
  pub block_number : ℕ
  pub tx_hash : Text

unfoldable pub agent_row : ℕ → AgentInput → AgentRow
agent_row now i = record {
  agent_id = to_lower i.agent_id;
  operator = to_lower i.operator;
  metadata_uri = i.metadata_uri;
  total_stake = 0;
  block_number = i.block_number;
  tx_hash = to_lower i.tx_hash;
  created_at = now;
}

-- SQLite updates two columns of a known agent; the Supabase upsert writes the whole row, the zero
-- stake included.
unfoldable pub agent_merge : Provider → AgentRow → AgentRow → AgentRow
agent_merge sqlite row old = record old { operator = row.operator; metadata_uri = row.metadata_uri }
agent_merge supabase row old = row

abbrev pub has_agent_id : Text → AgentRow → Bool
has_agent_id key a = text_eq a.agent_id key

unfoldable pub upsert_agent_registered : Provider → ℕ → AgentInput → List AgentRow → List AgentRow
upsert_agent_registered provider now i table =
    let row = agent_row now i in
    upsert (has_agent_id row.agent_id) (agent_merge provider row) row table

unfoldable pub apply_stake_increase : Text → ℕ → List AgentRow → List AgentRow
apply_stake_increase agent_id new_stake table =
    update (has_agent_id (to_lower agent_id)) (λ a. record a { total_stake = new_stake }) table

unfoldable pub get_agent : Text → List AgentRow → Option AgentRow
get_agent agent_id table = find (has_agent_id (to_lower agent_id)) table

pub record DelegateRow : Type 0 where
  pub owner : Text
  pub agent_id : Text
  pub delegate : Text
  pub approved : Bool
  pub block_number : ℕ
  pub tx_hash : Text
  pub log_index : ℕ
  pub created_at : ℕ

pub record DelegateInput : Type 0 where
  pub owner : Text
  pub agent_id : Text
  pub delegate : Text
  pub approved : Bool
  pub block_number : ℕ
  pub tx_hash : Text
  pub log_index : ℕ

unfoldable pub delegate_row : ℕ → DelegateInput → DelegateRow
delegate_row now i = record {
  owner = to_lower i.owner;
  agent_id = to_lower i.agent_id;
  delegate = to_lower i.delegate;
  approved = i.approved;
  block_number = i.block_number;
  tx_hash = to_lower i.tx_hash;
  log_index = i.log_index;
  created_at = now;
}

-- PRIMARY KEY (owner, agent_id, delegate, log_index, tx_hash)
same_delegate : DelegateRow → DelegateRow → Bool
same_delegate row d =
    text_eq d.owner row.owner
    && (text_eq d.agent_id row.agent_id
        && (text_eq d.delegate row.delegate
            && (d.log_index == row.log_index && text_eq d.tx_hash row.tx_hash)))

-- INSERT OR REPLACE, or the upsert on the same key: the whole row is written.
unfoldable pub insert_delegate : ℕ → DelegateInput → List DelegateRow → List DelegateRow
unfolding same_delegate
insert_delegate now i table =
    let row = delegate_row now i in upsert (same_delegate row) (λ _. row) row table
