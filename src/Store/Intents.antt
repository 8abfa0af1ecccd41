-- ===== src/Store/Intents.antt =====
-- services/infra/src/store/intents.ts: committed intents; the code means at most one of an owner
-- to be active.
pub mod Laws
use inspect_element.Prelude.{
  ℕ, Bool, true, false, ◌&&◌, ◌||◌, Option, List, [], ◌∷◌, ◌++◌, ltb, ◌==◌, if◌then◌else◌, take,
}
use inspect_element.Prelude.Texts.{Text, text_eq, to_lower}
use inspect_element.Prelude.Results.{Result, ok, err, constraint}
use inspect_element.Prelude.Tables.{find, select, update, order_by, any}
use inspect_element.Store.Provider.{Provider, sqlite, supabase}
use inspect_element.Store.Challenges.{first}

pub record IntentRow : Type 0 where
  pub intent_hash : Text
  pub owner : Text
  pub manifest_uri : Text
  pub active : Bool
  pub block_number : ℕ
  pub tx_hash : Text
  pub log_index : ℕ
  pub created_at : ℕ

pub record IntentInput : Type 0 where
  pub intent_hash : Text
  pub owner : Text
  pub manifest_uri : Text
  pub block_number : ℕ
  pub tx_hash : Text
  pub log_index : ℕ

unfoldable pub intent_row : ℕ → IntentInput → IntentRow
intent_row now i = record {
  intent_hash = to_lower i.intent_hash;
  owner = to_lower i.owner;
  manifest_uri = i.manifest_uri;
  active = true;
  block_number = i.block_number;
  tx_hash = to_lower i.tx_hash;
  log_index = i.log_index;
  created_at = now;
}

abbrev pub is_active_of : Text → IntentRow → Bool
is_active_of key r = text_eq r.owner key && r.active

abbrev deactivate : IntentRow → IntentRow
deactivate r = record r { active = false }

abbrev pub same_log : IntentRow → IntentRow → Bool
same_log row r = text_eq r.tx_hash row.tx_hash && r.log_index == row.log_index

abbrev pub same_hash : IntentRow → IntentRow → Bool
same_hash row r = text_eq r.intent_hash row.intent_hash

unfoldable pub mark_intent_revoked : Text → List IntentRow → List IntentRow
mark_intent_revoked owner table = update (is_active_of (to_lower owner)) deactivate table

-- SQLite checks the ON CONFLICT target first, then the primary key, whose violation rolls the
-- transaction back. The Supabase upsert ignores a duplicate of the primary key, and its error on
-- the other constraint is not read; its first statement stands in any case.
unfoldable pub insert_intent_committed :
    Provider → ℕ → IntentInput → List IntentRow → Result (List IntentRow)
insert_intent_committed sqlite now i table =
    let row = intent_row now i in
    let cleared = update (is_active_of row.owner) deactivate table in
    if any (same_log row) cleared
    then ok cleared
    else if any (same_hash row) cleared
    then err constraint
    else ok (cleared ++ row ∷ [])
insert_intent_committed supabase now i table =
    let row = intent_row now i in
    let cleared = update (is_active_of row.owner) deactivate table in
    if any (same_hash row) cleared || any (same_log row) cleared
    then ok cleared
    else ok (cleared ++ row ∷ [])

-- ORDER BY block_number DESC
newer_intent : IntentRow → IntentRow → Bool
newer_intent a b = ltb b.block_number a.block_number

unfoldable pub get_active_intent : Text → List IntentRow → Option IntentRow
unfolding newer_intent
get_active_intent owner table =
    first (order_by newer_intent (select (is_active_of (to_lower owner)) table))

unfoldable pub list_intents_by_owner : Text → ℕ → List IntentRow → List IntentRow
unfolding newer_intent
list_intents_by_owner owner limit table =
    take limit (order_by newer_intent (select (λ r. text_eq r.owner (to_lower owner)) table))
