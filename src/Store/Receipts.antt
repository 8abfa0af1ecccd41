-- ===== src/Store/Receipts.antt =====
-- services/infra/src/store/receipts.ts: receipts of guarded payments, keyed by receipt id.
-- uint256 columns hold decimal texts of bigints, read back by `BigInt`: they are numbers here.
pub mod Laws
use inspect_element.Prelude.{
  ℕ, Bool, ◌&&◌, ◌||◌, not, Option, none, some, List, ltb, ◌==◌, if◌then◌else◌, take,
}
use inspect_element.Prelude.Texts.{Text, text_eq, to_lower}
use inspect_element.Prelude.Results.{Result, ok}
use inspect_element.Prelude.Tables.{find, select, update, upsert, order_by, any}
use inspect_element.Store.Provider.{Provider, sqlite, supabase, refused}

pub record ReceiptRow : Type 0 where
  pub receipt_id : Text
  pub owner : Text
  pub agent_id : Text
  pub intent_hash : Text
  pub target : Text
  pub token : Text
  pub amount : ℕ
  pub call_data_hash : Text
  pub context_digest : Text
  pub nonce : ℕ
  pub ts : ℕ
  pub trace_uri : Option Text
  pub block_number : ℕ
  pub tx_hash : Text
  pub log_index : ℕ
  pub created_at : ℕ

pub record InsertReceiptInput : Type 0 where
  pub receipt_id : Text
  pub owner : Text
  pub agent_id : Text
  pub intent_hash : Text
  pub target : Text
  pub token : Text
  pub amount : ℕ
  pub call_data_hash : Text
  pub context_digest : Text
  pub nonce : ℕ
  pub ts : ℕ
  pub block_number : ℕ
  pub tx_hash : Text
  pub log_index : ℕ

-- The object `row` that both branches insert.
unfoldable pub receipt_row : ℕ → InsertReceiptInput → ReceiptRow
receipt_row now i = record {
  receipt_id = to_lower i.receipt_id;
  owner = to_lower i.owner;
  agent_id = to_lower i.agent_id;
  intent_hash = to_lower i.intent_hash;
  target = to_lower i.target;
  token = to_lower i.token;
  amount = i.amount;
  call_data_hash = to_lower i.call_data_hash;
  context_digest = to_lower i.context_digest;
  nonce = i.nonce;
  ts = i.ts;
  trace_uri = none;
  block_number = i.block_number;
  tx_hash = to_lower i.tx_hash;
  log_index = i.log_index;
  created_at = now;
}

-- The row after a conflict on `receipt_id`: SQLite's SET list leaves out `trace_uri` and
-- `created_at`, the Supabase upsert writes every column of `row`.
unfoldable pub receipt_merge : Provider → ReceiptRow → ReceiptRow → ReceiptRow
receipt_merge sqlite row old = record row { trace_uri = old.trace_uri; created_at = old.created_at }
receipt_merge supabase row old = record row { trace_uri = old.trace_uri }

abbrev pub has_receipt_id : Text → ReceiptRow → Bool
has_receipt_id key r = text_eq r.receipt_id key

-- UNIQUE(tx_hash, log_index), against another row
unfoldable pub receipt_clash : ReceiptRow → ReceiptRow → Bool
receipt_clash row r =
    not (text_eq r.receipt_id row.receipt_id)
    && (text_eq r.tx_hash row.tx_hash && r.log_index == row.log_index)

unfoldable pub upsert_receipt :
    Provider → ℕ → InsertReceiptInput → List ReceiptRow → Result (List ReceiptRow)
unfolding receipt_clash
upsert_receipt provider now i table =
    let row = receipt_row now i in
    if any (receipt_clash row) table
    then refused provider table
    else ok (upsert (has_receipt_id row.receipt_id) (receipt_merge provider row) row table)

abbrev set_uri : Text → ReceiptRow → ReceiptRow
set_uri uri r = record r { trace_uri = some uri }

unfoldable pub set_receipt_trace_uri : Text → Text → List ReceiptRow → List ReceiptRow
set_receipt_trace_uri receipt_id uri table =
    update (has_receipt_id (to_lower receipt_id)) (set_uri uri) table

unfoldable pub get_receipt : Text → List ReceiptRow → Option ReceiptRow
get_receipt receipt_id table = find (has_receipt_id (to_lower receipt_id)) table

-- ORDER BY block_number DESC, log_index DESC
newer_receipt : ReceiptRow → ReceiptRow → Bool
newer_receipt a b =
    ltb b.block_number a.block_number
    || (a.block_number == b.block_number && ltb b.log_index a.log_index)

unfoldable pub list_receipts_by_owner : Text → ℕ → List ReceiptRow → List ReceiptRow
unfolding newer_receipt
list_receipts_by_owner owner limit table =
    take limit (order_by newer_receipt (select (λ r. text_eq r.owner (to_lower owner)) table))
