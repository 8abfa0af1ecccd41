-- ===== src/Store/Challenges.antt =====
-- services/infra/src/store/challenges.ts: challenges against receipts, keyed by challenge id.
pub mod Laws
use inspect_element.Prelude.{
  ℕ, Bool, ◌&&◌, ◌||◌, Option, none, some, List, [], ◌∷◌, ltb, ◌==◌, if◌then◌else◌, take,
}
use inspect_element.Prelude.Texts.{Text, text_eq, to_lower}
use inspect_element.Prelude.Tables.{find, select, update, upsert, order_by, any}
use inspect_element.Store.Provider.{Provider, sqlite, supabase}
use inspect_element.Store.Receipts.{ReceiptRow}

pub data ChallengeStatus : Type 0 where
  filed upheld rejected : ChallengeStatus

-- The id is the decimal text of a uint256, which is the number.
pub record ChallengeRow : Type 0 where
  pub challenge_id : ℕ
  pub receipt_id : Text
  pub challenger : Text
  pub status : ChallengeStatus
  pub payout : Option ℕ
  pub filed_block : ℕ
  pub filed_tx : Text
  pub filed_at : ℕ
  pub resolved_block : Option ℕ
  pub resolved_tx : Option Text
  pub resolved_at : Option ℕ

pub record InsertChallengeInput : Type 0 where
  pub challenge_id : ℕ
  pub receipt_id : Text
  pub challenger : Text
  pub block_number : ℕ
  pub tx_hash : Text
  pub block_timestamp : ℕ

pub record ResolveChallengeInput : Type 0 where
  pub challenge_id : ℕ
  pub uphold : Bool
  pub payout : ℕ
  pub block_number : ℕ
  pub tx_hash : Text
  pub block_timestamp : ℕ

unfoldable pub challenge_row : InsertChallengeInput → ChallengeRow
challenge_row i = record {
  challenge_id = i.challenge_id;
  receipt_id = to_lower i.receipt_id;
  challenger = to_lower i.challenger;
  status = filed;
  payout = none;
  filed_block = i.block_number;
  filed_tx = to_lower i.tx_hash;
  filed_at = i.block_timestamp;
  resolved_block = none;
  resolved_tx = none;
  resolved_at = none;
}

-- The row after a conflict on `challenge_id`: the columns of `row` without `status` (SQLite), or
-- with it (Supabase).
unfoldable pub challenge_merge : Provider → ChallengeRow → ChallengeRow → ChallengeRow
challenge_merge sqlite row old = record old {
  receipt_id = row.receipt_id;
  challenger = row.challenger;
  filed_block = row.filed_block;
  filed_tx = row.filed_tx;
  filed_at = row.filed_at;
}
challenge_merge supabase row old = record old {
  challenge_id = row.challenge_id;
  receipt_id = row.receipt_id;
  challenger = row.challenger;
  status = row.status;
  filed_block = row.filed_block;
  filed_tx = row.filed_tx;
  filed_at = row.filed_at;
}

abbrev pub has_challenge_id : ℕ → ChallengeRow → Bool
has_challenge_id id c = c.challenge_id == id

unfoldable pub upsert_challenge_filed :
    Provider → InsertChallengeInput → List ChallengeRow → List ChallengeRow
upsert_challenge_filed provider i table =
    let row = challenge_row i in
    upsert (has_challenge_id row.challenge_id) (challenge_merge provider row) row table

unfoldable pub resolved_row : ResolveChallengeInput → ChallengeRow → ChallengeRow
resolved_row i c = record c {
  status = if i.uphold then upheld else rejected;
  payout = some i.payout;
  resolved_block = some i.block_number;
  resolved_tx = some (to_lower i.tx_hash);
  resolved_at = some i.block_timestamp;
}

unfoldable pub resolve_challenge : ResolveChallengeInput → List ChallengeRow → List ChallengeRow
resolve_challenge i table = update (has_challenge_id i.challenge_id) (resolved_row i) table

unfoldable pub get_challenge : ℕ → List ChallengeRow → Option ChallengeRow
get_challenge id table = find (has_challenge_id id) table

-- ORDER BY filed_block DESC, filed_at DESC
newer_challenge : ChallengeRow → ChallengeRow → Bool
newer_challenge a b =
    ltb b.filed_block a.filed_block || (a.filed_block == b.filed_block && ltb b.filed_at a.filed_at)

abbrev pub first {ℓ} : {A : Type ℓ} → List A → Option A
first [] = none
first (x ∷ xs) = some x

unfoldable pub find_challenge_by_receipt : Text → List ChallengeRow → Option ChallengeRow
unfolding newer_challenge
find_challenge_by_receipt receipt_id table =
    first
      (order_by newer_challenge (select (λ c. text_eq c.receipt_id (to_lower receipt_id)) table))

-- The join with `receipts` on the receipt id, which is its key.
unfoldable pub list_challenges_by_owner :
    Text → ℕ → List ReceiptRow → List ChallengeRow → List ChallengeRow
unfolding newer_challenge
list_challenges_by_owner owner limit receipts table = take limit (
    order_by newer_challenge (
      select
        (λ c.
          any
            (λ (r : ReceiptRow).
              text_eq r.receipt_id c.receipt_id && text_eq r.owner (to_lower owner))
            receipts)
        table))
