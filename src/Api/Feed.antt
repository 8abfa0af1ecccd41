-- ===== src/Api/Feed.antt =====
-- services/infra/src/api/feed.ts: the read model of an owner's activity.
pub mod Laws
use inspect_element.Prelude.{
  ℕ, ◌+◌, Bool, true, false, not, ◌&&◌, ◌||◌, Option, none, some, List, [], ◌∷◌, ◌++◌, map, ltb,
  leb, if◌then◌else◌, take,
}
use inspect_element.Prelude.Texts.{Text, codes, is_hex, is_decimal, text_eq, to_decimal, to_lower}
use inspect_element.Prelude.Results.{Result, ok, err, bad_request, not_found}
use inspect_element.Prelude.Tables.{find, order_by}
use inspect_element.Store.Receipts.{ReceiptRow, get_receipt, list_receipts_by_owner}
use inspect_element.Store.Manifests.{get_manifest_by_hash}
use inspect_element.Store.Challenges.{
  ChallengeRow, ChallengeStatus, find_challenge_by_receipt, list_challenges_by_owner,
}
use inspect_element.Store.Intents.{IntentRow, list_intents_by_owner}
use inspect_element.Store.Blocked.{BlockedRow, BlockedTable, list_blocked_by_owner}
use inspect_element.Api.Prepare.{ReadModel, Deployment, stands}

-- `deployment?.constants?.challengeWindowSec ?? 72 * 60 * 60`
abbrev pub window_of : Option Deployment → ℕ
window_of none = 259200
window_of (some d) = d.challenge_window_sec

-- `getOverspendInfo`, its `overspend`.
unfoldable pub overspend : ReadModel → Text → ℕ → Bool
overspend db intent_hash amount = elim (get_manifest_by_hash intent_hash db.manifests) [
  | none ↦ false
  | some m ↦ ltb m.max_spend_per_tx amount
]

unfoldable pub is_challengeable : Option Deployment → ℕ → ReadModel → ReceiptRow → Bool
unfolding overspend
is_challengeable deployment now_sec db r =
    overspend db r.intent_hash r.amount
    && (not (stands (find_challenge_by_receipt r.receipt_id db.challenges))
        && ltb now_sec (r.ts + window_of deployment))

pub record ReceiptDetail : Type 0 where
  pub receipt_id : Text
  pub owner : Text
  pub agent_id : Text
  pub intent_hash : Text
  pub target : Text
  pub token : Text
  pub amount : Text
  pub context_digest : Text
  pub trace_uri : Option Text
  pub call_data_hash : Text
  pub nonce : Text
  pub timestamp : ℕ
  pub block_number : ℕ
  pub tx_hash : Text
  pub challengeable : Bool
  pub challenge_window_ends_at : ℕ
  pub challenge_filed : Bool

unfoldable pub get_receipt_detail : Option Deployment → ℕ → ReadModel → Text → Result ReceiptDetail
get_receipt_detail deployment now_sec db receipt_id =
    if not (is_hex 64 receipt_id)
    then err bad_request
    else elim (get_receipt receipt_id db.receipts) [
      | none ↦ err not_found
      | some r ↦ ok (record {
        receipt_id = r.receipt_id;
        owner = r.owner;
        agent_id = r.agent_id;
        intent_hash = r.intent_hash;
        target = r.target;
        token = r.token;
        amount = to_decimal r.amount;
        context_digest = r.context_digest;
        trace_uri = r.trace_uri;
        call_data_hash = r.call_data_hash;
        nonce = to_decimal r.nonce;
        timestamp = r.ts;
        block_number = r.block_number;
        tx_hash = r.tx_hash;
        challengeable = is_challengeable deployment now_sec db r;
        challenge_window_ends_at = r.ts + window_of deployment;
        challenge_filed = stands (find_challenge_by_receipt r.receipt_id db.challenges);
      })
    ]

-- The row itself is the detail; its id and payout are printed in decimal. The column is text: the
-- parameter has to be the text that was stored.
unfoldable pub get_challenge_detail : ReadModel → Text → Result ChallengeRow
get_challenge_detail db challenge_id =
    if not (is_decimal challenge_id)
    then err bad_request
    else elim (find (λ c. text_eq (to_decimal c.challenge_id) challenge_id) db.challenges) [
      | none ↦ err not_found
      | some c ↦ ok c
    ]

-- An entry with the row that it shows, and for a receipt its two computed fields.
pub data FeedEntry : Type 0 where
  receipt_entry : ReceiptRow → Bool → ℕ → FeedEntry
  challenge_entry : ChallengeRow → FeedEntry
  intent_entry : IntentRow → FeedEntry
  blocked_entry : BlockedRow → FeedEntry

abbrev pub or_else : Option ℕ → ℕ → ℕ
or_else none d = d
or_else (some n) d = n

unfoldable pub timestamp : FeedEntry → ℕ
timestamp (receipt_entry r challengeable ends) = r.ts
timestamp (challenge_entry c) = or_else c.resolved_at c.filed_at
timestamp (intent_entry i) = i.created_at
timestamp (blocked_entry b) = b.created_at

unfoldable pub entry_id : FeedEntry → Text
entry_id (receipt_entry r challengeable ends) = codes "receipt:" ++ r.receipt_id
entry_id (challenge_entry c) = codes "challenge:" ++ to_decimal c.challenge_id
entry_id (intent_entry i) = codes "intent:" ++ i.intent_hash
entry_id (blocked_entry b) = codes "blocked:" ++ to_decimal b.id

-- `(a, b) => b.timestamp - a.timestamp` puts `a` in front of `b`.
abbrev pub newer_entry : FeedEntry → FeedEntry → Bool
newer_entry a b = ltb (timestamp b) (timestamp a)

module _ (deployment : Option Deployment) (now_sec : ℕ) (db : ReadModel) (intents : List IntentRow)
    (blocked : BlockedTable) where
  abbrev pub show_receipt : ReceiptRow → FeedEntry
  show_receipt r =
      receipt_entry r (is_challengeable deployment now_sec db r) (r.ts + window_of deployment)

  unfoldable pub feed_entries : Text → ℕ → List FeedEntry
  feed_entries owner limit =
      map show_receipt (list_receipts_by_owner owner limit db.receipts)
      ++ map challenge_entry (list_challenges_by_owner owner limit db.receipts db.challenges)
      ++ map intent_entry (list_intents_by_owner owner limit intents)
      ++ map blocked_entry (list_blocked_by_owner (some owner) limit blocked)

  -- The limit that the query does not give is 100.
  unfoldable pub get_feed : Text → Option ℕ → Result (List FeedEntry)
  unfolding feed_entries
  get_feed owner limit =
      let n = or_else limit 100 in
      if not (is_hex 40 owner && (leb 1 n && leb n 500))
      then err bad_request
      else ok (take n (order_by newer_entry (feed_entries (to_lower owner) n)))
