-- ===== src/Tests/Store.antt =====
-- services/infra/src/store at small tables.
use inspect_element.Prelude.{◌≡◌, refl, true, none, some, List, [], ◌∷◌, arith}
use inspect_element.Prelude.Texts.{codes, to_lower, text_eq}
use inspect_element.Prelude.Results.{ok}
use inspect_element.Prelude.Tables.{any, update, upsert, find}
use inspect_element.Store.Provider.{sqlite, supabase}
use inspect_element.Store.Receipts.{
  ReceiptRow, InsertReceiptInput, receipt_row, receipt_merge, upsert_receipt, get_receipt,
}
use inspect_element.Store.Receipts.Laws.{seen, upsert_receipt_replay}
use inspect_element.Store.Challenges.{
  ChallengeRow, InsertChallengeInput, ResolveChallengeInput, filed, challenge_row, resolved_row,
  get_challenge,
}
use inspect_element.Store.Challenges.Laws.{
  was_filed, was_resolved, index_challenges, IsResolved, index_challenges-IsResolved,
  refiled_reopens,
}
use inspect_element.Store.Intents.{
  IntentRow, IntentInput, intent_row, insert_intent_committed, get_active_intent,
}
use inspect_element.Store.Intents.Laws.{
  active_count, HasOneActive, committed-HasOneActive, get_active-committed,
  recommitted_loses_intent,
}

abbrev payment : InsertReceiptInput
payment = record {
  receipt_id = codes "0xAB";
  owner = codes "0x01";
  agent_id = codes "0x02";
  intent_hash = codes "0x03";
  target = codes "0x04";
  token = codes "0x05";
  amount = 15;
  call_data_hash = codes "0x06";
  context_digest = codes "0x07";
  nonce = 1;
  ts = 100;
  block_number = 3;
  tx_hash = codes "0x08";
  log_index = 0;
}

-- The receipt as it was indexed at time 2, its trace URI joined to it since.
abbrev kept : ReceiptRow
kept = record (receipt_row 2 payment) { trace_uri = some (codes "ipfs://t") }

upsert_receipt_replay_example :
    (upsert_receipt sqlite 9 payment (kept ∷ []) ≡ ok (kept ∷ []))
    × ((r : ReceiptRow) × (get_receipt (codes "0xAB") (kept ∷ []) ≡ some r)
        × (seen r ≡ (some (codes "ipfs://t"), 2)))
unfolding upsert_receipt any upsert receipt_row receipt_merge text_eq to_lower get_receipt find
upsert_receipt_replay_example = upsert_receipt_replay 5 9 payment (kept ∷ []) (kept ∷ []) refl

abbrev filing : InsertChallengeInput
filing = record {
  challenge_id = 7;
  receipt_id = codes "0xAB";
  challenger = codes "0x09";
  block_number = 4;
  tx_hash = codes "0x0a";
  block_timestamp = 110;
}

abbrev ruling : ResolveChallengeInput
ruling = record {
  challenge_id = 7;
  uphold = true;
  payout = 30;
  block_number = 5;
  tx_hash = codes "0x0b";
  block_timestamp = 120;
}

abbrev ruled : List ChallengeRow
ruled = resolved_row ruling (challenge_row filing) ∷ []

ruled-IsResolved : IsResolved 7 ruled
unfolding get_challenge find resolved_row challenge_row
ruled-IsResolved = (λ e. cc e, λ e. cc e)

index_challenges-IsResolved_example :
    IsResolved 7 (index_challenges sqlite (was_filed filing ∷ was_resolved ruling ∷ []) ruled)
index_challenges-IsResolved_example =
    index_challenges-IsResolved (was_filed filing ∷ was_resolved ruling ∷ []) 7 ruled
      ruled-IsResolved

refiled_reopens_example :
    (c : ChallengeRow) × (get_challenge 7 (
        index_challenges supabase
          (was_filed filing ∷ was_resolved ruling ∷ was_filed filing ∷ [])
          [])
      ≡ some c)
    × (c.status ≡ filed)
    × (c.payout ≡ some 30)
refiled_reopens_example = refiled_reopens filing ruling [] refl

abbrev commit : IntentInput
commit = record {
  intent_hash = codes "0x03";
  owner = codes "0x01";
  manifest_uri = codes "ipfs://m";
  block_number = 2;
  tx_hash = codes "0x0c";
  log_index = 1;
}

one_commit : HasOneActive (intent_row 5 commit ∷ [])
unfolding active_count intent_row
one_commit key = ground arith

none_active : HasOneActive []
unfolding active_count
none_active key = omega arith

committed-HasOneActive_example : HasOneActive (intent_row 5 commit ∷ [])
unfolding insert_intent_committed any update
committed-HasOneActive_example =
    committed-HasOneActive sqlite 5 commit [] (intent_row 5 commit ∷ []) none_active refl

get_active-committed_example :
    (t' : List IntentRow) × (insert_intent_committed supabase 5 commit [] ≡ ok t')
    × (get_active_intent (codes "0x01") t' ≡ some (intent_row 5 commit))
unfolding any
get_active-committed_example = get_active-committed supabase 5 commit [] refl refl

recommitted_loses_intent_example :
    (t' : List IntentRow) × (insert_intent_committed sqlite 6 commit (intent_row 5 commit ∷ [])
      ≡ ok t')
    × (get_active_intent (codes "0x01") t' ≡ none)
unfolding any intent_row text_eq to_lower
recommitted_loses_intent_example =
    recommitted_loses_intent sqlite 6 commit (intent_row 5 commit ∷ []) refl
