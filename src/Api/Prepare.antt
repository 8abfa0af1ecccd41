-- ===== src/Api/Prepare.antt =====
-- services/infra/src/api/challenges-prepare.ts: may this receipt be challenged, and with which call.
use inspect_element.Prelude.{
  ℕ, ◌+◌, Bool, true, false, not, ◌&&◌, Option, none, some, List, ◌++◌, leb, if◌then◌else◌,
}
use inspect_element.Prelude.Texts.{Text, codes, is_hex}
use inspect_element.Prelude.Results.{Result, ok, err, bad_request, internal}
use inspect_element.Store.Receipts.{ReceiptRow, get_receipt}
use inspect_element.Store.Manifests.{ManifestRow, get_manifest_by_hash}
use inspect_element.Store.Challenges.{
  ChallengeRow, ChallengeStatus, filed, upheld, rejected, find_challenge_by_receipt,
}

-- What the handlers read of the tables.
pub record ReadModel : Type 0 where
  pub receipts : List ReceiptRow
  pub manifests : List ManifestRow
  pub challenges : List ChallengeRow

-- What the handlers read of `deployments/base-sepolia.json`.
pub record Deployment : Type 0 where
  pub challenge_window_sec : ℕ
  pub challenge_bond : Text
  pub challenge_arbiter : Text

pub record PrepareBody : Type 0 where
  pub receipt_id : Text
  pub challenger : Text

pub record PrepareAmountResponse : Type 0 where
  pub eligible : Bool
  pub reason : Option Text
  pub bond_amount : Text
  pub to : Option Text
  pub call_data : Option Text
  pub value : Text
  pub chain_id : ℕ

unfoldable pub prepare_ineligible : Text → Text → ℕ → PrepareAmountResponse
prepare_ineligible reason bond_amount chain_id = record {
  eligible = false;
  reason = some reason;
  bond_amount = bond_amount;
  to = none;
  call_data = none;
  value = codes "0";
  chain_id = chain_id;
}

-- `status.toLowerCase()`
abbrev status_word : ChallengeStatus → Text
status_word filed = codes "filed"
status_word upheld = codes "upheld"
status_word rejected = codes "rejected"

-- `status !== "REJECTED"`
abbrev pub standing : ChallengeStatus → Bool
standing filed = true
standing upheld = true
standing rejected = false

-- A challenge whose status is not REJECTED.
abbrev pub stands : Option ChallengeRow → Bool
stands none = false
stands (some c) = standing c.status

abbrev standing_word : Option ChallengeRow → Text
standing_word none = codes ""
standing_word (some c) = status_word c.status

-- `encode` is `encodeFunctionData` for `fileAmountViolation`.
unfoldable pub prepare_amount :
    (Text → Text)
    → Option Deployment
    → ℕ
    → ℕ
    → ReadModel
    → PrepareBody
    → Result PrepareAmountResponse
prepare_amount encode deployment chain_id now_sec db body =
    if not (is_hex 64 body.receipt_id && is_hex 40 body.challenger)
    then err bad_request
    else elim deployment [
      | none ↦ err internal
      | some d ↦ elim (get_receipt body.receipt_id db.receipts) [
        | none ↦ ok (prepare_ineligible (codes "receipt_not_found") d.challenge_bond chain_id)
        | some r ↦
            if leb (r.ts + d.challenge_window_sec) now_sec
            then ok (prepare_ineligible (codes "challenge_window_closed") d.challenge_bond chain_id)
            else elim (get_manifest_by_hash r.intent_hash db.manifests) [
              | none ↦
                  ok (prepare_ineligible (codes "manifest_not_indexed") d.challenge_bond chain_id)
              | some m ↦
                  if leb r.amount m.max_spend_per_tx
                  then ok (prepare_ineligible (codes "not_overspend") d.challenge_bond chain_id)
                  else let existing = find_challenge_by_receipt r.receipt_id db.challenges in
                    if stands existing
                    then ok (
                        prepare_ineligible (codes "challenge_already_" ++ standing_word existing)
                          d.challenge_bond chain_id)
                    else ok (record {
                      eligible = true;
                      reason = none;
                      bond_amount = d.challenge_bond;
                      to = some d.challenge_arbiter;
                      call_data = some (encode r.receipt_id);
                      value = codes "0";
                      chain_id = chain_id;
                    })
            ]
      ]
    ]
