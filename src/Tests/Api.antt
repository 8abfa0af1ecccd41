-- ===== src/Tests/Api.antt =====
-- services/infra/src/api at a payment over the cap of its intent.
use inspect_element.Prelude.{
  ℕ, zero, suc, Bool, ◌||◌, ◌≤◌, ◌<◌, ◌≡◌, ◌↔◌, refl, true, false, none, some, [], ◌∷◌, length,
  arith,
}
use inspect_element.Prelude.Texts.{Text, codes, is_hex, text_eq, to_lower, to_decimal}
use inspect_element.Prelude.Results.{ok, err, ◌>>=◌, internal, not_found}
use inspect_element.Prelude.Tables.{any, find, order_by, select}
use inspect_element.Prelude.Sorting.{Descending}
use inspect_element.Store.Provider.{sqlite, supabase}
use inspect_element.Store.Receipts.{ReceiptRow, get_receipt, list_receipts_by_owner}
use inspect_element.Store.Manifests.{ManifestRow, get_manifest_by_hash}
use inspect_element.Store.Challenges.{find_challenge_by_receipt, list_challenges_by_owner}
use inspect_element.Store.Blocked.{BlockedTable, list_blocked_by_owner}
use inspect_element.Store.Intents.{list_intents_by_owner}
use inspect_element.Prelude.Integers.{big_int, int_text}
use inspect_element.Store.Executions.{ExecutionRow, get_execution, pending, allowed, blocked}
use inspect_element.Canonical.Value.{string}
use inspect_element.Api.Prepare.{ReadModel, Deployment, PrepareBody, prepare_amount}
use inspect_element.Api.Feed.{
  FeedEntry, challenge_entry, intent_entry, blocked_entry, show_receipt, get_receipt_detail,
  get_feed, timestamp, feed_entries, is_challengeable, overspend, receipt_entry,
}
use inspect_element.Api.Feed.Laws.{
  prepare_amount-get_receipt_detail, prepare_amount-eligible, get_feed-Descending,
  get_feed_complete, IsRejectedOrNone,
}
use inspect_element.Api.Executions.{
  ExecutionBody, ScreenOutput, HardMode, ExecutionResponse, Executions, Reply, submit, preflight,
  accepts, to_canonical_json, run_deterministic_checks, amount_reasons, target_reasons,
  expiry_reasons, settle, hard_mode_block, get_execution_status,
}
use inspect_element.Api.Executions.Laws.{
  verdict, submit-preflight, submit-IsRecorded, submit_leaves_pending, IsRecorded,
}

abbrev pub repeat : ℕ → ℕ → Text
repeat zero c = []
repeat (suc n) c = c ∷ repeat n c

-- `0x` and the digit `n` times.
abbrev pub hex : ℕ → ℕ → Text
hex n c = b'0' ∷ b'x' ∷ repeat n c

abbrev spent : ReceiptRow
spent = record {
  receipt_id = hex 64 b'a';
  owner = hex 40 b'1';
  agent_id = hex 64 b'2';
  intent_hash = hex 64 b'3';
  target = hex 40 b'4';
  token = hex 40 b'5';
  amount = 15;
  call_data_hash = hex 64 b'6';
  context_digest = hex 64 b'7';
  nonce = 1;
  ts = 100;
  trace_uri = none;
  block_number = 3;
  tx_hash = hex 64 b'8';
  log_index = 0;
  created_at = 101;
}

abbrev pinned : ManifestRow
pinned = record {
  intent_hash = hex 64 b'3';
  manifest_uri = codes "ipfs://m";
  manifest_json = codes "{}";
  owner = hex 40 b'1';
  token = hex 40 b'5';
  max_spend_per_tx = 10;
  max_spend_per_day = 50;
  expiry = 1000;
  nonce = 1;
  allowed_counterparties = hex 40 b'4' ∷ [];
  created_at = 90;
}

abbrev tables : ReadModel
tables = record { receipts = spent ∷ []; manifests = pinned ∷ []; challenges = [] }

abbrev deployed : Deployment
deployed = record {
  challenge_window_sec = 60;
  challenge_bond = codes "1000000";
  challenge_arbiter = hex 40 b'9';
}

abbrev asked : PrepareBody
asked = record { receipt_id = hex 64 b'a'; challenger = hex 40 b'c' }

abbrev encode_call : Text → Text
encode_call id = codes "0xfeed"

prepare_amount-get_receipt_detail_example :
    (prepare_amount encode_call (some deployed) 84532 120 tables asked >>= (λ x. ok x.eligible))
    ≡ (get_receipt_detail (some deployed) 120 tables (hex 64 b'a') >>= (λ x. ok x.challengeable))
unfolding is_hex get_receipt find to_lower text_eq
prepare_amount-get_receipt_detail_example =
    prepare_amount-get_receipt_detail encode_call deployed 84532 120 tables asked spent refl refl
      refl

prepare_amount-eligible_example :
    ((prepare_amount encode_call (some deployed) 84532 120 tables asked >>= (λ x. ok x.eligible))
      ≡ ok true)
    ↔ (((m : ManifestRow) × (get_manifest_by_hash (hex 64 b'3') (pinned ∷ []) ≡ some m)
          × (m.max_spend_per_tx < 15))
        × ((120 < 160) × IsRejectedOrNone (find_challenge_by_receipt (hex 64 b'a') [])))
unfolding is_hex get_receipt find to_lower text_eq
prepare_amount-eligible_example =
    prepare_amount-eligible encode_call deployed 84532 120 tables asked spent refl refl refl

abbrev no_blocked : BlockedTable
no_blocked = record { rows = []; next_id = 1 }

get_feed-Descending_example :
    Descending timestamp (receipt_entry spent true 160 ∷ [])
    × (length (receipt_entry spent true 160 ∷ []) ≤ 5)
unfolding get_feed feed_entries is_hex order_by list_receipts_by_owner select text_eq to_lower
    list_challenges_by_owner list_intents_by_owner list_blocked_by_owner is_challengeable
    get_manifest_by_hash find find_challenge_by_receipt overspend
get_feed-Descending_example =
    get_feed-Descending (some deployed) 120 tables [] no_blocked (hex 40 b'1') (some 5)
      (receipt_entry spent true 160 ∷ []) refl

abbrev is_receipt : FeedEntry → Bool
is_receipt (receipt_entry r challengeable ends) = true
is_receipt e = false

get_feed_complete_example : any is_receipt (receipt_entry spent true 160 ∷ []) ≡ (
    any
      (λ r. is_receipt (show_receipt (some deployed) 120 tables [] no_blocked r))
      (list_receipts_by_owner (to_lower (hex 40 b'1')) 5 (spent ∷ []))
    || any
        (λ c. is_receipt (challenge_entry c))
        (list_challenges_by_owner (to_lower (hex 40 b'1')) 5 (spent ∷ []) [])
    || any (λ i. is_receipt (intent_entry i)) (list_intents_by_owner (to_lower (hex 40 b'1')) 5 [])
    || any
        (λ b. is_receipt (blocked_entry b))
        (list_blocked_by_owner (some (to_lower (hex 40 b'1'))) 5 no_blocked))
unfolding get_feed feed_entries is_hex order_by list_receipts_by_owner select text_eq to_lower
    list_challenges_by_owner list_intents_by_owner list_blocked_by_owner is_challengeable
    get_manifest_by_hash find find_challenge_by_receipt overspend
get_feed_complete_example =
    get_feed_complete (some deployed) 120 tables [] no_blocked (hex 40 b'1') (some 5)
      (receipt_entry spent true 160 ∷ []) refl is_receipt (omega arith)

abbrev request : ExecutionBody
request = record {
  owner = hex 40 b'1';
  agent_id = hex 64 b'2';
  proposed_action = codes "pay";
  trace = string (codes "t");
  target = some (hex 40 b'4');
  token = none;
  amount = some (codes "15");
  intent_hash = some (hex 64 b'3');
}

abbrev screened : ScreenOutput
screened = record {
  injection_score = 3;
  severity = codes "low";
  signals = [];
  explanation = codes "";
  recommended_action = codes "allow";
}

abbrev rehearsed : ScreenOutput
rehearsed = record screened { injection_score = 9 }

abbrev soft : HardMode
soft = record { enabled = false; threshold = 8 }

abbrev nothing_yet : Executions
nothing_yet = record { rows = []; events = [] }

abbrev keccak : Text → Text
keccak t = codes "0x"

abbrev show_score : ℕ → Text
show_score n = codes "0.3"

abbrev screen_json : ScreenOutput → Text
screen_json s = codes "{}"

abbrev submission : ExecutionBody → Reply
submission b =
    submit keccak (λ _. screened) show_score screen_json soft (pinned ∷ []) 120 sqlite (codes "u") b
      nothing_yet

submit-preflight_example : ((submission request).answer >>= verdict) ≡ (
    preflight keccak (λ _. rehearsed) show_score screen_json soft (pinned ∷ []) 120 sqlite request
    >>= verdict)
unfolding hard_mode_block
submit-preflight_example =
    submit-preflight keccak (λ _. screened) (λ _. rehearsed) show_score screen_json soft
      (pinned ∷ []) 120 sqlite (codes "u") request nothing_yet refl

abbrev strict : HardMode
strict = record { enabled = true; threshold = 8 }

-- In the hard mode two answers of the model on two sides of the threshold part the calls.
submit_differs :
    (((submit keccak
          (λ _. screened)
          show_score
          screen_json
          strict
          []
          120
          sqlite
          (codes "u")
          request
          nothing_yet).answer
        >>= verdict)
      ≡ ok (allowed, codes "0x"))
    × ((preflight keccak (λ _. rehearsed) show_score screen_json strict [] 120 sqlite request
          >>= verdict)
        ≡ ok (blocked, codes "0x"))
unfolding submit preflight settle accepts is_hex to_canonical_json run_deterministic_checks
    get_manifest_by_hash hard_mode_block find
submit_differs = (refl, refl)

-- Without the table of executions a submission is answered and leaves no row.
submit_unrecorded :
    get_execution_status supabase
      (codes "u")
      (submit keccak
        (λ _. screened)
        show_score
        screen_json
        soft
        (pinned ∷ [])
        120
        supabase
        (codes "u")
        request
        nothing_yet).after
    ≡ err not_found
unfolding get_execution_status get_execution
submit_unrecorded = refl

abbrev unreadable : ExecutionBody
unreadable = record request { amount = some (codes "1.5") }

submit_leaves_pending_example :
    ((submission unreadable).answer ≡ err internal)
    × ((e : ExecutionRow) × (get_execution sqlite (codes "u") (submission unreadable).after.rows
          ≡ some e)
        × (e.status ≡ pending))
    × ((submission unreadable).after.events ≡ [])
unfolding get_execution find accepts is_hex to_canonical_json run_deterministic_checks
    get_manifest_by_hash text_eq to_lower amount_reasons big_int
submit_leaves_pending_example =
    submit_leaves_pending keccak (λ _. screened) show_score screen_json soft (pinned ∷ []) 120
      (codes "u") (codes "t") unreadable nothing_yet internal refl refl refl refl

abbrev refusal : ExecutionResponse
refusal = record {
  execution_id = some (codes "u");
  status = blocked;
  block_reasons = codes "AMOUNT_EXCEEDS_CAP: 15 > 10 maxSpendPerTx" ∷ [];
  context_digest = codes "0x";
  advisory_screen = none;
}

submit-IsRecorded_example :
    IsRecorded keccak
      (λ _. screened)
      show_score
      screen_json
      soft
      (pinned ∷ [])
      120
      (codes "u")
      request
      []
      (submission request).after
      refusal
unfolding get_execution find accepts is_hex to_canonical_json run_deterministic_checks
    get_manifest_by_hash text_eq to_lower amount_reasons big_int int_text to_decimal target_reasons
    expiry_reasons any settle submit
submit-IsRecorded_example =
    submit-IsRecorded keccak (λ _. screened) show_score screen_json soft (pinned ∷ []) 120
      (codes "u") request nothing_yet refusal refl refl
