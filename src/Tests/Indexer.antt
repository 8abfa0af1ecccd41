-- ===== src/Tests/Indexer.antt =====
-- services/infra/src/indexer at a short chain: one log in block 3, and batches of two blocks.
use inspect_element.Prelude.{
  ℕ, zero, suc, ◌+◌, ◌-◌, ◌≤◌, ◌<◌, ◌≡◌, refl, sym, ap, ◌∙◌, Option, none, some, List, [], ◌∷◌,
  ◌++◌, arith, ◌==◌, if◌then◌else◌,
}
use inspect_element.Prelude.Texts.{codes}
use inspect_element.Prelude.Results.{Result, ◌>>=◌, ok, err, unavailable}
use inspect_element.Prelude.Tables.{upsert}
use inspect_element.Store.Provider.{sqlite}
use inspect_element.Store.Challenges.{challenge_row, upsert_challenge_filed}
use inspect_element.Indexer.Decoder.{
  Event, challenge_filed, Log, filed_event, Db, Handled, handle_log, apply_event,
}
use inspect_element.Indexer.Poller.{
  done, Ledger, handle_logs, StartBlocks, catch_up, resolve_start_block,
}
use inspect_element.Indexer.Poller.Laws.{catch_up_lem, catch_up_idle}
use inspect_element.Indexer.Cache.{cached, remember, get_block_timestamp}
use inspect_element.Indexer.Cache.Laws.{IsSound, get_block_timestamp-IsSound}

abbrev chain : ℕ → List (Log ℕ)
chain b =
    if b == 3
    then record {
      payload = 7;
      address = some (codes "0xab");
      block_number = some 3;
      transaction_hash = some (codes "0x01");
      log_index = some 0;
    }
      ∷ []
    else []

-- The logs of `n` blocks from `a` on.
logs_from : ℕ → ℕ → List (Log ℕ)
logs_from zero a = []
logs_from (suc n) a = chain a ++ logs_from n (a + 1)

logs_between : ℕ → ℕ → List (Log ℕ)
unfolding logs_from
logs_between a b = logs_from (suc b - a) a

append_assoc : (xs ys zs : List (Log ℕ)) → (xs ++ ys) ++ zs ≡ xs ++ (ys ++ zs)
append_assoc [] ys zs = refl
append_assoc (x ∷ xs) ys zs = ap (λ l. x ∷ l) (append_assoc xs ys zs)

logs_from-split : (m n a : ℕ) → logs_from (m + n) a ≡ logs_from m a ++ logs_from n (a + m)
unfolding logs_from
logs_from-split zero n a =
    let e : a + 0 ≡ a = omega arith in let e' : 0 + n ≡ n = omega arith in rw e' (rw e refl)
logs_from-split (suc m) n a =
    let e : suc m + n ≡ suc (m + n) = omega arith in
    let e' : a + suc m ≡ a + 1 + m = omega arith in
    rw e (
      rw e' (
        ap (λ l. chain a ++ l) (logs_from-split m n (a + 1))
        ∙ sym (append_assoc (chain a) (logs_from m (a + 1)) (logs_from n (a + 1 + m)))))

logs_between-split :
    (a b c : ℕ) → a ≤ b → b < c → logs_between a c ≡ logs_between a b ++ logs_between (b + 1) c
unfolding logs_between
logs_between-split a b c le lt =
    let whole : suc c - a ≡ (suc b - a) + (suc c - (b + 1)) = omega arith in
    let next : a + (suc b - a) ≡ b + 1 = omega arith in
    rw whole (logs_from-split (suc b - a) (suc c - (b + 1)) a ∙ rw next refl)

abbrev decode : ℕ → Option Event
decode n = some (challenge_filed n (codes "0xaa") (codes "0xbb"))

abbrev empty_db : Db
empty_db = record { receipts = []; challenges = []; intents = []; agents = []; delegates = [] }

abbrev no_ledger : Ledger
no_ledger = record { db = empty_db; events = [] }

abbrev filed_ledger : Ledger
filed_ledger = record {
  db = record empty_db {
    challenges =
        challenge_row (record {
          challenge_id = 7;
          receipt_id = codes "0xaa";
          challenger = codes "0xbb";
          block_number = 3;
          tx_hash = codes "0x01";
          block_timestamp = 300;
        })
        ∷ [];
  };
  events = filed_event 7 (codes "0xaa") (codes "0xbb") 300 ∷ [];
}

abbrev from_one : StartBlocks
from_one = record { env_start = none; deployment_start = some 1 }

abbrev handler : Log ℕ → Db → Result Handled
handler = handle_log decode (λ b. ok 300) sqlite 5

catch_up_example :
    catch_up handler
      (λ a b. some (logs_between a b))
      1
      from_one
      4
      5
      (record { ledger = no_ledger; last_block = none })
    ≡ done (record { ledger = filed_ledger; last_block = some 4 })
unfolding logs_between logs_from handle_logs handle_log apply_event upsert_challenge_filed upsert
    challenge_row resolve_start_block
catch_up_example =
    catch_up_lem handler (λ a b. some (logs_between a b)) logs_between (λ a b. refl)
      logs_between-split 1 from_one 4 5 (record { ledger = no_ledger; last_block = none })
      filed_ledger (omega arith) refl

catch_up_idle_example :
    catch_up handler
      (λ a b. some (logs_between a b))
      1
      from_one
      4
      5
      (record { ledger = filed_ledger; last_block = some 4 })
    ≡ done (record { ledger = filed_ledger; last_block = some 4 })
catch_up_idle_example =
    catch_up_idle handler (λ a b. some (logs_between a b)) 1 from_one 4 5
      (record { ledger = filed_ledger; last_block = some 4 }) refl (omega arith)

abbrev clock : ℕ → Result ℕ
clock b = if b == 0 then err unavailable else ok (b + 100)

one_entry : IsSound clock ((2, 102) ∷ [])
one_entry = record { true_times = (refl, tt); bounded = omega arith }

get_block_timestamp-IsSound_example :
    ((get_block_timestamp clock 3 ((2, 102) ∷ []) >>= (λ x. ok x.0)) ≡ ok 103)
    × IsSound clock ((2, 102) ∷ (3, 103) ∷ [])
unfolding get_block_timestamp cached remember
get_block_timestamp-IsSound_example = get_block_timestamp-IsSound clock 3 ((2, 102) ∷ []) one_entry

-- Block 0, whose time the node does not give, is not cached.
failure_is_not_cached : get_block_timestamp clock 0 ((2, 102) ∷ []) ≡ err unavailable
unfolding get_block_timestamp cached
failure_is_not_cached = refl
