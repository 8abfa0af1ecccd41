-- ===== src/Indexer/Poller/Laws.antt =====
-- About services/infra/src/indexer/poller.ts: the walk in batches against one pass.
use inspect_element.Prelude.{
  ℕ, zero, suc, ◌+◌, ◌-◌, ◌≤◌, ◌<◌, ◌≡◌, refl, sym, ◌∙◌, subst, true, false, Option, some, List, [],
  ◌∷◌, ◌++◌, arith, ltb, ltb→lt, lt→ltb, Bool-cases, inl, inr,
}
use inspect_element.Prelude.Results.{Result, ok, err}
use inspect_element.Indexer.Decoder.{Log, Db, Handled}
use inspect_element.Indexer.Poller.{
  Run, done, stopped, Ledger, PollerState, handle_logs, batch_end, index_range, StartBlocks,
  resolve_start_block, catch_up,
}

abbrev continue : Run Ledger → (Ledger → Run Ledger) → Run Ledger
continue (done s) f = f s
continue (stopped s e) f = stopped s e

continue_done :
    (m : Run Ledger) (f : Ledger → Run Ledger) (l : Ledger)
    → continue m f ≡ done l
    → (mid : Ledger) × (m ≡ done mid) × (f mid ≡ done l)
continue_done (done s) f l e = (s, refl, e)
continue_done (stopped s x) f l e = cc

module _ {Raw : Type 0} (handle : Log Raw → Db → Result Handled) where
  -- The logs of one list after those of another.
  handle_logs-append :
      (xs ys : List (Log Raw)) (s : Ledger)
      → handle_logs handle (xs ++ ys) s ≡ continue (handle_logs handle xs s) (handle_logs handle ys)
  unfolding handle_logs
  handle_logs-append [] ys s = refl
  handle_logs-append (x ∷ xs) ys s =
      split (handle x s.db) refl (λ next. handle_logs-append xs ys next)
    where
      split :
          (r : Result Handled)
          → handle x s.db ≡ r
          → ((next : Ledger)
              → handle_logs handle (xs ++ ys) next
                ≡ continue (handle_logs handle xs next) (handle_logs handle ys))
          → handle_logs handle (x ∷ xs ++ ys) s
            ≡ continue (handle_logs handle (x ∷ xs) s) (handle_logs handle ys)
      split (err f) h ih = rw (h, handle_logs) refl
      split (ok r) h ih =
          rw (h, handle_logs) (ih (record { db = r.db; events = s.events ++ r.emitted }))

module _ {Raw : Type 0} (handle : Log Raw → Db → Result Handled)
    (get_logs : ℕ → ℕ → Option (List (Log Raw))) (batch : ℕ) where
  range_done :
      (fuel cursor to : ℕ) (s : PollerState)
      → to < cursor
      → index_range handle get_logs batch fuel cursor to s ≡ done s
  unfolding index_range
  range_done zero cursor to s h = refl
  range_done (suc fuel) cursor to s h = ground arith

  module _ (config : StartBlocks) where
    -- Where the head is already recorded, and is not block 0, catching up changes nothing.
    pub catch_up_idle :
        (head later : ℕ) (s : PollerState)
        → s.last_block ≡ some head
        → 0 < head
        → catch_up handle get_logs batch config head later s ≡ done s
    unfolding catch_up resolve_start_block
    catch_up_idle head later s e pos =
        let start : resolve_start_block config later s.last_block ≡ head + 1 =
          rw e (rw (lt→ltb 0 head pos)) in
        range_done (suc (suc head - resolve_start_block config later s.last_block)) _ head s
          (omega arith)

module _ {Raw : Type 0} (handle : Log Raw → Db → Result Handled)
    (get_logs : ℕ → ℕ → Option (List (Log Raw))) (logs_of : ℕ → ℕ → List (Log Raw))
    (answers : (a b : ℕ) → get_logs a b ≡ some (logs_of a b))
    (splits : (a b c : ℕ) → a ≤ b → b < c → logs_of a c ≡ logs_of a b ++ logs_of (b + 1) c)
    (batch : ℕ) where
  -- One round of the loop.
  range_step :
      (fuel cursor to : ℕ) (s : PollerState) (m : Ledger)
      → cursor ≤ to
      → handle_logs handle (logs_of cursor (batch_end batch cursor to)) s.ledger ≡ done m
      → index_range handle get_logs batch (suc fuel) cursor to s
        ≡ index_range handle get_logs batch fuel
            (cursor + (batch + 1))
            to
            (record { ledger = m; last_block = some (batch_end batch cursor to) })
  unfolding index_range
  range_step fuel cursor to s m le e =
      let inside : ltb to cursor ≡ false = ground arith in
      rw (inside, index_range) (rw (answers cursor (batch_end batch cursor to)) (rw e refl))

  -- The rounds together, and the block recorded at the end.
  whole_range :
      (fuel cursor to : ℕ) (s : PollerState) (l : Ledger)
      → to - cursor < fuel
      → cursor ≤ to
      → handle_logs handle (logs_of cursor to) s.ledger ≡ done l
      → index_range handle get_logs batch fuel cursor to s
        ≡ done (record { ledger = l; last_block = some to })
  whole_range zero cursor to s l fuel_ok le e = absurd (omega arith)
  whole_range (suc fuel) cursor to s l fuel_ok le e = elim (Bool-cases (ltb (cursor + batch) to)) [
    | inl more ↦
        let inside : cursor + batch < to = ltb→lt _ _ more in
        let next : cursor + batch + 1 ≡ cursor + (batch + 1) = omega arith in
        let cut : handle_logs handle
              (logs_of cursor (cursor + batch) ++ logs_of (cursor + (batch + 1)) to) s.ledger
            ≡ done l =
          subst
            (λ n.
              handle_logs handle (logs_of cursor (cursor + batch) ++ logs_of n to) s.ledger
              ≡ done l)
            next
            (subst (λ ls. handle_logs handle ls s.ledger ≡ done l)
              (splits cursor (cursor + batch) to (omega arith) inside) e) in
        first_batch fuel cursor to s l more le
          (λ s' here.
            whole_range fuel (cursor + (batch + 1)) to s' l (omega arith) (omega arith) here)
          (continue_done _ _ l (sym (handle_logs-append handle _ _ s.ledger) ∙ cut))
    | inr last ↦
        let upper : batch_end batch cursor to ≡ to = ground arith in
        range_step fuel cursor to s l le (rw upper e)
        ∙ range_done handle get_logs batch fuel (cursor + (batch + 1)) to _ (ground arith)
        ∙ rw upper
  ]
    where
      first_batch :
          (fuel cursor to : ℕ) (s : PollerState) (l : Ledger)
          → ltb (cursor + batch) to ≡ true
          → cursor ≤ to
          → ((s' : PollerState)
              → handle_logs handle (logs_of (cursor + (batch + 1)) to) s'.ledger ≡ done l
              → index_range handle get_logs batch fuel (cursor + (batch + 1)) to s'
                ≡ done (record { ledger = l; last_block = some to }))
          → ((mid : Ledger) × (handle_logs handle (logs_of cursor (cursor + batch)) s.ledger
                ≡ done mid)
              × (handle_logs handle (logs_of (cursor + (batch + 1)) to) mid ≡ done l))
          → index_range handle get_logs batch (suc fuel) cursor to s
            ≡ done (record { ledger = l; last_block = some to })
      first_batch fuel cursor to s l more le rest (mid, front, back) =
          let upper : batch_end batch cursor to ≡ cursor + batch = ground arith in
          range_step fuel cursor to s mid le (rw upper front)
          ∙ rest (record { ledger = mid; last_block = some (batch_end batch cursor to) }) back

  module _ (config : StartBlocks) where
    -- If the RPC answers every range, and its answer for a range is those for the two parts of the
    -- range in a row, then catching up in batches of any size, from a start that is not past the
    -- head, ends like one pass over all the logs up to the head if that pass succeeds: with the same
    -- tables and live events, and with the head recorded as the last block.
    pub catch_up_lem :
        (head later : ℕ) (s : PollerState) (l : Ledger)
        → resolve_start_block config later s.last_block ≤ head
        → handle_logs handle (logs_of (resolve_start_block config later s.last_block) head) s.ledger
          ≡ done l
        → catch_up handle get_logs batch config head later s
          ≡ done (record { ledger = l; last_block = some head })
    unfolding catch_up
    catch_up_lem head later s l le e =
        whole_range (suc (suc head - resolve_start_block config later s.last_block)) _ head s l
          (omega arith) le e
