-- ===== src/Indexer/Poller.antt =====
-- services/infra/src/indexer/poller.ts: `catchUp`, `indexRange`, `resolveStartBlock` and
-- `reindexFromGenesis`. The meta value of the last block is the decimal text of a bigint: the number.
pub mod Laws
use inspect_element.Prelude.{
  ℕ, zero, suc, ◌+◌, ◌-◌, Bool, true, false, Option, none, some, List, [], ◌∷◌, ◌++◌, ltb,
  if◌then◌else◌,
}
use inspect_element.Prelude.Results.{Result, ok, err, Failure, unavailable}
use inspect_element.Indexer.Decoder.{Log, Db, SseEvent, Handled}

-- A run that ended, or that was stopped by an exception, with the state that it left.
pub data Run (S : Type 0) : Type 0 where
  done : S → Run S
  stopped : S → Failure → Run S

-- The tables, and the live events emitted so far.
pub record Ledger : Type 0 where
  pub db : Db
  pub events : List SseEvent

pub record PollerState : Type 0 where
  pub ledger : Ledger
  pub last_block : Option ℕ

module _ {Raw : Type 0} (handle : Log Raw → Db → Result Handled) where
  -- The loop over the logs of one batch.
  unfoldable pub handle_logs : List (Log Raw) → Ledger → Run Ledger
  handle_logs [] s = done s
  handle_logs (l ∷ ls) s = elim (handle l s.db) [
    | err e ↦ stopped s e
    | ok h ↦ handle_logs ls (record { db = h.db; events = s.events ++ h.emitted })
  ]

abbrev pub batch_end : ℕ → ℕ → ℕ → ℕ
batch_end batch cursor to = if ltb to (cursor + batch) then to else cursor + batch

module _ {Raw : Type 0} (handle : Log Raw → Db → Result Handled)
    (get_logs : ℕ → ℕ → Option (List (Log Raw))) (batch : ℕ) where
  -- The loop of `indexRange` on fuel; `get_logs` is the RPC call, `none` where it throws.
  unfoldable pub index_range : ℕ → ℕ → ℕ → PollerState → Run PollerState
  index_range zero cursor to s = done s
  index_range (suc fuel) cursor to s = elim (ltb to cursor) [
    | true ↦ done s
    | false ↦ elim (get_logs cursor (batch_end batch cursor to)) [
      | none ↦ stopped s unavailable
      | some logs ↦ elim (handle_logs handle logs s.ledger) [
        | stopped l e ↦ stopped (record s { ledger = l }) e
        | done l ↦
            index_range fuel (cursor + (batch + 1)) to
              (record { ledger = l; last_block = some (batch_end batch cursor to) })
      ]
    ]
  ]

-- INDEXER_START_BLOCK, and `startBlock` of the deployment manifest.
pub record StartBlocks : Type 0 where
  pub env_start : Option ℕ
  pub deployment_start : Option ℕ

-- Where no block is recorded: the configured start, or the head less a window.
abbrev default_start : StartBlocks → ℕ → ℕ
default_start c head = elim c.env_start [
  | some b ↦ b
  | none ↦ elim c.deployment_start [ some b ↦ b | none ↦ if ltb 1000 head then head - 1000 else 0 ]
]

unfoldable pub resolve_start_block : StartBlocks → ℕ → Option ℕ → ℕ
resolve_start_block c head none = default_start c head
resolve_start_block c head (some last) = if ltb 0 last then last + 1 else default_start c head

module _ {Raw : Type 0} (handle : Log Raw → Db → Result Handled)
    (get_logs : ℕ → ℕ → Option (List (Log Raw))) (batch : ℕ) (config : StartBlocks) where
  -- `getBlockNumber` answers `head`, and `later` when the start block asks it again. One batch for
  -- each block would be enough fuel.
  unfoldable pub catch_up : ℕ → ℕ → PollerState → Run PollerState
  catch_up head later s =
      let start = resolve_start_block config later s.last_block in
      index_range handle get_logs batch (suc (suc head - start)) start head s

  unfoldable pub reindex_from_genesis : ℕ → ℕ → PollerState → Run PollerState
  reindex_from_genesis head later s = catch_up head later (record s { last_block = some 0 })
