-- ===== src/Indexer/Cache.antt =====
-- The block timestamps that the poller keeps (`getBlockTimestamp` of
-- services/infra/src/indexer/poller.ts): a map in insertion order, the oldest entry leaving first.
pub mod Laws
use inspect_element.Prelude.{
  ℕ, Option, none, some, List, [], ◌∷◌, ◌++◌, ltb, ◌==◌, if◌then◌else◌, length,
}
use inspect_element.Prelude.Results.{Result, ok, err}

abbrev pub Cache : Type 0
Cache = List (ℕ × ℕ)

unfoldable pub cached : ℕ → Cache → Option ℕ
cached b [] = none
cached b ((k, t) ∷ c) = if k == b then some t else cached b c

abbrev pub cache_limit : ℕ
cache_limit = 1024

abbrev drop_first : Cache → Cache
drop_first [] = []
drop_first (e ∷ c) = c

-- `set` of a key that is not in the map, and the eviction.
unfoldable pub remember : ℕ → ℕ → Cache → Cache
remember b t c =
    let grown = c ++ (b, t) ∷ [] in
    if ltb cache_limit (length grown) then drop_first grown else grown

-- `fetch` is the RPC call for a block's timestamp, which may fail.
unfoldable pub get_block_timestamp : (ℕ → Result ℕ) → ℕ → Cache → Result (ℕ × Cache)
get_block_timestamp fetch b c = elim (cached b c) [
  | some t ↦ ok (t, c)
  | none ↦ elim (fetch b) [ err e ↦ err e | ok t ↦ ok (t, remember b t c) ]
]
