-- ===== src/Indexer/Cache/Laws.antt =====
-- About the timestamp cache of services/infra/src/indexer/poller.ts.
use inspect_element.Prelude.{
  ℕ, ◌+◌, ◌≤◌, ◌≡◌, refl, sym, none, some, [], ◌∷◌, ◌++◌, arith, ltb, length, length-append, All,
  All-append, Option-cases, Bool-cases, inl, inr,
}
use inspect_element.Prelude.Results.{Result, ok, err, ◌>>=◌}
use inspect_element.Indexer.Cache.{
  Cache, cached, cache_limit, drop_first, remember, get_block_timestamp,
}

module _ (fetch : ℕ → Result ℕ) where
  -- Every entry is what the RPC answers for its block, and there are at most 1024.
  pub record IsSound (c : Cache) : Type 0 where
    pub true_times : All (λ e. fetch e.0 ≡ ok e.1) c
    pub bounded : length c ≤ cache_limit

  cached_true :
      (b t : ℕ) (c : Cache) → All (λ e. fetch e.0 ≡ ok e.1) c → cached b c ≡ some t → fetch b ≡ ok t
  unfolding cached
  cached_true b t [] h e = cc
  cached_true b t ((k, s) ∷ c) h e = ground (arith, cached_true b t c h.1)

  drop_first-All :
      (c : Cache) → All (λ e. fetch e.0 ≡ ok e.1) c → All (λ e. fetch e.0 ≡ ok e.1) (drop_first c)
  drop_first-All [] h = h
  drop_first-All (e ∷ c) h = h.1

  shorter : (c : Cache) → length c ≤ cache_limit + 1 → length (drop_first c) ≤ cache_limit
  shorter [] h = omega arith
  shorter (e ∷ c) h = omega arith

  remember-IsSound : (b t : ℕ) (c : Cache) → IsSound c → fetch b ≡ ok t → IsSound (remember b t c)
  unfolding remember
  remember-IsSound b t c s e =
      let grown = c ++ (b, t) ∷ [] in
      let fits : length grown ≤ cache_limit + 1 =
        omega (arith, length-append {0} c ((b, t) ∷ []), s.bounded) in
      let all : All (λ e. fetch e.0 ≡ ok e.1) grown =
        All-append (λ e. fetch e.0 ≡ ok e.1) c ((b, t) ∷ []) s.true_times (e, tt) in
      elim (Bool-cases (ltb cache_limit (length grown))) [
        | inl full ↦
            rw full (record { true_times = drop_first-All grown all; bounded = shorter grown fits })
        | inr room ↦ rw room (record { true_times = all; bounded = ground arith })
      ]

  -- The cache that the poller is left with: a call that fails has not touched it.
  abbrev pub left : Cache → Result (ℕ × Cache) → Cache
  left c (err f) = c
  left c (ok (t, c')) = c'

  -- After a miss, for each answer of the RPC.
  fetched :
      (b : ℕ) (c : Cache) (r : Result ℕ)
      → fetch b ≡ r
      → IsSound c
      → cached b c ≡ none
      → ((get_block_timestamp fetch b c >>= (λ x. ok x.0)) ≡ r)
        × IsSound (left c (get_block_timestamp fetch b c))
  unfolding get_block_timestamp
  fetched b c (err f) h s miss = rw (miss, get_block_timestamp) (rw h (refl, s))
  fetched b c (ok t) h s miss =
      rw (miss, get_block_timestamp) (rw h (refl, remember-IsSound b t c s h))

  -- From a sound cache the answer, be it a time or a failure, is the one of the RPC, and the cache
  -- that is left is sound.
  pub get_block_timestamp-IsSound :
      (b : ℕ) (c : Cache)
      → IsSound c
      → ((get_block_timestamp fetch b c >>= (λ x. ok x.0)) ≡ fetch b)
        × IsSound (left c (get_block_timestamp fetch b c))
  unfolding get_block_timestamp
  get_block_timestamp-IsSound b c s = elim (Option-cases (cached b c)) [
    | inl miss ↦ fetched b c (fetch b) refl s miss
    | inr (t, hit) ↦ rw (hit, get_block_timestamp) (sym (cached_true b t c s.true_times hit), s)
  ]
