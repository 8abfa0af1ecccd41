-- ===== src/Store/Challenges/Laws.antt =====
-- About services/infra/src/store/challenges.ts: reads after writes, and sequences of logs.
use inspect_element.Prelude.{
  ℕ, ◌≡◌, ◌≢◌, refl, Bool, true, false, Option, none, some, List, [], ◌∷◌, arith, ◌==◌,
  if◌then◌else◌, Bool-cases, inl, inr,
}
use inspect_element.Prelude.Tables.{
  find-upsert_self, find-upsert_ne, upserted, map_option, find-update_self, find-update_ne,
}
use inspect_element.Store.Provider.{Provider, sqlite, supabase}
use inspect_element.Store.Challenges.{
  filed, ChallengeRow, InsertChallengeInput, ResolveChallengeInput, challenge_row, challenge_merge,
  has_challenge_id, upsert_challenge_filed, resolved_row, resolve_challenge, get_challenge,
}

merge_keeps :
    (provider : Provider) (i : InsertChallengeInput) (x : ChallengeRow)
    → has_challenge_id i.challenge_id x ≡ true
    → has_challenge_id i.challenge_id (challenge_merge provider (challenge_row i) x) ≡ true
unfolding challenge_merge challenge_row
merge_keeps sqlite i x h = h
merge_keeps supabase i x h = ground arith

merge_apart :
    (provider : Provider) (i : InsertChallengeInput) (id : ℕ) (x : ChallengeRow)
    → i.challenge_id ≢ id
    → has_challenge_id i.challenge_id x ≡ true
    → (has_challenge_id id x ≡ false)
      × (has_challenge_id id (challenge_merge provider (challenge_row i) x) ≡ false)
unfolding challenge_merge challenge_row
merge_apart sqlite i id x ne h = ground arith
merge_apart supabase i id x ne h = ground arith

-- The read of a challenge after a ChallengeFiled log, for every id: the challenge of the log is
-- merged into the row that was there, or new; all others are as before.
get-upsert_filed :
    (provider : Provider) (i : InsertChallengeInput) (id : ℕ) (t : List ChallengeRow)
    → get_challenge id (upsert_challenge_filed provider i t) ≡ (
        if i.challenge_id == id
        then some (
            upserted
              (challenge_merge provider (challenge_row i))
              (challenge_row i)
              (get_challenge id t))
        else get_challenge id t)
unfolding get_challenge upsert_challenge_filed challenge_row
get-upsert_filed provider i id t = elim (Bool-cases (i.challenge_id == id)) [
  | inl same ↦
      let e : i.challenge_id ≡ id = ground arith in
      rw same (
        rw (← e) (
          find-upsert_self (has_challenge_id i.challenge_id)
            (challenge_merge provider (challenge_row i)) (challenge_row i) (ground arith)
            (merge_keeps provider i) t))
  | inr other ↦
      let ne : i.challenge_id ≢ id = ground arith in
      rw other (
        find-upsert_ne (has_challenge_id i.challenge_id) (has_challenge_id id)
          (challenge_merge provider (challenge_row i)) (challenge_row i) other
          (λ x. merge_apart provider i id x ne) t)
]

-- The read after a ChallengeResolved log: the row of its id is resolved if there is one, all others
-- are as before, and a log for an unknown challenge changes nothing.
get-resolve :
    (i : ResolveChallengeInput) (id : ℕ) (t : List ChallengeRow)
    → get_challenge id (resolve_challenge i t) ≡ (
        if i.challenge_id == id
        then map_option (resolved_row i) (get_challenge id t)
        else get_challenge id t)
unfolding get_challenge resolve_challenge resolved_row
get-resolve i id t = elim (Bool-cases (i.challenge_id == id)) [
  | inl same ↦
      let e : i.challenge_id ≡ id = ground arith in
      rw same (
        rw (← e) (
          find-update_self (has_challenge_id i.challenge_id) (has_challenge_id i.challenge_id)
            (resolved_row i) (λ x. refl) t))
  | inr other ↦
      let ne : i.challenge_id ≢ id = ground arith in
      rw other (
        find-update_ne (has_challenge_id i.challenge_id) (has_challenge_id id) (resolved_row i)
          (λ x h. (ground arith, ground arith)) t)
]

-- The logs of the arbiter contract, in the order in which they are indexed.
pub data ChallengeLog : Type 0 where
  was_filed : InsertChallengeInput → ChallengeLog
  was_resolved : ResolveChallengeInput → ChallengeLog

pub index_challenge : Provider → ChallengeLog → List ChallengeRow → List ChallengeRow
index_challenge provider (was_filed i) t = upsert_challenge_filed provider i t
index_challenge provider (was_resolved i) t = resolve_challenge i t

pub index_challenges : Provider → List ChallengeLog → List ChallengeRow → List ChallengeRow
index_challenges provider [] t = t
index_challenges provider (l ∷ ls) t = index_challenges provider ls (index_challenge provider l t)

-- A row that is there and not open any more.
abbrev pub Closed : Option ChallengeRow → Type 0
Closed none = ⊥
Closed (some c) = (c.status ≢ filed) × (c.payout ≢ none)

abbrev pub IsResolved : ℕ → List ChallengeRow → Type 0
IsResolved id t = Closed (get_challenge id t)

merge_Closed :
    (row : ChallengeRow) (o : Option ChallengeRow)
    → Closed o
    → Closed (some (upserted (challenge_merge sqlite row) row o))
unfolding challenge_merge
merge_Closed row none h = absurd h
merge_Closed row (some c) h = h

resolved_Closed :
    (i : ResolveChallengeInput) (o : Option ChallengeRow)
    → Closed o
    → Closed (map_option (resolved_row i) o)
unfolding resolved_row
resolved_Closed i none h = h
resolved_Closed i (some c) h = ground arith

if_Closed :
    (b : Bool) (o o' : Option ChallengeRow) → Closed o → Closed o' → Closed (if b then o else o')
if_Closed true o o' h h' = h
if_Closed false o o' h h' = h'

index_challenge-IsResolved :
    (l : ChallengeLog) (id : ℕ) (t : List ChallengeRow)
    → IsResolved id t
    → IsResolved id (index_challenge sqlite l t)
unfolding index_challenge
index_challenge-IsResolved (was_filed i) id t h =
    rw (get-upsert_filed sqlite i id t) (
      if_Closed (i.challenge_id == id) _ _ (merge_Closed (challenge_row i) (get_challenge id t) h)
        h)
index_challenge-IsResolved (was_resolved i) id t h =
    rw (get-resolve i id t)
      (if_Closed (i.challenge_id == id) _ _ (resolved_Closed i (get_challenge id t) h) h)

-- Under SQLite a resolved challenge stays resolved, with a payout, whatever logs are indexed after
-- it, its own ChallengeFiled log included.
pub index_challenges-IsResolved :
    (ls : List ChallengeLog) (id : ℕ) (t : List ChallengeRow)
    → IsResolved id t
    → IsResolved id (index_challenges sqlite ls t)
unfolding index_challenges
index_challenges-IsResolved [] id t h = h
index_challenges-IsResolved (l ∷ ls) id t h =
    index_challenges-IsResolved ls id (index_challenge sqlite l t)
      (index_challenge-IsResolved l id t h)

-- Under Supabase a ChallengeFiled log that is indexed again after the resolution opens the
-- challenge once more: its row says FILED and still holds the payout of the resolution.
pub refiled_reopens :
    (i : InsertChallengeInput) (r : ResolveChallengeInput) (t : List ChallengeRow)
    → r.challenge_id ≡ i.challenge_id
    → (c : ChallengeRow) × (get_challenge i.challenge_id
          (index_challenges supabase (was_filed i ∷ was_resolved r ∷ was_filed i ∷ []) t)
        ≡ some c)
      × (c.status ≡ filed)
      × (c.payout ≡ some r.payout)
unfolding index_challenges index_challenge
refiled_reopens i r t same = (
  challenge_merge supabase (challenge_row i) (
      resolved_row r (
        upserted (challenge_merge supabase (challenge_row i)) (challenge_row i)
          (get_challenge i.challenge_id t))),
  simp (get-upsert_filed, get-resolve, same) (ground arith),
  unfold challenge_merge challenge_row in refl,
  unfold challenge_merge resolved_row in refl,
)
