-- ===== src/Indexer/DemoStatus/Laws.antt =====
-- About services/infra/src/indexer/demo-status.ts: repeated polls.
use inspect_element.Prelude.{
  ℕ, ◌≡◌, refl, sym, ◌∙◌, subst, Bool, true, false, some, List, [], ◌∷◌, ◌++◌, arith, Bool-cases,
  Option-cases, inl, inr,
}
use inspect_element.Prelude.Texts.{Text, is_empty, text_eq_refl}
use inspect_element.Prelude.Results.{ok, split_bind}
use inspect_element.Prelude.Tables.{any}
use inspect_element.Store.Blocked.{
  BlockedTable, InsertBlockedInput, blocked_row, insert_blocked_attempt, blocked_attempt_exists,
}
use inspect_element.Indexer.DemoStatus.{LastRun, given, read_amount, record_blocked, poll}

any-append_last {ℓ} :
    {A : Type ℓ} (p : A → Bool) (xs : List A) (x : A) → p x ≡ true → any p (xs ++ x ∷ []) ≡ true
unfolding any
any-append_last p [] x h = ground (arith, h)
any-append_last p (y ∷ ys) x h = ground (arith, any-append_last p ys x h)

exists-insert :
    (now : ℕ) (i : InsertBlockedInput) (id : Text) (t : BlockedTable)
    → is_empty id ≡ false
    → i.scenario_id ≡ some id
    → blocked_attempt_exists id (insert_blocked_attempt now i t) ≡ true
unfolding blocked_attempt_exists insert_blocked_attempt blocked_row
exists-insert now i id t ne e = rw ne (any-append_last _ t.rows _ (rw e (text_eq_refl id)))

known_id :
    (now : ℕ) (id reason : Text) (last : LastRun) (t : BlockedTable)
    → blocked_attempt_exists id t ≡ true
    → record_blocked now id reason last t ≡ ok t
unfolding record_blocked
known_id now id reason last t h = rw h refl

ok_inj : {A : Type 0} {a b : A} → ok a ≡ ok b → a ≡ b
ok_inj h = cc

recorded-exists :
    (now : ℕ) (id reason : Text) (last : LastRun) (t t' : BlockedTable)
    → is_empty id ≡ false
    → blocked_attempt_exists id t ≡ false
    → record_blocked now id reason last t ≡ ok t'
    → blocked_attempt_exists id t' ≡ true
unfolding record_blocked
recorded-exists now id reason last t t' ne fresh e =
    let (amount, read, whole) =
      split_bind (read_amount last.amount) _ (rw (fresh, record_blocked) at e) in
    subst (λ u. blocked_attempt_exists id u ≡ true) (ok_inj whole)
      (exists-insert now _ id t ne refl)

recorded_again :
    (now later : ℕ) (id reason : Text) (last : LastRun) (t t' : BlockedTable)
    → is_empty id ≡ false
    → record_blocked now id reason last t ≡ ok t'
    → record_blocked later id reason last t' ≡ ok t'
recorded_again now later id reason last t t' ne e =
    elim (Bool-cases (blocked_attempt_exists id t)) [
      | inl known ↦
          let same : t ≡ t' = ok_inj (sym (known_id now id reason last t known) ∙ e) in
          subst (λ u. record_blocked later id reason last u ≡ ok u) same
            (known_id later id reason last t known)
      | inr fresh ↦
          known_id later id reason last t' (recorded-exists now id reason last t t' ne fresh e)
    ]

-- A status that names its scenario is recorded once: a poll that finds the same status again, at any
-- later time, leaves the blocked attempts as the first poll left them.
pub poll_again :
    (now now_sec later later_sec : ℕ) (id : Text) (last : LastRun) (t t' : BlockedTable)
    → last.scenario_id ≡ some id
    → is_empty id ≡ false
    → poll now now_sec (some last) t ≡ ok t'
    → poll later later_sec (some last) t' ≡ ok t'
unfolding poll record_blocked
poll_again now now_sec later later_sec id last t t' named ne e =
    elim (Bool-cases last.was_blocked) [
      | inr other ↦ rw other refl
      | inl denied ↦ elim (Option-cases (given last.reason_code)) [
        | inl nameless ↦ rw denied (rw nameless refl)
        | inr (reason, known) ↦ rw denied (
            rw known (
              rw named (
                recorded_again now_sec later_sec id reason last t t' ne
                  (rw named at (rw known at (rw (denied, poll) at e))))))
      ]
    ]
