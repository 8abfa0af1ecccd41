-- ===== src/Store/Intents/Laws.antt =====
-- About services/infra/src/store/intents.ts: the active intents of an owner, and logs indexed again.
use inspect_element.Prelude.{
  ℕ, ◌+◌, ◌≤◌, ◌≡◌, refl, true, false, none, some, List, [], ◌∷◌, ◌++◌, arith, if◌then◌else◌, inl,
  inr, ◌⊎◌,
}
use inspect_element.Prelude.Texts.{Text, text_eq_iff, text_eq_refl, to_lower}
use inspect_element.Prelude.Results.{ok}
use inspect_element.Prelude.Tables.{select, update, order_by, any, any-update}
use inspect_element.Store.Provider.{Provider, sqlite, supabase}
use inspect_element.Store.Intents.{
  IntentRow, IntentInput, intent_row, is_active_of, deactivate, same_log, same_hash,
  mark_intent_revoked, insert_intent_committed, get_active_intent,
}

-- The number of active intents of an owner.
unfoldable pub active_count : Text → List IntentRow → ℕ
active_count key [] = 0
active_count key (r ∷ t) = (if is_active_of key r then 1 else 0) + active_count key t

abbrev pub HasOneActive : List IntentRow → Type 0
HasOneActive t = (key : Text) → active_count key t ≤ 1

cleared_self :
    (key : Text) (t : List IntentRow)
    → active_count key (update (is_active_of key) deactivate t) ≡ 0
unfolding active_count update
cleared_self key [] = refl
cleared_self key (r ∷ t) = ground (arith, cleared_self key t)

cleared_le :
    (key other : Text) (t : List IntentRow)
    → active_count other (update (is_active_of key) deactivate t) ≤ active_count other t
unfolding active_count update
cleared_le key other [] = omega arith
cleared_le key other (r ∷ t) = ground (arith, cleared_le key other t)

count-snoc :
    (key : Text) (t : List IntentRow) (row : IntentRow)
    → active_count key (t ++ row ∷ [])
      ≡ active_count key t + (if is_active_of key row then 1 else 0)
unfolding active_count
count-snoc key [] row = ground arith
count-snoc key (r ∷ t) row = ground (arith, count-snoc key t row)

-- The table of a commit: cleared for the owner, with the new row or without it.
committed_inv :
    (provider : Provider) (now : ℕ) (i : IntentInput) (t t' : List IntentRow)
    → insert_intent_committed provider now i t ≡ ok t'
    → let row = intent_row now i in
      let cleared = update (is_active_of row.owner) deactivate t in
      (t' ≡ cleared) ⊎ (t' ≡ cleared ++ row ∷ [])
unfolding insert_intent_committed
committed_inv sqlite now i t t' e = ground arith
committed_inv supabase now i t t' e = ground arith

commit_count :
    (row : IntentRow) (key : Text) (t : List IntentRow)
    → active_count key t ≤ 1
    → active_count key (update (is_active_of row.owner) deactivate t)
        + (if is_active_of key row then 1 else 0)
      ≤ 1
commit_count row key t h = ground (
  arith,
  cleared_le row.owner key t,
  cleared_self row.owner t,
  cleared_self key t,
  text_eq_iff row.owner key,
)

-- A revocation keeps at most one active intent of each owner.
pub revoked-HasOneActive :
    (owner : Text) (t : List IntentRow)
    → HasOneActive t
    → HasOneActive (mark_intent_revoked owner t)
unfolding mark_intent_revoked
revoked-HasOneActive owner t h key = omega (arith, cleared_le (to_lower owner) key t, h key)

-- A commit that does not throw keeps at most one active intent of each owner, under either provider.
pub committed-HasOneActive :
    (provider : Provider) (now : ℕ) (i : IntentInput) (t t' : List IntentRow)
    → HasOneActive t
    → insert_intent_committed provider now i t ≡ ok t'
    → HasOneActive t'
committed-HasOneActive provider now i t t' h e key =
    let row = intent_row now i in
    elim (committed_inv provider now i t t' e) [
      | inl same ↦ rw same (omega (arith, cleared_le row.owner key t, h key))
      | inr new ↦ rw (new, count-snoc) (commit_count row key t (h key))
    ]

select_cleared :
    (key : Text) (t : List IntentRow)
    → select (is_active_of key) (update (is_active_of key) deactivate t) ≡ []
unfolding select update
select_cleared key [] = refl
select_cleared key (r ∷ t) = ground (arith, select_cleared key t)

select_committed :
    (key : Text) (t : List IntentRow) (row : IntentRow)
    → is_active_of key row ≡ true
    → select (is_active_of key) (update (is_active_of key) deactivate t ++ row ∷ []) ≡ row ∷ []
unfolding select update
select_committed key [] row h = ground arith
select_committed key (r ∷ t) row h = ground (arith, select_committed key t row h)

any_cleared :
    (key : Text) (row : IntentRow) (t : List IntentRow)
    → (any (same_log row) (update (is_active_of key) deactivate t) ≡ any (same_log row) t)
      × (any (same_hash row) (update (is_active_of key) deactivate t) ≡ any (same_hash row) t)
any_cleared key row t = (
  any-update (is_active_of key) (same_log row) deactivate (λ x. refl) t,
  any-update (is_active_of key) (same_hash row) deactivate (λ x. refl) t,
)

fresh_commit :
    (provider : Provider) (now : ℕ) (i : IntentInput) (t : List IntentRow)
    → any (same_log (intent_row now i)) t ≡ false
    → any (same_hash (intent_row now i)) t ≡ false
    → let row = intent_row now i in
      insert_intent_committed provider now i t
      ≡ ok (update (is_active_of row.owner) deactivate t ++ row ∷ [])
unfolding insert_intent_committed
fresh_commit sqlite now i t new_log new_hash =
    let row = intent_row now i in ground (arith, any_cleared row.owner row t)
fresh_commit supabase now i t new_log new_hash =
    let row = intent_row now i in ground (arith, any_cleared row.owner row t)

known_commit :
    (provider : Provider) (now : ℕ) (i : IntentInput) (t : List IntentRow)
    → any (same_log (intent_row now i)) t ≡ true
    → let row = intent_row now i in
      insert_intent_committed provider now i t ≡ ok (update (is_active_of row.owner) deactivate t)
unfolding insert_intent_committed
known_commit sqlite now i t known =
    let row = intent_row now i in ground (arith, any_cleared row.owner row t)
known_commit supabase now i t known =
    let row = intent_row now i in ground (arith, any_cleared row.owner row t)

-- A fresh commit becomes the active intent of its owner, whatever was active before.
pub get_active-committed :
    (provider : Provider) (now : ℕ) (i : IntentInput) (t : List IntentRow)
    → any (same_log (intent_row now i)) t ≡ false
    → any (same_hash (intent_row now i)) t ≡ false
    → (t' : List IntentRow) × (insert_intent_committed provider now i t ≡ ok t')
      × (get_active_intent i.owner t' ≡ some (intent_row now i))
unfolding get_active_intent intent_row order_by
get_active-committed provider now i t new_log new_hash =
    let row = intent_row now i in
    (
      update (is_active_of row.owner) deactivate t ++ row ∷ [],
      fresh_commit provider now i t new_log new_hash,
      rw (select_committed row.owner t row (ground (arith, text_eq_refl row.owner))) refl,
    )

-- The log of a commit that is already in the table leaves its owner with no active intent, under
-- either provider.
pub recommitted_loses_intent :
    (provider : Provider) (now : ℕ) (i : IntentInput) (t : List IntentRow)
    → any (same_log (intent_row now i)) t ≡ true
    → (t' : List IntentRow) × (insert_intent_committed provider now i t ≡ ok t')
      × (get_active_intent i.owner t' ≡ none)
unfolding get_active_intent intent_row order_by
recommitted_loses_intent provider now i t known =
    let row = intent_row now i in
    (
      update (is_active_of row.owner) deactivate t,
      known_commit provider now i t known,
      rw (select_cleared row.owner t) refl,
    )
