-- ===== src/Prelude/Tables.antt =====
-- Tables of rows in insertion order, and the statements that the store modules run on them.
use inspect_element.Prelude.{
  refl, ◌||◌, ◌≡◌, refl, Bool, true, false, Option, none, some, List, [], ◌∷◌, ◌++◌, arith,
  if◌then◌else◌,
}

abbrev only {ℓ} : {A : Type ℓ} → List A → Option A
only [] = none
only (x ∷ []) = some x
only (x ∷ y ∷ xs) = none

module _ {ℓ} {A : Type ℓ} where
  -- SELECT … WHERE p LIMIT 1
  unfoldable pub find : (A → Bool) → List A → Option A
  find p [] = none
  find p (x ∷ xs) = if p x then some x else find p xs

  -- SELECT … WHERE p
  unfoldable pub select : (A → Bool) → List A → List A
  select p [] = []
  select p (x ∷ xs) = let rest = select p xs in if p x then x ∷ rest else rest

  -- `.single()`: the row, and nothing where no row or more than one fits.
  unfoldable pub single : (A → Bool) → List A → Option A
  unfolding select
  single p table = only (select p table)

  -- UPDATE … SET f WHERE p
  unfoldable pub update : (A → Bool) → (A → A) → List A → List A
  update p f [] = []
  update p f (x ∷ xs) = (if p x then f x else x) ∷ update p f xs

  -- INSERT … ON CONFLICT DO UPDATE: `p` finds the row in conflict, `f` updates it.
  unfoldable pub upsert : (A → Bool) → (A → A) → A → List A → List A
  upsert p f row [] = row ∷ []
  upsert p f row (x ∷ xs) = if p x then f x ∷ xs else x ∷ upsert p f row xs

  -- ORDER BY, where `before x y` says that `x` stands in front of `y`; ties keep their order.
  unfoldable pub insert_by : (A → A → Bool) → A → List A → List A
  insert_by before x [] = x ∷ []
  insert_by before x (y ∷ ys) = if before y x then y ∷ insert_by before x ys else x ∷ y ∷ ys

  unfoldable pub order_by : (A → A → Bool) → List A → List A
  unfolding insert_by
  order_by before [] = []
  order_by before (x ∷ xs) = insert_by before x (order_by before xs)

  -- Whether some row satisfies the test.
  unfoldable pub any : (A → Bool) → List A → Bool
  any p [] = false
  any p (x ∷ xs) = p x || any p xs

abbrev pub map_option {ℓ} : {A : Type ℓ} → (A → A) → Option A → Option A
map_option f none = none
map_option f (some x) = some (f x)

-- The row that an `upsert` leaves, from the row in conflict.
abbrev pub upserted {ℓ} : {A : Type ℓ} → (A → A) → A → Option A → A
upserted f row none = row
upserted f row (some x) = f x

module _ {ℓ} {A : Type ℓ} (p : A → Bool) (f : A → A) (row : A) (fits : p row ≡ true)
    (keeps : (x : A) → p x ≡ true → p (f x) ≡ true) where
  -- The row in conflict is found updated, a new one as it was inserted.
  pub find-upsert_self :
      (xs : List A) → find p (upsert p f row xs) ≡ some (upserted f row (find p xs))
  unfolding find upsert
  find-upsert_self [] = ground (arith, fits)
  find-upsert_self (x ∷ xs) = ground (arith, keeps x, find-upsert_self xs)

  -- A second statement, whose update finds nothing to change, leaves the table as it is.
  pub upsert_absorbs :
      (g : A → A) (again : A)
      → ((x : A) → g (f x) ≡ f x)
      → g row ≡ row
      → (xs : List A) → upsert p g again (upsert p f row xs) ≡ upsert p f row xs
  unfolding upsert
  upsert_absorbs g again idem same [] = ground (arith, fits, same)
  upsert_absorbs g again idem same (x ∷ xs) =
      ground (arith, keeps x, idem x, upsert_absorbs g again idem same xs)

module _ {ℓ} {A : Type ℓ} (p q : A → Bool) (f : A → A) (row : A) (misses : q row ≡ false)
    (apart : (x : A) → p x ≡ true → (q x ≡ false) × (q (f x) ≡ false)) where
  -- Rows that the statement cannot be in conflict with are found as before.
  pub find-upsert_ne : (xs : List A) → find q (upsert p f row xs) ≡ find q xs
  unfolding find upsert
  find-upsert_ne [] = ground (arith, misses)
  find-upsert_ne (x ∷ xs) = ground (arith, apart x, find-upsert_ne xs)

  pub any-upsert_ne : (xs : List A) → any q (upsert p f row xs) ≡ any q xs
  unfolding any upsert
  any-upsert_ne [] = ground (arith, misses)
  any-upsert_ne (x ∷ xs) = ground (arith, apart x, any-upsert_ne xs)

module _ {ℓ} {A : Type ℓ} (p q : A → Bool) (f : A → A) where
  -- An update of rows that a read selects is seen by the read.
  pub find-update_self :
      ((x : A) → p (f x) ≡ p x) → (xs : List A) → find p (update p f xs) ≡ map_option f (find p xs)
  unfolding find update
  find-update_self keeps [] = refl
  find-update_self keeps (x ∷ xs) = ground (arith, keeps x, find-update_self keeps xs)

  pub find-update_ne :
      ((x : A) → p x ≡ true → (q x ≡ false) × (q (f x) ≡ false))
      → (xs : List A) → find q (update p f xs) ≡ find q xs
  unfolding find update
  find-update_ne apart [] = refl
  find-update_ne apart (x ∷ xs) = ground (arith, apart x, find-update_ne apart xs)

  pub any-update : ((x : A) → q (f x) ≡ q x) → (xs : List A) → any q (update p f xs) ≡ any q xs
  unfolding any update
  any-update keeps [] = refl
  any-update keeps (x ∷ xs) = ground (arith, keeps x, any-update keeps xs)

-- A row that is appended is found where no row before it is.
pub find-append_last {ℓ} :
    {A : Type ℓ} (p : A → Bool) (row : A) (xs : List A)
    → p row ≡ true
    → find p xs ≡ none
    → find p (xs ++ row ∷ []) ≡ some row
unfolding find
find-append_last p row [] fits h = ground (arith, fits)
find-append_last p row (x ∷ xs) fits h = ground (arith, find-append_last p row xs fits)

-- What is found satisfies the test.
pub find_fits {ℓ} :
    {A : Type ℓ} (p : A → Bool) (xs : List A) (x : A) → find p xs ≡ some x → p x ≡ true
unfolding find
find_fits p [] x h = cc
find_fits p (y ∷ ys) x h = ground (arith, find_fits p ys x)
