-- ===== src/Prelude/Sorting.antt =====
-- Lists in the order of a key, the greatest first.
use inspect_element.Prelude.{
  ℕ, zero, suc, ◌≤◌, ◌≡◌, refl, ◌∙◌, Bool, true, ◌||◌, List, [], ◌∷◌, ltb, take, length, All, arith,
  Bool-cases, inl, inr,
}
use inspect_element.Prelude.Tables.{insert_by, order_by, any}

module _ {ℓ} {A : Type ℓ} (key : A → ℕ) where
  abbrev pub Descending : List A → Type 0
  Descending [] = Unit
  Descending (x ∷ xs) = All (λ y. key y ≤ key x) xs × Descending xs

  abbrev before_key : A → A → Bool
  before_key a b = ltb (key b) (key a)

  below : (n m : ℕ) (xs : List A) → n ≤ m → All (λ y. key y ≤ n) xs → All (λ y. key y ≤ m) xs
  below n m [] h all = tt
  below n m (x ∷ xs) h all = (omega (arith, h, all.0), below n m xs h all.1)

  insert_by-All :
      (n : ℕ) (x : A) (xs : List A)
      → key x ≤ n
      → All (λ y. key y ≤ n) xs
      → All (λ y. key y ≤ n) (insert_by before_key x xs)
  unfolding insert_by
  insert_by-All n x [] h all = (h, tt)
  insert_by-All n x (y ∷ ys) h all = elim (Bool-cases (ltb (key x) (key y))) [
    | inl later ↦ rw later (all.0, insert_by-All n x ys h all.1)
    | inr here ↦ rw here (h, all)
  ]

  insert_by-Descending :
      (x : A) (xs : List A) → Descending xs → Descending (insert_by before_key x xs)
  unfolding insert_by
  insert_by-Descending x [] d = (tt, tt)
  insert_by-Descending x (y ∷ ys) d = elim (Bool-cases (ltb (key x) (key y))) [
    | inl later ↦
        rw later (insert_by-All (key y) x ys (ground arith) d.0, insert_by-Descending x ys d.1)
    | inr here ↦
        let le : key y ≤ key x = ground arith in rw here ((le, below (key y) (key x) ys le d.0), d)
  ]

  pub order_by-Descending : (xs : List A) → Descending (order_by before_key xs)
  unfolding order_by
  order_by-Descending [] = tt
  order_by-Descending (x ∷ xs) = insert_by-Descending x _ (order_by-Descending xs)

  take-All : (n m : ℕ) (xs : List A) → All (λ y. key y ≤ n) xs → All (λ y. key y ≤ n) (take m xs)
  take-All n zero xs all = tt
  take-All n (suc m) [] all = tt
  take-All n (suc m) (x ∷ xs) all = (all.0, take-All n m xs all.1)

  pub take-Descending : (m : ℕ) (xs : List A) → Descending xs → Descending (take m xs)
  take-Descending zero xs d = tt
  take-Descending (suc m) [] d = tt
  take-Descending (suc m) (x ∷ xs) d = (take-All (key x) m xs d.0, take-Descending m xs d.1)

module _ {ℓ} {A : Type ℓ} (before : A → A → Bool) (p : A → Bool) where
  insert_by-any : (x : A) (xs : List A) → any p (insert_by before x xs) ≡ (p x || any p xs)
  unfolding insert_by any
  insert_by-any x [] = refl
  insert_by-any x (y ∷ ys) = ground (arith, insert_by-any x ys)

  -- Sorting loses no row and makes up none.
  pub order_by-any : (xs : List A) → any p (order_by before xs) ≡ any p xs
  unfolding order_by any
  order_by-any [] = refl
  order_by-any (x ∷ xs) = cc (insert_by-any x (order_by before xs), order_by-any xs)

module _ {ℓ} {A : Type ℓ} (before : A → A → Bool) where
  insert_by-length : (x : A) (xs : List A) → length (insert_by before x xs) ≡ suc (length xs)
  unfolding insert_by
  insert_by-length x [] = refl
  insert_by-length x (y ∷ ys) = ground (arith, insert_by-length x ys)

  pub order_by-length : (xs : List A) → length (order_by before xs) ≡ length xs
  unfolding order_by
  order_by-length [] = refl
  order_by-length (x ∷ xs) = insert_by-length x (order_by before xs) ∙ cc (order_by-length xs)

pub take-any {ℓ} :
    {A : Type ℓ} (p : A → Bool) (m : ℕ) (xs : List A) → any p (take m xs) ≡ true → any p xs ≡ true
unfolding any
take-any p zero xs h = cc
take-any p (suc m) [] h = cc
take-any p (suc m) (x ∷ xs) h = ground (arith, take-any p m xs)

pub take_all {ℓ} : {A : Type ℓ} (m : ℕ) (xs : List A) → length xs ≤ m → take m xs ≡ xs
take_all zero [] h = refl
take_all zero (x ∷ xs) h = absurd (omega arith)
take_all (suc m) [] h = refl
take_all (suc m) (x ∷ xs) h = cc (take_all m xs (omega arith))
