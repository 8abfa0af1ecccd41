-- ===== src/Prelude/Results.antt =====
-- Outcomes of code that may throw: what is thrown is a value of the program's own errors.
use inspect_element.Prelude.{◌≡◌, refl, ◌⊎◌, inl, inr}

-- What the modelled code throws, or what is thrown at it by a library that it calls.
pub data Failure : Type 0 where
  constraint : Failure
  unavailable : Failure
  syntax : Failure
  bad_request : Failure
  not_found : Failure
  unauthorized : Failure
  forbidden : Failure
  internal : Failure

pub data Result {ℓ} (A : Type ℓ) : Type ℓ where
  err : Failure → Result A
  ok : A → Result A

infixl 5 ◌>>=◌
-- `await`, and what follows it.
abbrev pub ◌>>=◌ {ℓ ℓ'} : {T : Type ℓ} {S : Type ℓ'} → Result T → (T → Result S) → Result S
err thrown >>= rest = err thrown
ok value >>= rest = rest value

pub Result-cases {ℓ} :
    {T : Type ℓ} (outcome : Result T)
    → ((value : T) × (outcome ≡ ok value)) ⊎ ((thrown : Failure) × (outcome ≡ err thrown))
Result-cases (err thrown) = inr (thrown, refl)
Result-cases (ok value) = inl (value, refl)

-- What has succeeded as a whole has succeeded at first.
pub split_bind {ℓ ℓ'} :
    {T : Type ℓ} {S : Type ℓ'} (outcome : Result T) (rest : T → Result S) {whole : S}
    → (outcome >>= rest) ≡ ok whole
    → (value : T) × (outcome ≡ ok value) × (rest value ≡ ok whole)
split_bind (err thrown) rest e = cc
split_bind (ok value) rest e = (value, refl, e)
