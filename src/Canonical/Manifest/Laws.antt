-- ===== src/Canonical/Manifest/Laws.antt =====
-- About services/infra/src/canonical/manifest.ts: what a built manifest satisfies, and how amounts
-- may be written.
use inspect_element.Prelude.{
  ℕ, suc, subst, ◌≤◌, ◌<◌, ◌≡◌, refl, sym, ap, Option, List, [], ◌∷◌, length, arith,
}
use inspect_element.Prelude.Texts.{
  Text, to_decimal, to_decimal-plain, decimal-to_decimal, is_decimal-to_decimal,
}
use inspect_element.Prelude.Integers.{pos, trim-plain}
use inspect_element.Prelude.Results.{Result, ok, err, ◌>>=◌, split_bind}
use inspect_element.Canonical.Encode.{canonicalize}
use inspect_element.Canonical.Manifest.{
  UintInput, text_input, bigint_input, to_uint, ManifestInput, CanonicalManifest,
  CanonicalManifestResult, or_throw, check_count, canonical_value, positive, addresses,
  build_fields, build_canonical_manifest, max_allowed_counterparties,
}

to_uint-to_decimal : (n : ℕ) → to_uint (text_input (to_decimal n)) ≡ ok n
unfolding to_uint
to_uint-to_decimal n =
    rw (trim-plain (to_decimal n) (to_decimal-plain n))
      (rw (is_decimal-to_decimal n) (ap (λ m. ok m) (decimal-to_decimal n)))

positive_lt : (m : Result ℕ) (n : ℕ) → (m >>= positive) ≡ ok n → 0 < n
unfolding positive
positive_lt (err e) n h = absurd cc
positive_lt (ok k) n h = ground arith

ok_inj : {A : Type 0} {a b : A} → ok a ≡ ok b → a ≡ b
ok_inj h = cc

check_count-bounds :
    (cs ds : List Text)
    → check_count cs ≡ ok ds
    → (1 ≤ length ds) × (length ds ≤ max_allowed_counterparties)
unfolding check_count
check_count-bounds cs ds h = ground arith

-- What holds of all outcomes of the rest holds of all outcomes of the whole.
all_bind :
    {T S : Type 0} (P : S → Type 0) (outcome : Result T) (rest : T → Result S)
    → ((value : T) → outcome ≡ ok value → (whole : S) → rest value ≡ ok whole → P whole)
    → (whole : S) → (outcome >>= rest) ≡ ok whole
    → P whole
all_bind P outcome rest each whole h =
    let (value, got, more) = split_bind outcome rest h in each value got whole more

all_ok : {S : Type 0} (P : S → Type 0) {r : S} → P r → (whole : S) → ok r ≡ ok whole → P whole
all_ok P p whole h = subst P (ok_inj h) p

-- The four numbers of an input, each written in one way.
abbrev pub written : (ℕ → UintInput) → ManifestInput → ℕ → ℕ → ℕ → ℕ → ManifestInput
written form i per_tx per_day expiry nonce = record i {
  max_spend_per_tx = form per_tx;
  max_spend_per_day = form per_day;
  expiry = form expiry;
  nonce = form nonce;
}

-- What the contract asks of an intent's configuration.
pub record IsValid (m : CanonicalManifest) : Type 0 where
  pub spends : 0 < m.max_spend_per_tx
  pub spends_daily : 0 < m.max_spend_per_day
  pub expires : 0 < m.expiry
  pub listed :
      (1 ≤ length m.allowed_counterparties)
      × (length m.allowed_counterparties ≤ max_allowed_counterparties)

module _ (get_address : Text → Option Text) (keccak : Text → Text) where
  abbrev built : ManifestInput → Result CanonicalManifestResult
  built = build_canonical_manifest get_address keccak

  -- Amounts written as decimal texts give the manifest, the canonical text and the intent hash that the
  -- same amounts give as bigints, and throw where those throw.
  pub build_canonical_manifest-to_decimal :
      (i : ManifestInput) (per_tx per_day expiry nonce : ℕ)
      → built (written (λ n. text_input (to_decimal n)) i per_tx per_day expiry nonce)
        ≡ built (written (λ n. bigint_input (pos n)) i per_tx per_day expiry nonce)
  unfolding build_canonical_manifest to_uint build_fields
  build_canonical_manifest-to_decimal i per_tx per_day expiry nonce = λ j.
      build_fields get_address keccak i (to_uint-to_decimal per_tx j) (to_uint-to_decimal per_day j)
        (to_uint-to_decimal expiry j) (to_uint-to_decimal nonce j)

  addresses-length :
      (cs bs : List Text) → addresses get_address keccak cs ≡ ok bs → length bs ≡ length cs
  unfolding addresses
  addresses-length [] bs h = let e : [] ≡ bs = cc in rw (sym e) refl
  addresses-length (a ∷ cs) bs h =
      let (x, got, more) = split_bind (or_throw (get_address a)) _ h in
      let (xs, rest, whole) = split_bind (addresses get_address keccak cs) _ more in
      let eq : x ∷ xs ≡ bs = cc in rw (sym eq) (ap (λ n. suc n) (addresses-length cs xs rest))

  addresses-bounds :
      (cs ds bs : List Text)
      → check_count cs ≡ ok ds
      → addresses get_address keccak ds ≡ ok bs
      → (1 ≤ length bs) × (length bs ≤ max_allowed_counterparties)
  addresses-bounds cs ds bs counted checked =
      rw (addresses-length ds bs checked) (check_count-bounds cs ds counted)

  abbrev Built : CanonicalManifestResult → Type 0
  Built r =
      IsValid r.manifest
      × (canonicalize (canonical_value r.manifest) ≡ ok r.json)
      × (r.intent_hash ≡ keccak r.json)

  -- A manifest that is built has positive amounts and expiry and from one to eight counterparties, and
  -- its canonical text and intent hash are those of its own fields.
  pub build_canonical_manifest-IsValid :
      (i : ManifestInput) (r : CanonicalManifestResult)
      → built i ≡ ok r
      → IsValid r.manifest
        × (canonicalize (canonical_value r.manifest) ≡ ok r.json)
        × (r.intent_hash ≡ keccak r.json)
  unfolding build_canonical_manifest build_fields
  build_canonical_manifest-IsValid i = all_bind Built (or_throw (get_address i.owner)) _ λ owner h1.
      all_bind Built (or_throw (get_address i.token)) _ λ token h2.
        all_bind Built (check_count i.allowed_counterparties) _ λ listed counted.
          all_bind Built (addresses get_address keccak listed) _ λ counterparties checked.
            all_bind Built (to_uint i.max_spend_per_tx >>= positive) _ λ per_tx some_tx.
              all_bind Built (to_uint i.max_spend_per_day >>= positive) _ λ per_day some_day.
                all_bind Built (to_uint i.expiry >>= positive) _ λ expiry some_time.
                  all_bind Built (to_uint i.nonce) _ λ nonce h3.
                    all_bind Built (canonicalize (canonical_value _)) _ λ json encoded.
                      all_ok Built (
                        record {
                          spends = positive_lt _ per_tx some_tx;
                          spends_daily = positive_lt _ per_day some_day;
                          expires = positive_lt _ expiry some_time;
                          listed = addresses-bounds _ listed counterparties counted checked;
                        },
                        encoded,
                        refl,
                      )
