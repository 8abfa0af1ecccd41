-- ===== src/Canonical/Manifest.antt =====
-- services/infra/src/canonical/manifest.ts: the manifest whose canonical text is hashed into the
-- `intentHash`.
pub mod Laws
use inspect_element.Prelude.{
  ℕ, Bool, true, false, Option, none, some, List, [], ◌∷◌, length, ltb, ◌==◌, if◌then◌else◌,
}
use inspect_element.Prelude.Texts.{Text, codes, is_decimal, decimal}
use inspect_element.Prelude.Integers.{ℤ, pos, negsuc, trim}
use inspect_element.Prelude.Results.{Result, ok, err, ◌>>=◌, internal}
use inspect_element.Canonical.Value.{
  Json, null, bigint, string, array, object, Items, no_items, item, no_entries, entry,
}
use inspect_element.Canonical.Encode.{canonicalize}

-- `string | bigint | number`; `fraction_input` is a number that is no integer.
pub data UintInput : Type 0 where
  text_input : Text → UintInput
  bigint_input : ℤ → UintInput
  number_input : ℤ → UintInput
  fraction_input : UintInput

unfoldable pub to_uint : UintInput → Result ℕ
to_uint (bigint_input (pos n)) = ok n
to_uint (bigint_input (negsuc n)) = err internal
to_uint (number_input (pos n)) = ok n
to_uint (number_input (negsuc n)) = err internal
to_uint fraction_input = err internal
to_uint (text_input s) = if is_decimal (trim s) then ok (decimal (trim s)) else err internal

-- `metadata` is `none` where it is missing.
pub record ManifestInput : Type 0 where
  pub owner : Text
  pub token : Text
  pub max_spend_per_tx : UintInput
  pub max_spend_per_day : UintInput
  pub allowed_counterparties : List Text
  pub expiry : UintInput
  pub nonce : UintInput
  pub metadata : Option Json

pub record CanonicalManifest : Type 0 where
  pub owner : Text
  pub token : Text
  pub max_spend_per_tx : ℕ
  pub max_spend_per_day : ℕ
  pub allowed_counterparties : List Text
  pub expiry : ℕ
  pub nonce : ℕ
  pub metadata : Json

pub record CanonicalManifestResult : Type 0 where
  pub manifest : CanonicalManifest
  pub json : Text
  pub intent_hash : Text

abbrev pub max_allowed_counterparties : ℕ
max_allowed_counterparties = 8

-- `getAddress` of viem, which throws on what is no address.
abbrev pub or_throw : Option Text → Result Text
or_throw none = err internal
or_throw (some a) = ok a

-- The array is not empty and not over the cap.
unfoldable pub check_count : List Text → Result (List Text)
check_count cs =
    if length cs == 0
    then err internal
    else if ltb max_allowed_counterparties (length cs)
    then err internal
    else ok cs

abbrev or_null : Option Json → Json
or_null none = null
or_null (some v) = v

abbrev strings : List Text → Items
strings [] = no_items
strings (a ∷ cs) = item (string a) (strings cs)

unfoldable pub canonical_value : CanonicalManifest → Json
canonical_value m = object (
    entry (codes "schemaVersion") (string (codes "1.0.0")) (
      entry (codes "owner") (string m.owner) (
        entry (codes "token") (string m.token) (
          entry (codes "maxSpendPerTx") (bigint (pos m.max_spend_per_tx)) (
            entry (codes "maxSpendPerDay") (bigint (pos m.max_spend_per_day)) (
              entry (codes "allowedCounterparties") (array (strings m.allowed_counterparties)) (
                entry (codes "expiry") (bigint (pos m.expiry)) (
                  entry (codes "nonce") (bigint (pos m.nonce))
                    (entry (codes "metadata") m.metadata no_entries)))))))))

-- The amounts that must not be 0.
unfoldable pub positive : ℕ → Result ℕ
positive n = if n == 0 then err internal else ok n

module _ (get_address : Text → Option Text) (keccak : Text → Text) where
  unfoldable pub addresses : List Text → Result (List Text)
  addresses [] = ok []
  addresses (a ∷ cs) = or_throw (get_address a) >>= (λ x. addresses cs >>= (λ xs. ok (x ∷ xs)))

  -- The checks for 0 come after all fields are read, and one error is like another: each stands with
  -- its field here. The amounts are what `toUint` makes of them.
  unfoldable pub build_fields :
      ManifestInput → Result ℕ → Result ℕ → Result ℕ → Result ℕ → Result CanonicalManifestResult
  build_fields i max_spend_per_tx max_spend_per_day expires nonce =
      or_throw (get_address i.owner) >>= λ owner. or_throw (get_address i.token) >>= λ token.
      check_count i.allowed_counterparties >>= λ listed. addresses listed >>= λ counterparties.
      max_spend_per_tx >>= positive >>= λ per_tx. max_spend_per_day >>= positive >>= λ per_day.
      expires >>= positive >>= λ expiry. nonce >>= λ nonce.
      let m : CanonicalManifest = record {
        owner = owner;
        token = token;
        max_spend_per_tx = per_tx;
        max_spend_per_day = per_day;
        allowed_counterparties = counterparties;
        expiry = expiry;
        nonce = nonce;
        metadata = or_null i.metadata;
      } in
      canonicalize (canonical_value m) >>= λ json.
      ok (record { manifest = m; json = json; intent_hash = keccak json })

  unfoldable pub build_canonical_manifest : ManifestInput → Result CanonicalManifestResult
  build_canonical_manifest i =
      build_fields i (to_uint i.max_spend_per_tx) (to_uint i.max_spend_per_day) (to_uint i.expiry)
        (to_uint i.nonce)
