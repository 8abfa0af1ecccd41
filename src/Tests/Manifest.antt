-- ===== src/Tests/Manifest.antt =====
-- services/infra/src/canonical/manifest.ts at a small manifest.
use inspect_element.Prelude.{◌≡◌, refl, Option, none, some, [], ◌∷◌}
use inspect_element.Prelude.Texts.{Text, codes, text_eq, is_decimal, to_decimal, decimal}
use inspect_element.Prelude.Integers.{pos, trim, int_text}
use inspect_element.Prelude.Results.{ok}
use inspect_element.Prelude.Tables.{order_by, insert_by}
use inspect_element.Canonical.Value.{null, quote, join, text_less}
use inspect_element.Canonical.Encode.{canonicalize, encode, array_text, object_text, pair_text}
use inspect_element.Canonical.Manifest.{
  text_input, bigint_input, number_input, to_uint, ManifestInput, CanonicalManifestResult,
  check_count, canonical_value, positive, addresses, build_fields, build_canonical_manifest,
}
use inspect_element.Canonical.Manifest.Laws.{
  IsValid, written, build_canonical_manifest-to_decimal, build_canonical_manifest-IsValid,
}

abbrev get_address : Text → Option Text
get_address [] = none
get_address (c ∷ t) = some (c ∷ t)

abbrev keccak : Text → Text
keccak t = codes "h"

abbrev input : ManifestInput
input = record {
  owner = codes "0xa";
  token = codes "0xb";
  max_spend_per_tx = text_input (codes " 100 ");
  max_spend_per_day = number_input (pos 1000);
  allowed_counterparties = codes "0xc" ∷ [];
  expiry = bigint_input (pos 99);
  nonce = number_input (pos 0);
  metadata = none;
}

abbrev output : CanonicalManifestResult
output = record {
  manifest = record {
    owner = codes "0xa";
    token = codes "0xb";
    max_spend_per_tx = 100;
    max_spend_per_day = 1000;
    allowed_counterparties = codes "0xc" ∷ [];
    expiry = 99;
    nonce = 0;
    metadata = null;
  };
  json =
      codes
        "{\"allowedCounterparties\":[\"0xc\"],\"expiry\":\"99\",\"maxSpendPerDay\":\"1000\",\"maxSpendPerTx\":\"100\",\"metadata\":null,\"nonce\":\"0\",\"owner\":\"0xa\",\"schemaVersion\":\"1.0.0\",\"token\":\"0xb\"}";
  intent_hash = codes "h";
}

to_uint_runs : to_uint (text_input (codes " 100 ")) ≡ ok 100
unfolding to_uint trim is_decimal decimal
to_uint_runs = refl

build_canonical_manifest-to_decimal_example :
    build_canonical_manifest get_address keccak
      (written (λ n. text_input (to_decimal n)) input 100 1000 99 7)
    ≡ build_canonical_manifest get_address keccak
        (written (λ n. bigint_input (pos n)) input 100 1000 99 7)
build_canonical_manifest-to_decimal_example =
    build_canonical_manifest-to_decimal get_address keccak input 100 1000 99 7

build_canonical_manifest_runs : build_canonical_manifest get_address keccak input ≡ ok output
unfolding build_canonical_manifest build_fields to_uint trim is_decimal decimal check_count
    addresses positive canonical_value encode object_text array_text quote join order_by insert_by
    text_less pair_text int_text to_decimal text_eq
build_canonical_manifest_runs = refl

build_canonical_manifest-IsValid_example :
    IsValid output.manifest
    × (canonicalize (canonical_value output.manifest) ≡ ok output.json)
    × (output.intent_hash ≡ keccak output.json)
build_canonical_manifest-IsValid_example =
    build_canonical_manifest-IsValid get_address keccak input output build_canonical_manifest_runs
