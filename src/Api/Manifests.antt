-- ===== src/Api/Manifests.antt =====
-- services/infra/src/api/manifests.ts: an intent manifest is pinned under its intent hash, and read.
pub mod Laws
use inspect_element.Prelude.{
  ℕ, Bool, true, false, not, ◌&&◌, Option, none, some, List, [], ◌∷◌, if◌then◌else◌,
}
use inspect_element.Prelude.Texts.{Text, is_hex}
use inspect_element.Prelude.Results.{Result, ok, err, bad_request, not_found}
use inspect_element.Store.Provider.{Provider}
use inspect_element.Store.Manifests.{ManifestRow, insert_manifest, get_manifest_by_hash}
use inspect_element.Canonical.Manifest.{
  ManifestInput, CanonicalManifestResult, build_canonical_manifest,
}

abbrev all_addresses : List Text → Bool
all_addresses [] = true
all_addresses (a ∷ rest) = is_hex 40 a && all_addresses rest

abbrev is_listed : List Text → Bool
is_listed [] = false
is_listed (a ∷ rest) = true

-- `ManifestBody` accepts the request; a missing `metadata` counts as null.
unfoldable pub accepts_manifest : ManifestInput → Bool
accepts_manifest i =
    is_hex 40 i.owner
    && is_hex 40 i.token
    && all_addresses i.allowed_counterparties
    && is_listed i.allowed_counterparties

pub record PinnedManifest : Type 0 where
  pub manifest_uri : Text
  pub intent_hash : Text

-- The table after the request, and the answer.
pub record Posted : Type 0 where
  pub table : List ManifestRow
  pub answer : Result PinnedManifest

-- `pin` gives the URI of a pinned text.
module _ (get_address : Text → Option Text) (keccak : Text → Text) (pin : Text → Result Text)
    (provider : Provider) where
  abbrev pub inserted : ℕ → CanonicalManifestResult → Text → List ManifestRow → List ManifestRow
  inserted now r uri table =
      insert_manifest provider now
        (record {
          intent_hash = r.intent_hash;
          manifest_uri = uri;
          manifest_json = r.json;
          owner = r.manifest.owner;
          token = r.manifest.token;
          max_spend_per_tx = r.manifest.max_spend_per_tx;
          max_spend_per_day = r.manifest.max_spend_per_day;
          expiry = r.manifest.expiry;
          nonce = r.manifest.nonce;
          allowed_counterparties = r.manifest.allowed_counterparties;
        })
        table

  -- The part after the canonical manifest has been built.
  unfoldable pub pin_manifest : ℕ → CanonicalManifestResult → List ManifestRow → Posted
  pin_manifest now r table = elim (get_manifest_by_hash r.intent_hash table) [
    | some row ↦ record {
      table = table;
      answer = ok (record { manifest_uri = row.manifest_uri; intent_hash = r.intent_hash });
    }
    | none ↦ elim (pin r.json) [
      | err e ↦ record { table = table; answer = err e }
      | ok uri ↦ record {
        table = inserted now r uri table;
        answer = ok (record { manifest_uri = uri; intent_hash = r.intent_hash });
      }
    ]
  ]

  -- POST /v1/manifests
  unfoldable pub post_manifest : ℕ → ManifestInput → List ManifestRow → Posted
  post_manifest now i table =
      if not (accepts_manifest i)
      then record { table = table; answer = err bad_request }
      else elim (build_canonical_manifest get_address keccak i) [
        | err e ↦ record { table = table; answer = err e }
        | ok r ↦ pin_manifest now r table
      ]

-- GET /v1/manifests/:intentHash; the answer shows the parsed JSON of the row.
unfoldable pub get_manifest : Text → List ManifestRow → Result ManifestRow
get_manifest intent_hash table =
    if not (is_hex 64 intent_hash)
    then err bad_request
    else elim (get_manifest_by_hash intent_hash table) [ none ↦ err not_found | some r ↦ ok r ]
