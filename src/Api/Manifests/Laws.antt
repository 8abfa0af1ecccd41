-- ===== src/Api/Manifests/Laws.antt =====
-- About services/infra/src/api/manifests.ts: what is posted is read back, and posted once.
use inspect_element.Prelude.{ℕ, ◌≡◌, Option, some, List}
use inspect_element.Prelude.Texts.{Text}
use inspect_element.Prelude.Results.{Result, ok}
use inspect_element.Store.Provider.{Provider}
use inspect_element.Store.Manifests.{ManifestRow, get_manifest_by_hash}
use inspect_element.Canonical.Manifest.{ManifestInput, CanonicalManifestResult}
use inspect_element.Api.Manifests.{PinnedManifest, Posted, post_manifest}

module _ (get_address : Text → Option Text) (keccak : Text → Text) (pin : Text → Result Text)
    (provider : Provider) where
  abbrev posting : ℕ → ManifestInput → List ManifestRow → Posted
  posting = post_manifest get_address keccak pin provider

  -- What an answered request leaves in the table under its hash.
  abbrev IsKept : Posted → PinnedManifest → Type 0
  IsKept p a =
      (row : ManifestRow) × (get_manifest_by_hash a.intent_hash p.table ≡ some row)
      × (row.manifest_uri ≡ a.manifest_uri)

  abbrev answered : Text → Text → PinnedManifest
  answered uri hash = record { manifest_uri = uri; intent_hash = hash }

  -- What holds of an answered request: the row is there, and the hash is that of the manifest.
  abbrev Keeps : CanonicalManifestResult → PinnedManifest → Posted → Type 0
  Keeps r a p = p.answer ≡ ok a → IsKept p a × (a.intent_hash ≡ r.intent_hash)
