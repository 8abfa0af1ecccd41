-- ===== src/Store/Manifests.antt =====
-- services/infra/src/store/manifests.ts: pinned intent manifests, keyed by intent hash.
use inspect_element.Prelude.{ℕ, Bool, Option, List, map}
use inspect_element.Prelude.Texts.{Text, text_eq, to_lower}
use inspect_element.Prelude.Tables.{find, upsert}
use inspect_element.Store.Provider.{Provider, sqlite, supabase}

pub record ManifestRow : Type 0 where
  pub intent_hash : Text
  pub manifest_uri : Text
  pub manifest_json : Text
  pub owner : Text
  pub token : Text
  pub max_spend_per_tx : ℕ
  pub max_spend_per_day : ℕ
  pub expiry : ℕ
  pub nonce : ℕ
  pub allowed_counterparties : List Text
  pub created_at : ℕ

pub record InsertManifestInput : Type 0 where
  pub intent_hash : Text
  pub manifest_uri : Text
  pub manifest_json : Text
  pub owner : Text
  pub token : Text
  pub max_spend_per_tx : ℕ
  pub max_spend_per_day : ℕ
  pub expiry : ℕ
  pub nonce : ℕ
  pub allowed_counterparties : List Text

unfoldable pub manifest_row : ℕ → InsertManifestInput → ManifestRow
manifest_row now i = record {
  intent_hash = to_lower i.intent_hash;
  manifest_uri = i.manifest_uri;
  manifest_json = i.manifest_json;
  owner = to_lower i.owner;
  token = to_lower i.token;
  max_spend_per_tx = i.max_spend_per_tx;
  max_spend_per_day = i.max_spend_per_day;
  expiry = i.expiry;
  nonce = i.nonce;
  allowed_counterparties = map to_lower i.allowed_counterparties;
  created_at = now;
}

unfoldable pub manifest_merge : Provider → ManifestRow → ManifestRow → ManifestRow
manifest_merge sqlite row old = record old {
  manifest_uri = row.manifest_uri;
  manifest_json = row.manifest_json;
}
manifest_merge supabase row old = row

abbrev pub has_intent_hash : Text → ManifestRow → Bool
has_intent_hash key m = text_eq m.intent_hash key

unfoldable pub insert_manifest :
    Provider → ℕ → InsertManifestInput → List ManifestRow → List ManifestRow
insert_manifest provider now i table =
    let row = manifest_row now i in
    upsert (has_intent_hash row.intent_hash) (manifest_merge provider row) row table

unfoldable pub get_manifest_by_hash : Text → List ManifestRow → Option ManifestRow
get_manifest_by_hash intent_hash table = find (has_intent_hash (to_lower intent_hash)) table
