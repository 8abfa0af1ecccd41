-- ===== src/Store/Summaries.antt =====
-- services/infra/src/store/summaries.ts: summaries of receipts and challenges, keyed by kind and id.
-- SQLite has the table, by store/schema.ts. The only Supabase migration,
-- supabase/migrations/00001_initial_schema.sql, has none of this name: there the read finds nothing, and
-- the error of the write is not read.
use inspect_element.Prelude.{ℕ, ◌/◌, Bool, true, false, ◌&&◌, Option, none, some, List}
use inspect_element.Prelude.Texts.{Text, text_eq, to_lower}
use inspect_element.Store.Provider.{Provider, sqlite, supabase}
use inspect_element.Prelude.Tables.{find, upsert}

pub data SummaryKind : Type 0 where
  receipt challenge : SummaryKind

-- `SummaryResponse` of gemini/schemas.ts; its JSON text in the table is read back as it is.
pub record SummaryResponse : Type 0 where
  pub headline : Text
  pub summary_bullets : List Text
  pub risk_assessment : Text
  pub why_it_was_allowed_or_blocked : Text
  pub recommended_reviewer_focus : List Text
  pub advisory_only : Bool
  pub model : Text

pub record SummaryRow : Type 0 where
  pub kind : SummaryKind
  pub reference_id : Text
  pub summary : SummaryResponse
  pub created_at : ℕ

abbrev pub kind_eq : SummaryKind → SummaryKind → Bool
kind_eq receipt receipt = true
kind_eq challenge challenge = true
kind_eq _ _ = false

abbrev pub is_reference : SummaryKind → Text → SummaryRow → Bool
is_reference kind key row = kind_eq row.kind kind && text_eq row.reference_id key

abbrev pub summary_of : Option SummaryRow → Option SummaryResponse
summary_of none = none
summary_of (some row) = some row.summary

unfoldable pub get_cached_summary :
    Provider → SummaryKind → Text → List SummaryRow → Option SummaryResponse
get_cached_summary supabase kind reference_id table = none
get_cached_summary sqlite kind reference_id table =
    summary_of (find (is_reference kind (to_lower reference_id)) table)

abbrev pub renewed : SummaryRow → SummaryRow → SummaryRow
renewed row old = record old { summary = row.summary; created_at = row.created_at }

-- `now` in milliseconds.
unfoldable pub cache_summary :
    Provider → ℕ → SummaryKind → Text → SummaryResponse → List SummaryRow → List SummaryRow
cache_summary supabase now kind reference_id summary table = table
cache_summary sqlite now kind reference_id summary table =
    let row : SummaryRow = record {
      kind = kind;
      reference_id = to_lower reference_id;
      summary = summary;
      created_at = now / 1000;
    } in
    upsert (is_reference kind row.reference_id) (renewed row) row table
