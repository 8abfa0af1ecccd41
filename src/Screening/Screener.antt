-- ===== src/Screening/Screener.antt =====
-- services/infra/src/screening/screener.ts and summarizer.ts, and their route api/screen.ts.
use inspect_element.Prelude.{ℕ, ◌*◌, Bool, true, not, none, some, List, [], ◌∷◌, if◌then◌else◌}
use inspect_element.Prelude.Texts.{Text, codes, is_hex}
use inspect_element.Prelude.Integers.{pos}
use inspect_element.Prelude.Results.{Result, ok, err, bad_request, not_found}
use inspect_element.Store.Traces.{TraceRow, get_trace_by_digest}
use inspect_element.Screening.Score.{Score, finite, max_zero, min_with}

pub data Severity : Type 0 where
  low medium high critical : Severity

pub record ScreeningSignal : Type 0 where
  pub category : Text
  pub severity : Severity
  pub description : Text
  pub evidence : Text

pub record ScreeningResult : Type 0 where
  pub injection_score : Score
  pub signals : List ScreeningSignal
  pub explanation : Text
  pub advisory : Bool
  pub screened_at : Text

pub record IncidentSummary : Type 0 where
  pub bullets : List Text
  pub summary : Text
  pub advisory : Bool
  pub generated_at : Text

-- The answer where nothing could be screened.
abbrev pub unscreened : Text → Text → ScreeningResult
unscreened explanation now = record {
  injection_score = finite (pos 0);
  signals = [];
  explanation = explanation;
  advisory = true;
  screened_at = now;
}

-- `scale` is that of the scores; `parses` says whether `JSON.parse` takes a text; the provider may
-- throw.
module _ (scale : ℕ) (parses : Text → Bool) (screen_trace : Text → Result ScreeningResult) where
  unfoldable pub screen : Text → Text → ScreeningResult
  screen now trace_json =
      if not (parses trace_json)
      then unscreened (codes "Unable to parse trace JSON. Input is invalid.") now
      else elim (screen_trace trace_json) [
        | ok result ↦ record result {
          injection_score = min_with (100 * scale) (max_zero result.injection_score);
          advisory = true;
        }
        | err thrown ↦ unscreened (codes "Screening provider error. Unable to analyze trace.") now
      ]

  -- POST /v1/screen of a stored trace.
  unfoldable pub post_screen : Text → Text → List TraceRow → Result ScreeningResult
  post_screen now context_digest traces =
      if not (is_hex 64 context_digest)
      then err bad_request
      else elim (get_trace_by_digest context_digest traces) [
        | none ↦ err not_found
        | some row ↦ ok (screen now row.trace_json)
      ]

module _ {Context : Type 0} (summarize_with : Context → Result IncidentSummary) where
  -- `createSummarizer`
  unfoldable pub summarize : Text → Context → IncidentSummary
  summarize now context = elim (summarize_with context) [
    | ok result ↦ record result { advisory = true }
    | err thrown ↦ record {
      bullets = codes "Summary unavailable due to a provider error." ∷ [];
      summary = codes "Summary generation failed. This is an advisory feature only.";
      advisory = true;
      generated_at = now;
    }
  ]
