-- ===== src/Tests/Screening.antt =====
-- The screeners at answers of a model out of bounds.
use inspect_element.Prelude.{ℕ, ◌≤◌, ◌↔◌, ◌≡◌, refl, true, false, ◌⊎◌, Bool, none, []}
use inspect_element.Prelude.Texts.{Text, codes, is_hex}
use inspect_element.Prelude.Integers.{pos}
use inspect_element.Prelude.Results.{Result, ok}
use inspect_element.Screening.Score.{
  finite, infinity, not_a_number, InRange, max_zero, min_with, reaches, accepts_between,
}
use inspect_element.Screening.Screener.{ScreeningResult, screen, low}
use inspect_element.Screening.Gemini.{
  GeminiScreenOutput, ScreenRequest, ScreenEnv, ScreenResponse, block, accepts_screen, screen_trace,
  post_screen,
}
use inspect_element.Screening.Laws.{screen-InRange, post_screen-InRange}
use inspect_element.Tests.Api.{hex}

abbrev parses : Text → Bool
parses t = true

abbrev provider : Text → Result ScreeningResult
provider t = ok (record {
  injection_score = infinity;
  signals = [];
  explanation = codes "e";
  advisory = false;
  screened_at = codes "2025";
})

screen-InRange_example :
    ((screen 10 parses provider (codes "now") (codes "{}")).advisory ≡ true)
    × (InRange 1000 (screen 10 parses provider (codes "now") (codes "{}")).injection_score
        ⊎ ((r : ScreeningResult) × (provider (codes "{}") ≡ ok r)
            × (r.injection_score ≡ not_a_number)))
screen-InRange_example = screen-InRange 10 parses provider (codes "now") (codes "{}")

screen_runs :
    (screen 10 parses provider (codes "now") (codes "{}")).injection_score ≡ finite (pos 1000)
unfolding screen max_zero min_with
screen_runs = refl

abbrev generate : Text → Result Text
generate prompt = ok (codes "{}")

abbrev parse : Text → Result GeminiScreenOutput
parse t = ok (record {
  injection_score = finite (pos 90);
  severity = low;
  signals = [];
  explanation = codes "e";
  recommended_action = block;
})

abbrev request : ScreenRequest
request = record {
  trace = codes "{}";
  context_digest = hex 64 b'1';
  owner = hex 40 b'2';
  agent_id = hex 64 b'3';
  proposed_action = codes "pay";
  intent_config = none;
}

abbrev env : ScreenEnv
env = record { has_api_key = true; hard_mode = true; hard_threshold = 80 }

abbrev response : ScreenResponse
response = record {
  output = record {
    injection_score = finite (pos 90);
    severity = low;
    signals = [];
    explanation = codes "e";
    recommended_action = block;
  };
  model = codes "gemini-2.5-flash";
  advisory_only = true;
  hard_mode_triggered = true;
}

post_screen_runs : post_screen 100 generate parse env request ≡ ok response
unfolding post_screen screen_trace accepts_screen accepts_between reaches is_hex
post_screen_runs = refl

post_screen-InRange_example :
    (response.advisory_only ≡ true)
    × InRange 100 response.output.injection_score
    × ((response.hard_mode_triggered ≡ true) ↔ (
        (env.hard_mode ≡ true)
        × ((n : ℕ) × (response.output.injection_score ≡ finite (pos n))
            × (env.hard_threshold ≤ n))))
post_screen-InRange_example =
    post_screen-InRange 100 generate parse env request response post_screen_runs
