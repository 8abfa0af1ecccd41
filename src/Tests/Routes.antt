-- ===== src/Tests/Routes.antt =====
-- The live feed, the manifests and the summaries at small inputs.
use inspect_element.Prelude.{◌≡◌, refl, true, Option, none, some, List, [], ◌∷◌}
use inspect_element.Prelude.Texts.{Text, codes, is_decimal, text_eq, to_lower, to_decimal}
use inspect_element.Prelude.Integers.{pos}
use inspect_element.Prelude.Results.{Result, ok, err, internal}
use inspect_element.Prelude.Tables.{find}
use inspect_element.Store.Provider.{sqlite}
use inspect_element.Store.Challenges.{ChallengeRow, filed, rejected}
use inspect_element.Store.Summaries.{SummaryResponse, get_cached_summary, cache_summary}
use inspect_element.Canonical.Manifest.{ManifestInput, number_input}
use inspect_element.Api.LiveFeed.{emit}
use inspect_element.Api.LiveFeed.Laws.{
  BusCall, subscribes, unsubscribes, count, run, abstract_run, emit-run,
}
use inspect_element.Api.Manifests.{PinnedManifest}
use inspect_element.Api.Summaries.{
  Gemini, response_of, summary_fallback, generate_summary, summarized, challenge_summary,
}
use inspect_element.Api.Summaries.Laws.{challenge_summary_again}
use inspect_element.Tests.Api.{hex}

abbrev bus_calls : List BusCall
bus_calls =
    subscribes (codes "0xAb") 1
    ∷ subscribes (codes "0xab") 1
    ∷ subscribes (codes "0xab") 2
    ∷ unsubscribes (codes "0xab") 2
    ∷ []

emit-run_example : count 1 (emit (codes "0xAB") (run bus_calls [])) ≡ 1
unfolding abstract_run to_lower text_eq
emit-run_example = emit-run bus_calls (codes "0xAB") 1

abbrev get_address : Text → Option Text
get_address t = some t

abbrev keccak : Text → Text
keccak t = hex 64 b'e'

abbrev pin : Text → Result Text
pin t = ok (codes "ipfs://m")

abbrev manifest : ManifestInput
manifest = record {
  owner = hex 40 b'1';
  token = hex 40 b'2';
  max_spend_per_tx = number_input (pos 10);
  max_spend_per_day = number_input (pos 20);
  allowed_counterparties = hex 40 b'3' ∷ [];
  expiry = number_input (pos 99);
  nonce = number_input (pos 0);
  metadata = none;
}

abbrev pinned : PinnedManifest
pinned = record { manifest_uri = codes "ipfs://m"; intent_hash = hex 64 b'e' }

abbrev down : Gemini
down = record {
  has_api_key = true;
  show = λ v. [];
  generate = λ prompt. err internal;
  parse = λ t. err internal;
}

abbrev up : Gemini
up = record down {
  parse = λ t. ok (record (summary_fallback inspect_element.Store.Summaries.challenge) {
    headline = codes "H";
  });
  generate = λ prompt. ok prompt;
}

abbrev filed_challenge : ChallengeRow
filed_challenge = record {
  challenge_id = 7;
  receipt_id = hex 64 b'a';
  challenger = hex 40 b'4';
  status = filed;
  payout = none;
  filed_block = 1;
  filed_tx = hex 64 b'5';
  filed_at = 10;
  resolved_block = none;
  resolved_tx = none;
  resolved_at = none;
}

abbrev unavailable_summary : SummaryResponse
unavailable_summary = response_of (summary_fallback inspect_element.Store.Summaries.challenge)

challenge_summary_runs :
    (challenge_summary sqlite down 5000 (codes "7") (filed_challenge ∷ []) []).answer
    ≡ ok unavailable_summary
unfolding challenge_summary is_decimal summarized get_cached_summary find generate_summary text_eq
    to_decimal
challenge_summary_runs = refl

-- The fallback is kept when the model is there again and the challenge is resolved.
challenge_summary_again_example :
    challenge_summary sqlite up 9000
      (codes "7")
      (record filed_challenge { status = rejected } ∷ [])
      (challenge_summary sqlite down 5000 (codes "7") (filed_challenge ∷ []) []).table
    ≡ record {
      table = (challenge_summary sqlite down 5000 (codes "7") (filed_challenge ∷ []) []).table;
      answer = ok unavailable_summary;
    }
challenge_summary_again_example =
    challenge_summary_again down up 5000 9000 (codes "7") (filed_challenge ∷ [])
      (record filed_challenge { status = rejected } ∷ []) [] unavailable_summary
      challenge_summary_runs
