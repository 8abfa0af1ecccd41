-- ===== src/Api/Summaries.antt =====
-- services/infra/src/gemini/summarize.ts: summaries of receipts and challenges, made once and kept;
-- and generateSummary of gemini/client.ts.
pub mod Laws
use inspect_element.Prelude.{
  ℕ, Bool, true, false, not, Option, none, some, List, [], ◌∷◌, ◌++◌, if◌then◌else◌,
}
use inspect_element.Prelude.Texts.{Text, codes, text_eq, is_hex, is_decimal, to_decimal}
use inspect_element.Prelude.Integers.{pos}
use inspect_element.Prelude.Results.{Result, ok, err, ◌>>=◌, bad_request, not_found}
use inspect_element.Prelude.Tables.{find}
use inspect_element.Canonical.Value.{Json, null, integer, string, object, no_entries, entry}
use inspect_element.Store.Provider.{Provider}
use inspect_element.Store.Receipts.{ReceiptRow, get_receipt}
use inspect_element.Store.Challenges.{ChallengeRow, ChallengeStatus, filed, upheld, rejected}
use inspect_element.Store.Summaries.{
  SummaryKind, receipt, challenge, SummaryResponse, SummaryRow, get_cached_summary, cache_summary,
}

-- `GeminiSummaryOutput`
pub record SummaryOutput : Type 0 where
  pub headline : Text
  pub summary_bullets : List Text
  pub risk_assessment : Text
  pub why_it_was_allowed_or_blocked : Text
  pub recommended_reviewer_focus : List Text

abbrev text_or_null : Option Text → Json
text_or_null none = null
text_or_null (some t) = string t

unfoldable pub receipt_evidence : ReceiptRow → Json
receipt_evidence r = object (
    entry (codes "receiptId") (string r.receipt_id) (
      entry (codes "owner") (string r.owner) (
        entry (codes "agentId") (string r.agent_id) (
          entry (codes "intentHash") (string r.intent_hash) (
            entry (codes "target") (string r.target) (
              entry (codes "token") (string r.token) (
                entry (codes "amount") (string (to_decimal r.amount)) (
                  entry (codes "contextDigest") (string r.context_digest) (
                    entry (codes "traceUri") (text_or_null r.trace_uri) (
                      entry (codes "timestamp") (integer (pos r.ts))
                        (entry (codes "txHash") (string r.tx_hash) no_entries)))))))))))

abbrev status_text : ChallengeStatus → Text
status_text filed = codes "FILED"
status_text upheld = codes "UPHELD"
status_text rejected = codes "REJECTED"

abbrev number_or_null : Option ℕ → Json
number_or_null none = null
number_or_null (some n) = integer (pos n)

abbrev decimal_or_null : Option ℕ → Json
decimal_or_null none = null
decimal_or_null (some n) = string (to_decimal n)

unfoldable pub challenge_evidence : ChallengeRow → Json
challenge_evidence c = object (
    entry (codes "challengeId") (string (to_decimal c.challenge_id)) (
      entry (codes "receiptId") (string c.receipt_id) (
        entry (codes "status") (string (status_text c.status)) (
          entry (codes "challenger") (string c.challenger) (
            entry (codes "filedAt") (integer (pos c.filed_at)) (
              entry (codes "resolvedAt") (number_or_null c.resolved_at)
                (entry (codes "payout") (decimal_or_null c.payout) no_entries)))))))

abbrev kind_title : SummaryKind → Text
kind_title receipt = codes "Receipt"
kind_title challenge = codes "Challenge"

abbrev kind_word : SummaryKind → Text
kind_word receipt = codes "receipt"
kind_word challenge = codes "challenge"

unfoldable pub summary_fallback : SummaryKind → SummaryOutput
summary_fallback kind = record {
  headline = kind_title kind ++ codes " summary unavailable";
  summary_bullets =
      codes "Gemini advisory service is currently unavailable."
      ∷ codes "Deterministic on-chain guardrails remain authoritative."
      ∷ codes "Review the raw evidence fields below for manual assessment."
      ∷ [];
  risk_assessment = codes "Unable to assess — Gemini unavailable. Defer to deterministic system.";
  why_it_was_allowed_or_blocked =
      codes
        "The deterministic policy engine made this decision based on on-chain intent parameters. See the receipt and trace data for specifics.";
  recommended_reviewer_focus =
      codes "Verify the amount against the committed intent cap"
      ∷ codes "Check counterparty against the allowlist"
      ∷ codes "Review the trace for anomalies manually"
      ∷ [];
}

abbrev or_fallback : SummaryKind → Result SummaryOutput → SummaryOutput
or_fallback kind (ok o) = o
or_fallback kind (err thrown) = summary_fallback kind

abbrev summary_instructions : Text
summary_instructions =
    codes
      "\n\nYour summary should:\n- Provide a clear headline\n- List key facts as bullet points\n- Assess the risk level\n- Explain why the deterministic system allowed or blocked this action\n- Suggest what a reviewer should focus on\n- NEVER make policy decisions — you are advisory only\n- NEVER recommend changing on-chain outcomes"

-- The parts of an answer.
abbrev pub response_of : SummaryOutput → SummaryResponse
response_of o = record {
  headline = o.headline;
  summary_bullets = o.summary_bullets;
  risk_assessment = o.risk_assessment;
  why_it_was_allowed_or_blocked = o.why_it_was_allowed_or_blocked;
  recommended_reviewer_focus = o.recommended_reviewer_focus;
  advisory_only = true;
  model = codes "gemini-2.5-flash";
}

-- The table after the request, and the answer.
pub record Summarized : Type 0 where
  pub table : List SummaryRow
  pub answer : Result SummaryResponse

-- What the process has of the model: `show` is `JSON.stringify` with an indent of two, `generate` the
-- call of the model with a prompt, and `parse` `JSON.parse` with the check of the schema.
pub record Gemini : Type 0 where
  pub has_api_key : Bool
  pub show : Json → Text
  pub generate : Text → Result Text
  pub parse : Text → Result SummaryOutput

unfoldable pub build_summary_prompt : SummaryKind → Text → Text
build_summary_prompt kind evidence =
    codes
      "You are an advisory summarizer for IntentGuard, an agentic payment guardrail system.\n\nSummarize the following "
    ++ kind_word kind
    ++ codes " evidence in plain English for judges, reviewers, and risk teams.\n\nEvidence:\n"
    ++ evidence
    ++ summary_instructions

unfoldable pub generate_summary : Gemini → SummaryKind → Json → SummaryOutput
generate_summary g kind evidence =
    if not g.has_api_key
    then summary_fallback kind
    else or_fallback kind
        (g.generate (build_summary_prompt kind (g.show evidence)) >>= λ text. g.parse text)

-- The part of a handler after the check of its parameter; `evidence` is `none` where nothing is found.
unfoldable pub summarized :
    Provider → Gemini → ℕ → SummaryKind → Text → Option Json → List SummaryRow → Summarized
summarized provider g now kind id evidence table =
    elim (get_cached_summary provider kind id table) [
      | some cached ↦ record { table = table; answer = ok cached }
      | none ↦ elim evidence [
        | none ↦ record { table = table; answer = err not_found }
        | some e ↦
            let response = response_of (generate_summary g kind e) in
            record {
              table = cache_summary provider now kind id response table;
              answer = ok response;
            }
      ]
    ]

abbrev pub receipt_found : Option ReceiptRow → Option Json
receipt_found none = none
receipt_found (some r) = some (receipt_evidence r)

abbrev pub challenge_found : Option ChallengeRow → Option Json
challenge_found none = none
challenge_found (some c) = some (challenge_evidence c)

-- GET /v1/receipts/:receiptId/summary
unfoldable pub receipt_summary :
    Provider → Gemini → ℕ → Text → List ReceiptRow → List SummaryRow → Summarized
receipt_summary provider g now receipt_id receipts table =
    if not (is_hex 64 receipt_id)
    then record { table = table; answer = err bad_request }
    else summarized provider g now receipt receipt_id
        (receipt_found (get_receipt receipt_id receipts)) table

-- GET /v1/challenges/:challengeId/summary; the column of the id is text.
unfoldable pub challenge_summary :
    Provider → Gemini → ℕ → Text → List ChallengeRow → List SummaryRow → Summarized
challenge_summary provider g now challenge_id challenges table =
    if not (is_decimal challenge_id)
    then record { table = table; answer = err bad_request }
    else summarized provider g now challenge challenge_id
        (challenge_found (find (λ c. text_eq (to_decimal c.challenge_id) challenge_id) challenges))
        table
