-- ===== src/Api/Summaries/Laws.antt =====
-- About services/infra/src/gemini/summarize.ts: a summary is made once.
use inspect_element.Prelude.{ℕ, ◌/◌, ◌≡◌, refl, ap, ◌∙◌, true, Option, none, some, List, arith}
use inspect_element.Prelude.Texts.{Text, text_eq, to_decimal, text_eq_refl, to_lower}
use inspect_element.Prelude.Results.{ok}
use inspect_element.Prelude.Tables.{upserted, find-upsert_self, find}
use inspect_element.Canonical.Value.{Json, null}
use inspect_element.Store.Provider.{sqlite}
use inspect_element.Store.Receipts.{ReceiptRow, get_receipt}
use inspect_element.Store.Challenges.{ChallengeRow}
use inspect_element.Store.Summaries.{
  SummaryKind, receipt, challenge, SummaryResponse, SummaryRow, is_reference, renewed, kind_eq,
  summary_of, get_cached_summary, cache_summary,
}
use inspect_element.Api.Summaries.{
  Gemini, response_of, generate_summary, summarized, receipt_found, challenge_found,
  receipt_summary, challenge_summary,
}

kind_eq_refl : (k : SummaryKind) → kind_eq k k ≡ true
kind_eq_refl receipt = refl
kind_eq_refl challenge = refl

summary-upserted :
    (row : SummaryRow) (o : Option SummaryRow)
    → summary_of (some (upserted (renewed row) row o)) ≡ some row.summary
summary-upserted row none = refl
summary-upserted row (some old) = refl

get-cache :
    (now : ℕ) (kind : SummaryKind) (id : Text) (s : SummaryResponse) (t : List SummaryRow)
    → get_cached_summary sqlite kind id (cache_summary sqlite now kind id s t) ≡ some s
unfolding get_cached_summary cache_summary
get-cache now kind id s t =
    let row : SummaryRow = record {
      kind = kind;
      reference_id = to_lower id;
      summary = s;
      created_at = now / 1000;
    } in
    let p = is_reference kind (to_lower id) in
    let fits : p row ≡ true = rw (kind_eq_refl kind) (text_eq_refl (to_lower id)) in
    ap summary_of (find-upsert_self p (renewed row) row fits (λ old h. h) t)
    ∙ summary-upserted row (find p t)

abbrev given : Option Json → Json
given none = null
given (some e) = e

summarized-cached :
    (g : Gemini) (now : ℕ) (kind : SummaryKind) (id : Text) (e : Option Json) (t : List SummaryRow)
    (s : SummaryResponse)
    → (summarized sqlite g now kind id e t).answer ≡ ok s
    → get_cached_summary sqlite kind id (summarized sqlite g now kind id e t).table ≡ some s
unfolding summarized
summarized-cached g now kind id e t s h =
    ground (arith, get-cache now kind id (response_of (generate_summary g kind (given e))) t)

summarized-again :
    (g : Gemini) (now : ℕ) (kind : SummaryKind) (id : Text) (e : Option Json) (t : List SummaryRow)
    (s : SummaryResponse)
    → get_cached_summary sqlite kind id t ≡ some s
    → summarized sqlite g now kind id e t ≡ record { table = t; answer = ok s }
unfolding summarized
summarized-again g now kind id e t s h = ground arith

-- Under SQLite a summary that has been answered for a receipt is answered again to every later request
-- for it, whatever the model then says and whatever the tables then hold.
receipt_summary_again :
    (g later_g : Gemini) (now later : ℕ) (id : Text) (receipts later_receipts : List ReceiptRow)
    (t : List SummaryRow) (s : SummaryResponse)
    → (receipt_summary sqlite g now id receipts t).answer ≡ ok s
    → receipt_summary sqlite later_g later id later_receipts
        (receipt_summary sqlite g now id receipts t).table
      ≡ record { table = (receipt_summary sqlite g now id receipts t).table; answer = ok s }
unfolding receipt_summary
receipt_summary_again g later_g now later id receipts later_receipts t s h =
    let made = summarized sqlite g now receipt id (receipt_found (get_receipt id receipts)) t in
    ground (
      arith,
      summarized-cached g now receipt id (receipt_found (get_receipt id receipts)) t s,
      summarized-again later_g later receipt id (receipt_found (get_receipt id later_receipts))
          made.table s,
    )

-- Under SQLite a summary that has been answered for a challenge is answered again to every later request
-- for it, whatever the model then says, and also where the challenge has been resolved since; the kept
-- summaries stay as they are.
pub challenge_summary_again :
    (g later_g : Gemini) (now later : ℕ) (id : Text)
    (challenges later_challenges : List ChallengeRow) (t : List SummaryRow) (s : SummaryResponse)
    → (challenge_summary sqlite g now id challenges t).answer ≡ ok s
    → challenge_summary sqlite later_g later id later_challenges
        (challenge_summary sqlite g now id challenges t).table
      ≡ record { table = (challenge_summary sqlite g now id challenges t).table; answer = ok s }
unfolding challenge_summary
challenge_summary_again g later_g now later id challenges later_challenges t s h =
    let seen = challenge_found (find (λ c. text_eq (to_decimal c.challenge_id) id) challenges) in
    let later_seen =
      challenge_found (find (λ c. text_eq (to_decimal c.challenge_id) id) later_challenges) in
    let made = summarized sqlite g now challenge id seen t in
    ground (
      arith,
      summarized-cached g now challenge id seen t s,
      summarized-again later_g later challenge id later_seen made.table s,
    )
