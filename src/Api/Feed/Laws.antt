-- ===== src/Api/Feed/Laws.antt =====
-- About services/infra/src/api/feed.ts, and its receipt view against
-- services/infra/src/api/challenges-prepare.ts.
use inspect_element.Prelude.{
  ℕ, ◌+◌, ◌≤◌, ◌<◌, ◌≡◌, refl, sym, ◌∙◌, ap, ◌↔◌, Bool, true, false, ◌&&◌, Option, none, some, List,
  [], ◌∷◌, ◌++◌, ◌||◌, map, take, length, length-take, arith, leb, Bool-cases, Option-cases, inl,
  inr,
}
use inspect_element.Prelude.Texts.{Text, to_lower, is_hex}
use inspect_element.Prelude.Results.{ok, ◌>>=◌}
use inspect_element.Prelude.Tables.{order_by, any}
use inspect_element.Prelude.Sorting.{
  Descending, order_by-Descending, take-Descending, order_by-any, order_by-length, take-any,
  take_all,
}
use inspect_element.Store.Receipts.{ReceiptRow, get_receipt, list_receipts_by_owner}
use inspect_element.Store.Manifests.{ManifestRow, get_manifest_by_hash}
use inspect_element.Store.Challenges.{
  ChallengeRow, ChallengeStatus, filed, upheld, rejected, find_challenge_by_receipt,
  list_challenges_by_owner,
}
use inspect_element.Store.Intents.{IntentRow, list_intents_by_owner}
use inspect_element.Store.Blocked.{BlockedRow, BlockedTable, list_blocked_by_owner}
use inspect_element.Api.Prepare.{
  ReadModel, Deployment, PrepareBody, prepare_amount, prepare_ineligible, standing, stands,
}
use inspect_element.Api.Feed.{
  FeedEntry, challenge_entry, intent_entry, blocked_entry, show_receipt, timestamp, newer_entry,
  or_else, feed_entries, get_feed, overspend, is_challengeable, get_receipt_detail,
}

ok_inj : {a b : Bool} → ok a ≡ ok b → a ≡ b
ok_inj h = cc

abbrev pub IsRejectedOrNone : Option ChallengeRow → Type 0
IsRejectedOrNone none = Unit
IsRejectedOrNone (some c) = c.status ≡ rejected

stands_status : (s : ChallengeStatus) → (standing s ≡ false) ↔ (s ≡ rejected)
stands_status filed = (λ h. cc, λ h. cc)
stands_status upheld = (λ h. cc, λ h. cc)
stands_status rejected = (λ h. refl, λ h. refl)

stands_iff : (o : Option ChallengeRow) → (stands o ≡ false) ↔ IsRejectedOrNone o
stands_iff none = (λ h. tt, λ h. refl)
stands_iff (some c) = stands_status c.status

module _ (encode : Text → Text) (d : Deployment) (chain_id now_sec : ℕ) (db : ReadModel)
    (body : PrepareBody) (r : ReceiptRow) (valid : is_hex 64 body.receipt_id ≡ true)
    (addressed : is_hex 40 body.challenger ≡ true)
    (found : get_receipt body.receipt_id db.receipts ≡ some r) where
  -- The four tests of the preparation, in its order, are the conjunction that the view computes.
  prepare_amount-is_challengeable :
      (prepare_amount encode (some d) chain_id now_sec db body >>= (λ x. ok x.eligible))
      ≡ ok (is_challengeable (some d) now_sec db r)
  unfolding prepare_amount is_challengeable overspend prepare_ineligible
  prepare_amount-is_challengeable =
      rw (valid, addressed, found)
        (elim (Option-cases (get_manifest_by_hash r.intent_hash db.manifests)) [
          | inl missing ↦ rw missing (ground arith)
          | inr (m, pinned) ↦ rw pinned (ground arith)
        ])

  is_challengeable_iff : (is_challengeable (some d) now_sec db r ≡ true) ↔ (
      ((m : ManifestRow) × (get_manifest_by_hash r.intent_hash db.manifests ≡ some m)
        × (m.max_spend_per_tx < r.amount))
      × ((now_sec < r.ts + d.challenge_window_sec)
          × (stands (find_challenge_by_receipt r.receipt_id db.challenges) ≡ false)))
  unfolding is_challengeable overspend
  is_challengeable_iff = elim (Option-cases (get_manifest_by_hash r.intent_hash db.manifests)) [
    | inl missing ↦ rw missing (λ h. absurd cc, λ ((m, pinned, _), _). absurd cc)
    | inr (m, pinned) ↦ rw pinned (
      λ h. ((m, refl, ground arith), (ground arith, ground arith)),
      λ ((m', same, over), (in_time, free)).
          let eq : m ≡ m' = cc in
          let over' : m.max_spend_per_tx < r.amount = rw eq over in ground arith,
    )
  ]

  -- Of an indexed receipt, asked for by a well-formed request at one time and in one state of the
  -- tables, the receipt view says `challengeable` exactly where the preparation says `eligible`.
  pub prepare_amount-get_receipt_detail :
      (prepare_amount encode (some d) chain_id now_sec db body >>= (λ x. ok x.eligible))
      ≡ (get_receipt_detail (some d) now_sec db body.receipt_id >>= (λ x. ok x.challengeable))
  unfolding get_receipt_detail
  prepare_amount-get_receipt_detail = prepare_amount-is_challengeable ∙ rw (valid, found) refl

  -- What eligibility of an indexed receipt means: its manifest is pinned and allows less than was
  -- spent, the window is still open, and the newest challenge against the receipt, if there is one, is
  -- rejected. Older challenges are not asked for.
  pub prepare_amount-eligible :
      ((prepare_amount encode (some d) chain_id now_sec db body >>= (λ x. ok x.eligible)) ≡ ok true)
      ↔ (((m : ManifestRow) × (get_manifest_by_hash r.intent_hash db.manifests ≡ some m)
            × (m.max_spend_per_tx < r.amount))
          × ((now_sec < r.ts + d.challenge_window_sec)
              × IsRejectedOrNone (find_challenge_by_receipt r.receipt_id db.challenges)))
  prepare_amount-eligible = (
    λ h.
        let (over, (in_time, free)) =
          is_challengeable_iff.0 (ok_inj (sym prepare_amount-is_challengeable ∙ h)) in
        (over, (in_time, (stands_iff _).0 free)),
    λ (over, (in_time, free)).
        prepare_amount-is_challengeable
        ∙ ap (λ b. ok b) (is_challengeable_iff.1 (over, (in_time, (stands_iff _).1 free))),
  )

any-append {ℓ} :
    {A : Type ℓ} (p : A → Bool) (xs ys : List A) → any p (xs ++ ys) ≡ (any p xs || any p ys)
unfolding any
any-append p [] ys = refl
any-append p (x ∷ xs) ys = ground (arith, any-append p xs ys)

any-map {ℓ ℓ'} :
    {A : Type ℓ} {B : Type ℓ'} (p : B → Bool) (f : A → B) (xs : List A)
    → any p (map f xs) ≡ any (λ x. p (f x)) xs
unfolding any
any-map p f [] = refl
any-map p f (x ∷ xs) = ground (arith, any-map p f xs)

any-parts :
    (p : FeedEntry → Bool) (f : ReceiptRow → FeedEntry) (rs : List ReceiptRow)
    (cs : List ChallengeRow) (is : List IntentRow) (bs : List BlockedRow)
    → any p (map f rs ++ map challenge_entry cs ++ map intent_entry is ++ map blocked_entry bs) ≡ (
        any (λ r. p (f r)) rs
        || any (λ c. p (challenge_entry c)) cs
        || any (λ i. p (intent_entry i)) is
        || any (λ b. p (blocked_entry b)) bs)
any-parts p f rs cs is bs =
    let rows = map f rs in
    let challenges = map challenge_entry cs in
    let shown = map intent_entry is in
    let attempts = map blocked_entry bs in
    let last = any-append p (rows ++ challenges ++ shown) attempts in
    let third = any-append p (rows ++ challenges) shown in
    let second = any-append p rows challenges in
    let e1 = any-map p f rs in
    let e2 = any-map p challenge_entry cs in
    let e3 = any-map p intent_entry is in let e4 = any-map p blocked_entry bs in cc

module _ (deployment : Option Deployment) (now_sec : ℕ) (db : ReadModel) (intents : List IntentRow)
    (blocked : BlockedTable) (owner : Text) (limit : Option ℕ) (es : List FeedEntry)
    (answer : get_feed deployment now_sec db intents blocked owner limit ≡ ok es) where
  abbrev collected : List FeedEntry
  collected =
      feed_entries deployment now_sec db intents blocked (to_lower owner) (or_else limit 100)

  answered : es ≡ take (or_else limit 100) (order_by newer_entry collected)
  unfolding get_feed
  answered =
      elim (Bool-cases
        (is_hex 40 owner && (leb 1 (or_else limit 100) && leb (or_else limit 100) 500))) [
          | inl fine ↦ let e : ok _ ≡ ok es = rw (fine, get_feed) at answer in cc
          | inr bad ↦ absurd (cc (rw (bad, get_feed) at answer))
        ]

  -- A feed that is answered is in order of time, the newest entry first, and not over the limit.
  pub get_feed-Descending : Descending timestamp es × (length es ≤ or_else limit 100)
  get_feed-Descending = rw answered (
    take-Descending timestamp _ _ (order_by-Descending timestamp collected),
    omega (arith, length-take (or_else limit 100) (order_by newer_entry collected)),
  )

  -- A test that holds of some entry of an answered feed holds of the entry of some listed row.
  get_feed_sound : (p : FeedEntry → Bool) → any p es ≡ true → any p collected ≡ true
  get_feed_sound p h =
      sym (order_by-any newer_entry p collected)
      ∙ take-any p (or_else limit 100) (order_by newer_entry collected)
          (ap (any p) (sym answered) ∙ h)

  -- When the rows listed are not over the limit together, the feed has an entry for each of them, of
  -- the receipts, of the challenges, of the intents and of the blocked attempts, and no other: a test
  -- holds of some entry exactly if it holds of the entry of some row of the four lists.
  pub get_feed_complete :
      (p : FeedEntry → Bool)
      → length collected ≤ or_else limit 100
      → any p es ≡ (
          any
            (λ r. p (show_receipt deployment now_sec db intents blocked r))
            (list_receipts_by_owner (to_lower owner) (or_else limit 100) db.receipts)
          || any
              (λ c. p (challenge_entry c))
              (list_challenges_by_owner
                (to_lower owner)
                (or_else limit 100)
                db.receipts
                db.challenges)
          || any
              (λ i. p (intent_entry i))
              (list_intents_by_owner (to_lower owner) (or_else limit 100) intents)
          || any
              (λ b. p (blocked_entry b))
              (list_blocked_by_owner (some (to_lower owner)) (or_else limit 100) blocked))
  unfolding feed_entries
  get_feed_complete p few =
      ap (any p) (
        answered
        ∙ take_all (or_else limit 100) (order_by newer_entry collected)
            (omega (arith, order_by-length newer_entry collected)))
      ∙ order_by-any newer_entry p collected
      ∙ any-parts p (show_receipt deployment now_sec db intents blocked)
          (list_receipts_by_owner (to_lower owner) (or_else limit 100) db.receipts)
          (list_challenges_by_owner (to_lower owner) (or_else limit 100) db.receipts db.challenges)
          (list_intents_by_owner (to_lower owner) (or_else limit 100) intents)
          (list_blocked_by_owner (some (to_lower owner)) (or_else limit 100) blocked)
