-- ===== src/Store/Receipts/Laws.antt =====
-- About services/infra/src/store/receipts.ts: reads after writes, and a log indexed again.
use inspect_element.Prelude.{
  ℕ, ◌≡◌, ◌≢◌, refl, ap, sym, true, false, Option, none, some, List, arith, Bool-cases, inl, inr,
  ◌⊎◌, ◌∙◌,
}
use inspect_element.Prelude.Texts.{Text, text_eq_iff, text_eq_refl, not_text_eq, to_lower}
use inspect_element.Prelude.Results.{ok}
use inspect_element.Prelude.Tables.{
  upsert, any, find-upsert_self, find-upsert_ne, upsert_absorbs, any-upsert_ne, upserted,
}
use inspect_element.Store.Provider.{Provider, sqlite, supabase}
use inspect_element.Store.Receipts.{
  ReceiptRow, InsertReceiptInput, receipt_row, receipt_merge, has_receipt_id, receipt_clash,
  upsert_receipt, get_receipt,
}

receipt_id-merge :
    (provider : Provider) (row x : ReceiptRow)
    → (receipt_merge provider row x).receipt_id ≡ row.receipt_id
unfolding receipt_merge
receipt_id-merge sqlite row x = refl
receipt_id-merge supabase row x = refl

merge_keeps :
    (provider : Provider) (row x : ReceiptRow)
    → has_receipt_id row.receipt_id x ≡ true
    → has_receipt_id row.receipt_id (receipt_merge provider row x) ≡ true
merge_keeps provider row x h = rw (receipt_id-merge provider row x) (text_eq_refl row.receipt_id)

-- Other keys see neither the row before nor the row after.
merge_apart :
    (provider : Provider) (row : ReceiptRow) (key : Text) (x : ReceiptRow)
    → row.receipt_id ≢ key
    → has_receipt_id row.receipt_id x ≡ true
    → (has_receipt_id key x ≡ false) × (has_receipt_id key (receipt_merge provider row x) ≡ false)
merge_apart provider row key x ne h = ground (
  arith,
  text_eq_iff x.receipt_id row.receipt_id,
  text_eq_iff x.receipt_id key,
  text_eq_iff (receipt_merge provider row x).receipt_id key,
  receipt_id-merge provider row x,
)

-- The table after a write that was not refused.
upsert_receipt_ok :
    (provider : Provider) (now : ℕ) (i : InsertReceiptInput) (t : List ReceiptRow)
    → any (receipt_clash (receipt_row now i)) t ≡ false
    → let row = receipt_row now i in
      upsert_receipt provider now i t
      ≡ ok (upsert (has_receipt_id row.receipt_id) (receipt_merge provider row) row t)
unfolding upsert_receipt
upsert_receipt_ok provider now i t h = rw h

upsert_receipt_inv :
    (provider : Provider) (now : ℕ) (i : InsertReceiptInput) (t t' : List ReceiptRow)
    → upsert_receipt provider now i t ≡ ok t'
    → let row = receipt_row now i in
      ((any (receipt_clash row) t ≡ false)
        × (t' ≡ upsert (has_receipt_id row.receipt_id) (receipt_merge provider row) row t))
      ⊎ ((any (receipt_clash row) t ≡ true) × (provider ≡ supabase) × (t' ≡ t))
unfolding upsert_receipt
upsert_receipt_inv sqlite now i t t' h =
    elim (Bool-cases (any (receipt_clash (receipt_row now i)) t)) [
      | inl c ↦ absurd (cc (rw (c, upsert_receipt) at h))
      | inr c ↦ inl (c, ground arith)
    ]
upsert_receipt_inv supabase now i t t' h =
    elim (Bool-cases (any (receipt_clash (receipt_row now i)) t)) [
      | inl c ↦ inr (c, refl, ground arith)
      | inr c ↦ inl (c, ground arith)
    ]

pub row_key :
    (now : ℕ) (i : InsertReceiptInput) → (receipt_row now i).receipt_id ≡ to_lower i.receipt_id
unfolding receipt_row
row_key now i = refl

-- A receipt that is written is read back under its id, in any letter case: as the new row, or as the
-- merge of the new row into the one that was there.
get-upsert_receipt_self :
    (provider : Provider) (now : ℕ) (i : InsertReceiptInput) (t : List ReceiptRow)
    → any (receipt_clash (receipt_row now i)) t ≡ false
    → (t' : List ReceiptRow) × (upsert_receipt provider now i t ≡ ok t')
      × (get_receipt i.receipt_id t'
          ≡ some (
              upserted
                (receipt_merge provider (receipt_row now i))
                (receipt_row now i)
                (get_receipt i.receipt_id t)))
unfolding get_receipt receipt_row
get-upsert_receipt_self provider now i t h =
    let row = receipt_row now i in
    (
      upsert (has_receipt_id row.receipt_id) (receipt_merge provider row) row t,
      upsert_receipt_ok provider now i t h,
      find-upsert_self (has_receipt_id row.receipt_id) (receipt_merge provider row) row
          (text_eq_refl row.receipt_id) (merge_keeps provider row) t,
    )

-- A write leaves the read of every other receipt as it was.
pub get-upsert_receipt_ne :
    (provider : Provider) (now : ℕ) (i : InsertReceiptInput) (other : Text) (t t' : List ReceiptRow)
    → to_lower i.receipt_id ≢ to_lower other
    → upsert_receipt provider now i t ≡ ok t'
    → get_receipt other t' ≡ get_receipt other t
unfolding get_receipt
get-upsert_receipt_ne provider now i other t t' ne e =
    let row = receipt_row now i in
    let ne' : row.receipt_id ≢ to_lower other = rw row_key ne in
    elim (upsert_receipt_inv provider now i t t' e) [
      | inl (_, written) ↦ rw written (
          find-upsert_ne (has_receipt_id row.receipt_id) (has_receipt_id (to_lower other))
            (receipt_merge provider row) row (not_text_eq ne')
            (λ x. merge_apart provider row (to_lower other) x ne') t)
      | inr (_, _, same) ↦ rw same
    ]

no_self_clash :
    (row x : ReceiptRow) → has_receipt_id row.receipt_id x ≡ true → receipt_clash row x ≡ false
unfolding receipt_clash
no_self_clash row x h = ground arith

merge_again :
    (now later : ℕ) (i : InsertReceiptInput) (x : ReceiptRow)
    → receipt_merge sqlite (receipt_row later i) (receipt_merge sqlite (receipt_row now i) x)
      ≡ receipt_merge sqlite (receipt_row now i) x
unfolding receipt_merge receipt_row
merge_again now later i x = refl

clash_again :
    (now later : ℕ) (i : InsertReceiptInput) (t : List ReceiptRow)
    → let row = receipt_row now i in
      any
        (receipt_clash (receipt_row later i))
        (upsert (has_receipt_id row.receipt_id) (receipt_merge sqlite row) row t)
      ≡ any (receipt_clash row) t
unfolding receipt_row receipt_clash
clash_again now later i t =
    let row = receipt_row now i in
    any-upsert_ne (has_receipt_id row.receipt_id) (receipt_clash row) (receipt_merge sqlite row) row
      (no_self_clash row row (text_eq_refl row.receipt_id))
      (λ x h. (
        no_self_clash row x h,
        no_self_clash row (receipt_merge sqlite row x) (merge_keeps sqlite row x h),
      ))
      t

merge_new :
    (now later : ℕ) (i : InsertReceiptInput)
    → receipt_merge sqlite (receipt_row later i) (receipt_row now i) ≡ receipt_row now i
unfolding receipt_merge receipt_row
merge_new now later i = refl

replayed :
    (now later : ℕ) (i : InsertReceiptInput) (t : List ReceiptRow)
    → any (receipt_clash (receipt_row now i)) t ≡ false
    → let row = receipt_row now i in
      let t' = upsert (has_receipt_id row.receipt_id) (receipt_merge sqlite row) row t in
      upsert_receipt sqlite later i t' ≡ ok t'
unfolding receipt_row
replayed now later i t clear =
    let row = receipt_row now i in
    upsert_receipt_ok sqlite later i _ (clash_again now later i t ∙ clear)
    ∙ ap ok (
        upsert_absorbs (has_receipt_id row.receipt_id) (receipt_merge sqlite row) row
          (text_eq_refl row.receipt_id) (merge_keeps sqlite row)
          (receipt_merge sqlite (receipt_row later i)) (receipt_row later i)
          (merge_again now later i) (merge_new now later i) t)

-- The trace URI and the time of creation of a receipt that is written at `now` over the row that was
-- there: those of the row, and for a new receipt no URI, and `now`.
abbrev pub first_seen : ℕ → Option ReceiptRow → Option Text × ℕ
first_seen now none = (none, now)
first_seen now (some old) = (old.trace_uri, old.created_at)

abbrev pub seen : ReceiptRow → Option Text × ℕ
seen r = (r.trace_uri, r.created_at)

upserted-seen :
    (now : ℕ) (i : InsertReceiptInput) (o : Option ReceiptRow)
    → let row = receipt_row now i in
      seen (upserted (receipt_merge sqlite row) row o) ≡ first_seen now o
unfolding receipt_merge receipt_row
upserted-seen now i none = refl
upserted-seen now i (some old) = refl

read_back :
    (now : ℕ) (i : InsertReceiptInput) (t t' : List ReceiptRow)
    → any (receipt_clash (receipt_row now i)) t ≡ false
    → upsert_receipt sqlite now i t ≡ ok t'
    → (r : ReceiptRow) × (get_receipt i.receipt_id t' ≡ some r)
      × (seen r ≡ first_seen now (get_receipt i.receipt_id t))
read_back now i t t' clear e =
    let (table, written, read) = get-upsert_receipt_self sqlite now i t clear in
    let same : table ≡ t' = cc in
    let row = receipt_row now i in
    (
      upserted (receipt_merge sqlite row) row (get_receipt i.receipt_id t),
      ap (get_receipt i.receipt_id) (sym same) ∙ read,
      upserted-seen now i (get_receipt i.receipt_id t),
    )

-- Under SQLite a log that is indexed again, at any later time, leaves the table as it is. The receipt
-- is then read back with the trace URI and the `created_at` that its row had before the log was
-- indexed at all, and if it had no row, without a URI and with the time of the first indexing.
pub upsert_receipt_replay :
    (now later : ℕ) (i : InsertReceiptInput) (t t' : List ReceiptRow)
    → upsert_receipt sqlite now i t ≡ ok t'
    → (upsert_receipt sqlite later i t' ≡ ok t')
      × ((r : ReceiptRow) × (get_receipt i.receipt_id t' ≡ some r)
          × (seen r ≡ first_seen now (get_receipt i.receipt_id t)))
upsert_receipt_replay now later i t t' e = elim (upsert_receipt_inv sqlite now i t t' e) [
  | inr (_, wrong, _) ↦ absurd (cc wrong)
  | inl (clear, written) ↦ (rw written (replayed now later i t clear), read_back now i t t' clear e)
]
