-- ===== src/Trace/Keys.antt =====
-- Objects with the same keys: what sorting by key makes of their pairs.
use inspect_element.Prelude.{
  ℕ, ◌+◌, ◌≤◌, ◌<◌, ◌≡◌, refl, sym, ap, ◌∙◌, Bool, true, ◌&&◌, List, [], ◌∷◌, arith, if◌then◌else◌,
  Bool-cases, inl, inr, ◌==◌, subst,
}
use inspect_element.Prelude.Texts.{Text, text_eq, text_eq_iff, text_eq_refl}
use inspect_element.Prelude.Results.{ok, split_bind}
use inspect_element.Prelude.Tables.{order_by, insert_by}
use inspect_element.Canonical.Value.{Json, Entries, no_entries, entry, text_less}
use inspect_element.Canonical.Encode.{Pair, earlier}
use inspect_element.Canonical.Stringify.{stringify, stringify_entries}
use inspect_element.Trace.Validation.{keys, get, sorted, same_texts}
use inspect_element.Trace.Serialize.{pick}

pub same_texts-eq : (s t : List Text) → same_texts s t ≡ true → s ≡ t
unfolding same_texts
same_texts-eq [] [] h = refl
same_texts-eq [] (b ∷ t) h = cc
same_texts-eq (a ∷ s) [] h = cc
same_texts-eq (a ∷ s) (b ∷ t) h = ground (arith, text_eq_iff a b, same_texts-eq s t)

-- How often a key stands in a list.
abbrev pub times : Text → List Text → ℕ
times k [] = 0
times k (l ∷ ls) = (if text_eq l k then 1 else 0) + times k ls

times-insert_by :
    (k l : Text) (ls : List Text)
    → times k (insert_by text_less l ls) ≡ (if text_eq l k then 1 else 0) + times k ls
unfolding insert_by
times-insert_by k l [] = refl
times-insert_by k l (m ∷ ls) = ground (arith, times-insert_by k l ls)

pub times-sorted : (k : Text) (ls : List Text) → times k (sorted ls) ≡ times k ls
unfolding order_by
times-sorted k [] = refl
times-sorted k (l ∷ ls) = omega (arith, times-insert_by k l (sorted ls), times-sorted k ls)

-- No key stands twice.
abbrev pub Distinct : List Text → Type 0
Distinct ls = (k : Text) → times k ls ≤ 1

unfoldable pub distinct : List Text → Bool
distinct [] = true
distinct (l ∷ ls) = (times l ls == 0) && distinct ls

pub distinct-Distinct : (ls : List Text) → distinct ls ≡ true → Distinct ls
unfolding distinct
distinct-Distinct [] h k = omega arith
distinct-Distinct (l ∷ ls) h k =
    ground (arith, distinct-Distinct ls, text_eq_iff l k, distinct-Distinct ls (ground arith) k)

-- The text of a key among pairs.
abbrev pub at : Text → List Pair → Text
at k [] = []
at k (p ∷ ps) = if text_eq p.0 k then p.1 else at k ps

abbrev pub names : List Pair → List Text
names [] = []
names (p ∷ ps) = p.0 ∷ names ps

abbrev pub with_text : (Text → Text) → List Text → List Pair
with_text f [] = []
with_text f (k ∷ ks) = (k, f k) ∷ with_text f ks

with_text-insert_by :
    (f : Text → Text) (k : Text) (ks : List Text)
    → insert_by earlier (k, f k) (with_text f ks) ≡ with_text f (insert_by text_less k ks)
unfolding insert_by
with_text-insert_by f k [] = refl
with_text-insert_by f k (l ∷ ks) = ground (arith, with_text-insert_by f k ks)

pub with_text-same :
    (f g : Text → Text) (ks : List Text)
    → ((k : Text) → 0 < times k ks → f k ≡ g k)
    → with_text f ks ≡ with_text g ks
with_text-same f g [] h = refl
with_text-same f g (k ∷ ks) h =
    let here : f k ≡ g k = h k (ground (arith, text_eq_refl k)) in
    let rest : with_text f ks ≡ with_text g ks = with_text-same f g ks (λ l m. h l (omega arith)) in
    cc

-- Pairs with distinct keys, sorted, are those of the sorted keys.
pub order_by-with_text :
    (ps : List Pair)
    → Distinct (names ps)
    → order_by earlier ps ≡ with_text (λ k. at k ps) (sorted (names ps))
unfolding order_by
order_by-with_text [] d = refl
order_by-with_text (p ∷ ps) d =
    let rest : Distinct (names ps) = λ k. omega (arith, d k) in
    let ks = sorted (names ps) in
    let later : (k : Text) → 0 < times k ks → at k ps ≡ at k (p ∷ ps) =
      λ k h. ground (arith, d k, times-sorted k (names ps)) in
    let tail =
      order_by-with_text ps rest ∙ with_text-same (λ k. at k ps) (λ k. at k (p ∷ ps)) ks later in
    let own : at p.0 (p ∷ ps) ≡ p.1 = ground (arith, text_eq_refl p.0) in
    ap (insert_by earlier p) tail
    ∙ ap (λ t. insert_by earlier (p.0, t) (with_text (λ k. at k (p ∷ ps)) ks)) (sym own)
    ∙ with_text-insert_by (λ k. at k (p ∷ ps)) p.0 ks

names-with_text : (f : Text → Text) (ks : List Text) → names (with_text f ks) ≡ ks
names-with_text f [] = refl
names-with_text f (k ∷ ks) = ap (λ ls. k ∷ ls) (names-with_text f ks)

at-with_text :
    (f : Text → Text) (k : Text) (ks : List Text) → 0 < times k ks → at k (with_text f ks) ≡ f k
at-with_text f k [] h = absurd (omega arith)
at-with_text f k (l ∷ ks) h = ground (arith, text_eq_iff l k, at-with_text f k ks)

-- The pairs of an object whose values have texts.
stringify_entries-names :
    (es : Entries) (ps : List Pair) → stringify_entries es ≡ ok ps → names ps ≡ keys es
unfolding stringify_entries
stringify_entries-names no_entries ps h = ground arith
stringify_entries-names (entry k v es) ps h =
    let (t, here, more) = split_bind (stringify v) _ h in
    let (qs, rest, whole) = split_bind (stringify_entries es) _ more in
    let e : (k, t) ∷ qs ≡ ps = ground arith in
    ap names (sym e) ∙ ap (λ ls. k ∷ ls) (stringify_entries-names es qs rest)

at-get :
    (k l : Text) (v : Json) (es : Entries) (t : Text) (qs : List Pair)
    → stringify v ≡ ok t
    → (0 < times k (keys es) → stringify (get k es) ≡ ok (at k qs))
    → 0 < times k (l ∷ keys es)
    → stringify (get k (entry l v es)) ≡ ok (at k ((l, t) ∷ qs))
at-get k l v es t qs here rest m = elim (Bool-cases (text_eq l k)) [
  | inl hit ↦ rw hit here
  | inr miss ↦ rw miss (rest (ground arith))
]

stringify_entries-get :
    (k : Text) (es : Entries) (ps : List Pair)
    → stringify_entries es ≡ ok ps
    → 0 < times k (keys es)
    → stringify (get k es) ≡ ok (at k ps)
unfolding stringify_entries
stringify_entries-get k no_entries ps h m = absurd (omega arith)
stringify_entries-get k (entry l v es) ps h m =
    let (t, here, more) = split_bind (stringify v) _ h in
    let (qs, rest, whole) = split_bind (stringify_entries es) _ more in
    let e : (l, t) ∷ qs ≡ ps = ground arith in
    subst (λ ps. stringify (get k (entry l v es)) ≡ ok (at k ps)) e
      (at-get k l v es t qs here (stringify_entries-get k es qs rest) m)

stringify_entries-pick :
    (f : Text → Text) (es : Entries) (ks : List Text)
    → ((k : Text) → 0 < times k ks → stringify (get k es) ≡ ok (f k))
    → stringify_entries (pick ks es) ≡ ok (with_text f ks)
unfolding stringify_entries
stringify_entries-pick f es [] h = refl
stringify_entries-pick f es (k ∷ ks) h =
    let here = h k (ground (arith, text_eq_refl k)) in
    let rest = stringify_entries-pick f es ks (λ l m. h l (omega arith)) in rw here (rw rest refl)

-- The fields of these names, when they are all that the object has.
pub stringify_entries-pick_all :
    (ks : List Text) (es : Entries) (ps : List Pair)
    → Distinct ks
    → sorted (keys es) ≡ sorted ks
    → stringify_entries es ≡ ok ps
    → (qs : List Pair) × (stringify_entries (pick ks es) ≡ ok qs)
      × (order_by earlier qs ≡ order_by earlier ps)
stringify_entries-pick_all ks es ps d same h =
    let f = λ (k : Text). at k ps in
    let named : names ps ≡ keys es = stringify_entries-names es ps h in
    let count : (k : Text) → times k (keys es) ≡ times k ks =
      λ k. sym (times-sorted k (keys es)) ∙ ap (times k) same ∙ times-sorted k ks in
    let found : (k : Text) → 0 < times k ks → stringify (get k es) ≡ ok (f k) =
      λ k m. stringify_entries-get k es ps h (omega (arith, count k)) in
    let own : Distinct (names (with_text f ks)) = subst Distinct (sym (names-with_text f ks)) d in
    let theirs : Distinct (names ps) = λ k. omega (arith, d k, count k, ap (times k) named) in
    (
      with_text f ks,
      stringify_entries-pick f es ks found,
      order_by-with_text (with_text f ks) own
          ∙ ap (λ ls. with_text (λ k. at k (with_text f ks)) (sorted ls)) (names-with_text f ks)
          ∙ with_text-same (λ k. at k (with_text f ks)) f (sorted ks)
              (λ k m. at-with_text f k ks (omega (arith, times-sorted k ks)))
          ∙ ap (with_text f) (sym same)
          ∙ ap (λ ls. with_text f (sorted ls)) (sym named)
          ∙ sym (order_by-with_text ps theirs),
    )
