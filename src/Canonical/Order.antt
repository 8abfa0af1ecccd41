-- ===== src/Canonical/Order.antt =====
-- About services/infra/src/canonical/json.ts: the order of object entries.
use inspect_element.Prelude.{
  ◌≡◌, refl, sym, ap, ◌∙◌, subst, ◌≢◌, Bool, true, false, List, [], ◌∷◌, arith, if◌then◌else◌,
  Bool-cases, inl, inr,
}
use inspect_element.Prelude.Texts.{Text, codes}
use inspect_element.Prelude.Results.{Result, ok, err, ◌>>=◌, split_bind}
use inspect_element.Prelude.Tables.{order_by, insert_by}
use inspect_element.Canonical.Value.{
  Json, array, object, Items, no_items, item, Entries, no_entries, entry, is_undefined, text_less,
}
use inspect_element.Canonical.Encode.{
  Pair, earlier, canonicalize, encode, encode_items, encode_entries, object_text, array_text,
}

text_less_asym : (s t : Text) → text_less s t ≡ true → text_less t s ≡ false
unfolding text_less
text_less_asym [] [] h = cc
text_less_asym [] (d ∷ t) h = refl
text_less_asym (c ∷ s) [] h = cc
text_less_asym (c ∷ s) (d ∷ t) h = ground (arith, text_less_asym s t)

text_less_total : (s t : Text) → text_less s t ≡ false → text_less t s ≡ false → s ≡ t
unfolding text_less
text_less_total [] [] h k = refl
text_less_total [] (d ∷ t) h k = cc
text_less_total (c ∷ s) [] h k = cc
text_less_total (c ∷ s) (d ∷ t) h k = ground (arith, text_less_total s t)

-- From `q ≤ y` and `y < p`.
text_less_trans :
    (q y p : Text) → text_less y q ≡ false → text_less y p ≡ true → text_less q p ≡ true
unfolding text_less
text_less_trans [] [] (e ∷ p) h k = refl
text_less_trans [] (d ∷ y) (e ∷ p) h k = refl
text_less_trans q [] [] h k = cc
text_less_trans q (d ∷ y) [] h k = cc
text_less_trans (c ∷ q) [] (e ∷ p) h k = cc
text_less_trans (c ∷ q) (d ∷ y) (e ∷ p) h k = ground (arith, text_less_trans q y p)

-- Two pairs with different keys may be inserted in either order.
insert_by_comm :
    (p q : Pair) (s : List Pair)
    → p.0 ≢ q.0
    → insert_by earlier p (insert_by earlier q s) ≡ insert_by earlier q (insert_by earlier p s)
unfolding insert_by
insert_by_comm p q [] ne = ground (arith, text_less_asym p.0 q.0, text_less_total p.0 q.0)
insert_by_comm p q (y ∷ ys) ne = ground (
  arith,
  insert_by_comm p q ys ne,
  text_less_asym p.0 q.0,
  text_less_total p.0 q.0,
  text_less_trans q.0 y.0 p.0,
  text_less_trans p.0 y.0 q.0,
)

-- `Reordered v w`: `w` is `v` with the entries of its objects, at any depth, in another order.
mutual
  pub data Reordered : Json → Json → Type 0 where
    same : {v : Json} → Reordered v v
    arrays : {vs ws : Items} → ReorderedItems vs ws → Reordered (array vs) (array ws)
    objects : {es fs : Entries} → ReorderedEntries es fs → Reordered (object es) (object fs)

  pub data ReorderedItems : Items → Items → Type 0 where
    none_left : ReorderedItems no_items no_items
    next :
        {v w : Json} {vs ws : Items}
        → Reordered v w
        → ReorderedItems vs ws
        → ReorderedItems (item v vs) (item w ws)

  pub data ReorderedEntries : Entries → Entries → Type 0 where
    finished : ReorderedEntries no_entries no_entries
    keep :
        {k : Text} {v w : Json} {es fs : Entries}
        → Reordered v w
        → ReorderedEntries es fs
        → ReorderedEntries (entry k v es) (entry k w fs)
    swap :
        {k l : Text} {v w : Json} {es : Entries}
        → k ≢ l
        → ReorderedEntries (entry k v (entry l w es)) (entry l w (entry k v es))
    chain :
        {es fs gs : Entries}
        → ReorderedEntries es fs
        → ReorderedEntries fs gs
        → ReorderedEntries es gs

Reordered-undefined : {v w : Json} → Reordered v w → is_undefined v ≡ is_undefined w
Reordered-undefined same = refl
Reordered-undefined (arrays r) = refl
Reordered-undefined (objects r) = refl

-- Encoded entries that differ in their order only.
abbrev Sorts : Result (List Pair) → List Pair → Type 0
Sorts r ps = (qs : List Pair) × (r ≡ ok qs) × (order_by earlier ps ≡ order_by earlier qs)

-- What an entry adds to the entries after it.
abbrev push : Text → Bool → Result Text → Result (List Pair) → Result (List Pair)
push k true t rest = rest
push k false t rest = t >>= (λ t. rest >>= (λ ps. ok ((k, t) ∷ ps)))

encode_entries-push :
    (k : Text) (v : Json) (es : Entries)
    → encode_entries (entry k v es) ≡ push k (is_undefined v) (encode v) (encode_entries es)
unfolding encode
encode_entries-push k v es = elim (Bool-cases (is_undefined v)) [
  | inl gone ↦ rw (gone, encode_entries) refl
  | inr here ↦ rw (here, encode_entries) refl
]

two_entries :
    (k l : Text) (v w : Json) (es : Entries)
    → encode_entries (entry k v (entry l w es))
      ≡ push k (is_undefined v) (encode v) (push l (is_undefined w) (encode w) (encode_entries es))
two_entries k l v w es =
    encode_entries-push k v (entry l w es)
    ∙ ap (push k (is_undefined v) (encode v)) (encode_entries-push l w es)

push_swap :
    (k l : Text)
    → k ≢ l
    → (a b : Bool) (t u : Result Text) (rest : Result (List Pair)) (ps : List Pair)
    → push k a t (push l b u rest) ≡ ok ps
    → Sorts (push l b u (push k a t rest)) ps
unfolding order_by
push_swap k l ne true b t u rest ps e = (ps, e, refl)
push_swap k l ne false true t u rest ps e = (ps, e, refl)
push_swap k l ne false false (ok t) (ok u) (ok qs) ps e =
    let eq : (k, t) ∷ (l, u) ∷ qs ≡ ps = cc in
    (
      (l, u) ∷ (k, t) ∷ qs,
      refl,
      ap (order_by earlier) (sym eq) ∙ insert_by_comm (k, t) (l, u) (order_by earlier qs) ne,
    )
push_swap k l ne false false (ok t) (ok u) (err f) ps e = cc
push_swap k l ne false false (ok t) (err f) rest ps e = cc
push_swap k l ne false false (err f) u rest ps e = cc

-- An entry in front of entries that are reordered.
push_keep :
    (k : Text) (a : Bool) (t u : Result Text) (rest rest' : Result (List Pair)) (ps : List Pair)
    → ((x : Text) → t ≡ ok x → u ≡ ok x)
    → ((qs : List Pair) → rest ≡ ok qs → Sorts rest' qs)
    → push k a t rest ≡ ok ps
    → Sorts (push k a u rest') ps
unfolding order_by
push_keep k true t u rest rest' ps f g e = g ps e
push_keep k false (ok t) u (ok qs) rest' ps f g e =
    let (rs, done, sorts) = g qs refl in
    let eq : (k, t) ∷ qs ≡ ps = cc in
    (
      (k, t) ∷ rs,
      rw (f t refl) (rw done refl),
      ap (order_by earlier) (sym eq) ∙ ap (insert_by earlier (k, t)) sorts,
    )
push_keep k false (ok t) u (err x) rest' ps f g e = cc
push_keep k false (err x) u rest rest' ps f g e = cc

kept_text :
    (v w : Json) (t : Text)
    → (encode v ≡ ok t → encode w ≡ ok t)
    → is_undefined v ≡ is_undefined w
    → (if is_undefined v then ok (codes "null") else encode v) ≡ ok t
    → (if is_undefined w then ok (codes "null") else encode w) ≡ ok t
kept_text v w t f eq e = elim (Bool-cases (is_undefined v)) [
  | inl gone ↦ rw (sym eq) (rw gone (rw gone at e))
  | inr here ↦ rw (sym eq) (rw here (f (rw here at e)))
]

mutual
  unfolding encode object_text

  encode-Reordered : {v w : Json} (t : Text) → Reordered v w → encode v ≡ ok t → encode w ≡ ok t
  encode-Reordered t same e = e
  encode-Reordered t (arrays {vs = vs} r) e =
      let (ts, each, whole) = split_bind (encode_items vs) (λ ts. ok (array_text ts)) e in
      rw (encode_items-Reordered ts r each) whole
  encode-Reordered t (objects {es = es} r) e =
      let (ps, each, whole) = split_bind (encode_entries es) (λ ps. ok (object_text ps)) e in
      let (qs, other, sorts) = encode_entries-Reordered ps r each in rw other (rw (sym sorts) whole)

  encode_items-Reordered :
      {vs ws : Items} (ts : List Text)
      → ReorderedItems vs ws
      → encode_items vs ≡ ok ts
      → encode_items ws ≡ ok ts
  encode_items-Reordered ts none_left e = e
  encode_items-Reordered ts (next {v = v} {w = w} {vs = vs} {ws = ws} r rs) e =
      let (t, here, more) =
        split_bind (if is_undefined v then ok (codes "null") else encode v)
          (λ t. encode_items vs >>= (λ ts. ok (t ∷ ts))) e in
      let (us, rest, whole) = split_bind (encode_items vs) (λ ts. ok (t ∷ ts)) more in
      let first : (if is_undefined w then ok (codes "null") else encode w) ≡ ok t =
        kept_text v w t (λ d. encode-Reordered t r d) (Reordered-undefined r) here in
      rw first (rw (encode_items-Reordered us rs rest) whole)

  encode_entries-Reordered :
      {es fs : Entries} (ps : List Pair)
      → ReorderedEntries es fs
      → encode_entries es ≡ ok ps
      → Sorts (encode_entries fs) ps
  encode_entries-Reordered ps finished e = (ps, e, refl)
  encode_entries-Reordered ps (keep {k = k} {v = v} {w = w} {es = es} {fs = fs} r rs) e =
      subst (λ m. Sorts m ps)
        (ap (λ a. push k a (encode w) (encode_entries fs)) (Reordered-undefined r)
          ∙ sym (encode_entries-push k w fs))
        (push_keep k (is_undefined v) (encode v) (encode w) (encode_entries es) (encode_entries fs)
          ps (λ t d. encode-Reordered t r d) (λ qs d. encode_entries-Reordered qs rs d)
          (sym (encode_entries-push k v es) ∙ e))
  encode_entries-Reordered ps (swap {k = k} {l = l} {v = v} {w = w} {es = es} ne) e =
      subst (λ m. Sorts m ps) (sym (two_entries l k w v es))
        (push_swap k l ne (is_undefined v) (is_undefined w) (encode v) (encode w)
          (encode_entries es) ps (sym (two_entries k l v w es) ∙ e))
  encode_entries-Reordered ps (chain r rs) e =
      let (qs, first, sorts) = encode_entries-Reordered ps r e in
      let (qs', second, sorts') = encode_entries-Reordered qs rs first in
      (qs', second, sorts ∙ sorts')

-- Whatever the order in which the entries of its objects, at any depth, are written, a value that has
-- a canonical text keeps it.
pub canonicalize-Reordered :
    {v w : Json} (t : Text) → Reordered v w → canonicalize v ≡ ok t → canonicalize w ≡ ok t
canonicalize-Reordered t r e = encode-Reordered t r e
