-- ===== src/Canonical/Laws.antt =====
-- About services/infra/src/canonical/json.ts against packages/trace/src/serialize.ts.
use inspect_element.Prelude.{
  ◌+◌, ◌≡◌, refl, sym, ap, true, false, [], ◌∷◌, ◌++◌, All, arith, if◌then◌else◌, Bool-cases, inl,
  inr,
}
use inspect_element.Prelude.Texts.{codes, to_decimal-plain, IsPlainUnit}
use inspect_element.Prelude.Results.{ok, ◌>>=◌}
use inspect_element.Prelude.Integers.{ℤ, pos, negsuc, int_text}
use inspect_element.Canonical.Value.{
  Json, null, undefined, boolean, integer, fraction, not_finite, bigint, string, array, object,
  Items, no_items, item, Entries, no_entries, entry, quote, quote-plain, is_undefined,
}
use inspect_element.Canonical.Encode.{
  canonicalize, encode, encode_items, encode_entries, object_text, array_text,
}
use inspect_element.Canonical.Stringify.{stringify, stringify_items, stringify_entries}

int_text-plain : (n : ℤ) → All IsPlainUnit (int_text n)
unfolding int_text
int_text-plain (pos n) = to_decimal-plain n
int_text-plain (negsuc n) = ((omega arith, omega arith), to_decimal-plain (n + 1))

quote-int_text : (n : ℤ) → quote (int_text n) ≡ b'"' ∷ int_text n ++ b'"' ∷ []
quote-int_text n = quote-plain (int_text n) (int_text-plain n)

-- No key is undefined at any depth, nor the value itself, and every number is an integer.
unfoldable mutual
  pub IsIntegral : Json → Type 0
  IsIntegral undefined = ⊥
  IsIntegral (fraction t) = ⊥
  IsIntegral (array vs) = AreIntegral vs
  IsIntegral (object es) = AreKept es
  IsIntegral v = Unit

  pub AreIntegral : Items → Type 0
  AreIntegral no_items = Unit
  AreIntegral (item v vs) = (if is_undefined v then Unit else IsIntegral v) × AreIntegral vs

  pub AreKept : Entries → Type 0
  AreKept no_entries = Unit
  AreKept (entry k v es) = IsIntegral v × AreKept es

undefined_text : (v : Json) → is_undefined v ≡ true → stringify v ≡ ok (codes "null")
unfolding stringify
undefined_text undefined h = refl
undefined_text null h = refl
undefined_text (boolean b) h = cc
undefined_text (integer n) h = cc
undefined_text (fraction t) h = cc
undefined_text not_finite h = cc
undefined_text (bigint n) h = cc
undefined_text (string t) h = cc
undefined_text (array vs) h = cc
undefined_text (object es) h = cc

defined : (v : Json) → IsIntegral v → is_undefined v ≡ false
unfolding IsIntegral
defined undefined h = absurd h
defined null h = refl
defined (boolean b) h = refl
defined (integer n) h = refl
defined (fraction t) h = refl
defined not_finite h = refl
defined (bigint n) h = refl
defined (string t) h = refl
defined (array vs) h = refl
defined (object es) h = refl

item_text :
    (v : Json)
    → (if is_undefined v then Unit else IsIntegral v)
    → (IsIntegral v → encode v ≡ stringify v)
    → (if is_undefined v then ok (codes "null") else encode v) ≡ stringify v
item_text v h same = elim (Bool-cases (is_undefined v)) [
  | inl gone ↦ rw gone (sym (undefined_text v gone))
  | inr here ↦ rw here (same (rw here at h))
]

mutual
  unfolding IsIntegral encode stringify

  encode-stringify : (v : Json) → IsIntegral v → encode v ≡ stringify v
  encode-stringify undefined h = absurd h
  encode-stringify null h = refl
  encode-stringify (boolean true) h = refl
  encode-stringify (boolean false) h = refl
  encode-stringify (integer n) h = refl
  encode-stringify (fraction t) h = absurd h
  encode-stringify not_finite h = refl
  encode-stringify (bigint n) h = ap (λ t. ok t) (quote-int_text n)
  encode-stringify (string t) h = refl
  encode-stringify (array vs) h =
      ap (λ r. r >>= (λ ts. ok (array_text ts))) (encode_items-stringify vs h)
  encode-stringify (object es) h =
      ap (λ r. r >>= (λ ps. ok (object_text ps))) (encode_entries-stringify es h)

  encode_items-stringify : (vs : Items) → AreIntegral vs → encode_items vs ≡ stringify_items vs
  encode_items-stringify no_items h = refl
  encode_items-stringify (item v vs) h =
      let here : (if is_undefined v then ok (codes "null") else encode v) ≡ stringify v =
        item_text v h.0 (λ kept. encode-stringify v kept) in
      let rest = encode_items-stringify vs h.1 in
      λ i. here i >>= (λ t. rest i >>= (λ ts. ok (t ∷ ts)))

  encode_entries-stringify : (es : Entries) → AreKept es → encode_entries es ≡ stringify_entries es
  encode_entries-stringify no_entries h = refl
  encode_entries-stringify (entry k v es) h =
      let kept = defined v h.0 in
      let here = encode-stringify v h.0 in
      let rest = encode_entries-stringify es h.1 in
      rw (kept, encode_entries) (λ i. here i >>= (λ t. rest i >>= (λ ps. ok ((k, t) ∷ ps))))

pub canonicalize-stringify : (v : Json) → IsIntegral v → canonicalize v ≡ stringify v
canonicalize-stringify v h = encode-stringify v h
