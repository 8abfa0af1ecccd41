-- ===== src/Canonical/Encode.antt =====
-- services/infra/src/canonical/json.ts
use inspect_element.Prelude.{Bool, true, false, List, [], ◌∷◌, ◌++◌, map, if◌then◌else◌}
use inspect_element.Prelude.Texts.{Text, codes}
use inspect_element.Prelude.Results.{Result, ok, err, ◌>>=◌, internal}
use inspect_element.Prelude.Tables.{order_by}
use inspect_element.Prelude.Integers.{int_text}
use inspect_element.Canonical.Value.{
  Json, null, undefined, boolean, integer, fraction, not_finite, bigint, string, array, object,
  Items, no_items, item, Entries, no_entries, entry, is_undefined, quote, text_less, join,
}

-- An entry with its value encoded.
abbrev pub Pair : Type 0
Pair = Text × Text

abbrev pub earlier : Pair → Pair → Bool
earlier a b = text_less a.0 b.0

unfoldable pub pair_text : Pair → Text
pair_text p = quote p.0 ++ b':' ∷ p.1

-- The entries in the order of their keys.
unfoldable pub object_text : List Pair → Text
unfolding pair_text
object_text ps = b'{' ∷ join (map pair_text (order_by earlier ps)) ++ b'}' ∷ []

unfoldable pub array_text : List Text → Text
array_text ts = b'[' ∷ join ts ++ b']' ∷ []

-- `encode`. A value is encoded before the entries are sorted, not after it, which no result shows,
-- as the one failure is the same for every value.
unfoldable mutual
  pub encode : Json → Result Text
  encode null = ok (codes "null")
  encode undefined = err internal
  encode (boolean true) = ok (codes "true")
  encode (boolean false) = ok (codes "false")
  encode (integer n) = ok (int_text n)
  encode (fraction t) = ok t
  encode not_finite = err internal
  encode (bigint n) = ok (quote (int_text n))
  encode (string s) = ok (quote s)
  encode (array vs) = encode_items vs >>= (λ ts. ok (array_text ts))
  encode (object es) = encode_entries es >>= (λ ps. ok (object_text ps))

  pub encode_items : Items → Result (List Text)
  -- `encode(v ?? null)`
  encode_items no_items = ok []
  encode_items (item v vs) =
      let here = if is_undefined v then ok (codes "null") else encode v in
      here >>= (λ t. encode_items vs >>= (λ ts. ok (t ∷ ts)))

  pub encode_entries : Entries → Result (List Pair)
  encode_entries no_entries = ok []
  encode_entries (entry k v es) =
      let rest = encode_entries es in
      if is_undefined v then rest else encode v >>= (λ t. rest >>= (λ ps. ok ((k, t) ∷ ps)))

abbrev pub canonicalize : Json → Result Text
canonicalize v = encode v
