-- ===== src/Canonical/Stringify.antt =====
-- `canonicalStringify` of packages/trace/src/serialize.ts
use inspect_element.Prelude.{true, false, List, [], ◌∷◌, ◌++◌}
use inspect_element.Prelude.Texts.{Text, codes}
use inspect_element.Prelude.Results.{Result, ok, err, ◌>>=◌, internal}
use inspect_element.Prelude.Integers.{int_text}
use inspect_element.Canonical.Value.{
  Json, null, undefined, boolean, integer, fraction, not_finite, bigint, string, array, object,
  Items, no_items, item, Entries, no_entries, entry, quote,
}
use inspect_element.Canonical.Encode.{Pair, object_text, array_text}

unfoldable mutual
  pub stringify : Json → Result Text
  stringify null = ok (codes "null")
  stringify undefined = ok (codes "null")
  stringify (boolean true) = ok (codes "true")
  stringify (boolean false) = ok (codes "false")
  stringify (integer n) = ok (int_text n)
  stringify (fraction t) = err internal
  stringify not_finite = err internal
  stringify (bigint n) = ok (b'"' ∷ int_text n ++ b'"' ∷ [])
  stringify (string s) = ok (quote s)
  stringify (array vs) = stringify_items vs >>= (λ ts. ok (array_text ts))
  stringify (object es) = stringify_entries es >>= (λ ps. ok (object_text ps))

  pub stringify_items : Items → Result (List Text)
  stringify_items no_items = ok []
  stringify_items (item v vs) = stringify v >>= (λ t. stringify_items vs >>= (λ ts. ok (t ∷ ts)))

  pub stringify_entries : Entries → Result (List Pair)
  stringify_entries no_entries = ok []
  stringify_entries (entry k v es) =
      stringify v >>= (λ t. stringify_entries es >>= (λ ps. ok ((k, t) ∷ ps)))
