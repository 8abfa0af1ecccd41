-- ===== src/Tests/Canonical.antt =====
-- The canonical serializers at a small value.
use inspect_element.Prelude.{◌≡◌, refl, true}
use inspect_element.Prelude.Texts.{codes, text_eq, text_ne}
use inspect_element.Prelude.Results.{ok}
use inspect_element.Prelude.Integers.{pos}
use inspect_element.Prelude.Tables.{order_by, insert_by}
use inspect_element.Canonical.Value.{
  Json, boolean, integer, undefined, bigint, string, array, object, no_items, item, no_entries,
  entry, quote, join, text_less,
}
use inspect_element.Canonical.Encode.{canonicalize, encode, array_text, object_text, pair_text}
use inspect_element.Canonical.Order.{objects, swap, canonicalize-Reordered}

abbrev amounts : Json
amounts = object (
    entry (codes "token") (string (codes "0x05")) (
      entry (codes "amount") (array (item (integer (pos 15)) (item (bigint (pos 3)) no_items)))
        no_entries))

canonicalize-Reordered_example :
    canonicalize (
      object (entry (codes "b") (boolean true) (entry (codes "a") (string (codes "x")) no_entries)))
    ≡ ok (codes "{\"a\":\"x\",\"b\":true}")
unfolding text_eq encode object_text quote join order_by insert_by text_less pair_text
canonicalize-Reordered_example =
    canonicalize-Reordered (codes "{\"a\":\"x\",\"b\":true}")
      (objects (
        swap {v = string (codes "x")} {w = boolean true} {es = no_entries}
          (text_ne (codes "a") (codes "b") refl)))
      refl

canonicalize_runs :
    canonicalize (
      object (
        entry
          (codes "b")
          (array (item (boolean true) (item undefined no_items)))
          (entry (codes "a") (string (codes "x")) (entry (codes "c") undefined no_entries))))
    ≡ ok (codes "{\"a\":\"x\",\"b\":[true,null]}")
unfolding encode object_text array_text quote join order_by text_less pair_text
canonicalize_runs = refl
