-- ===== src/Tests/Texts.antt =====
-- The shared text functions at small inputs.
use inspect_element.Prelude.{◌≡◌, refl, true, none, some}
use inspect_element.Prelude.Texts.{codes, to_lower, decimal, is_hex, to_decimal}
use inspect_element.Prelude.Integers.{pos, negsuc, big_int}
use inspect_element.Canonical.Value.{quote}

lower_hex : to_lower (codes "0xAbC9") ≡ codes "0xabc9"
unfolding to_lower
lower_hex = refl

decimal_runs : decimal (codes "0042") ≡ 42
unfolding decimal
decimal_runs = refl

hex_runs : is_hex 4 (codes "0xAb09") ≡ true
unfolding is_hex
hex_runs = refl

to_decimal_runs : to_decimal 1205 ≡ codes "1205"
unfolding to_decimal
to_decimal_runs = refl

big_int_runs : big_int (codes " -12 ") ≡ some (negsuc 11)
unfolding big_int
big_int_runs = refl

big_int_hex : big_int (codes "0xfF") ≡ some (pos 255)
unfolding big_int
big_int_hex = refl

big_int_fails : big_int (codes "1.5") ≡ none
unfolding big_int
big_int_fails = refl

quote_runs : quote (codes "a\"\n") ≡ codes "\"a\\\"\\n\""
unfolding quote
quote_runs = refl
