-- ===== src/Prelude/Integers.antt =====
-- JavaScript's bigints: the library's ℤ over the native numbers, `BigInt(s)` and `toString(10)`.
use inspect_element.Prelude.{
  All, arith, ◌≡◌, refl, ℕ, zero, suc, ◌+◌, ◌-◌, ◌*◌, Bool, false, ◌&&◌, ◌||◌, Option, none, some,
  [], ◌∷◌, ltb, leb, ◌==◌, if◌then◌else◌,
}
use inspect_element.Prelude.Texts.{IsPlainUnit, Text, is_digit, to_decimal}

-- `negsuc n` is −(n + 1).
pub data ℤ : Type 0 where
  pos : ℕ → ℤ
  negsuc : ℕ → ℤ

unfoldable pub int_text : ℤ → Text
int_text (pos n) = to_decimal n
int_text (negsuc n) = b'-' ∷ to_decimal (n + 1)

-- `a > b`, where `b` is a uint256
abbrev pub exceeds : ℤ → ℕ → Bool
exceeds (pos n) b = ltb b n
exceeds (negsuc n) b = false

negated : ℕ → ℤ
negated zero = pos zero
negated (suc n) = negsuc n

-- The white space and line terminators of ECMAScript.
is_space : ℕ → Bool
is_space c =
    (leb 9 c && leb c 13)
    || (c == 32)
    || (c == 160)
    || (c == 5760)
    || (leb 8192 c && leb c 8202)
    || (c == 8232)
    || (c == 8233)
    || (c == 8239)
    || (c == 8287)
    || (c == 12288)
    || (c == 65279)

trim_start : Text → Text
unfolding is_space
trim_start [] = []
trim_start (c ∷ s) = let rest = trim_start s in if is_space c then rest else c ∷ s

-- What is left when the space at the end goes.
trim_end : Text → Text
unfolding is_space
trim_end [] = []
trim_end (c ∷ s) = elim (trim_end s) [ [] ↦ if is_space c then [] else c ∷ [] | d ∷ t ↦ c ∷ d ∷ t ]

-- `s.trim()`
unfoldable pub trim : Text → Text
unfolding trim_start trim_end
trim s = trim_end (trim_start s)

trim_end-plain : (s : Text) → All IsPlainUnit s → trim_end s ≡ s
unfolding trim_end is_space
trim_end-plain [] h = refl
trim_end-plain (c ∷ []) h = let (lo, hi) = h.0 in ground arith
trim_end-plain (c ∷ d ∷ s) h = rw (trim_end-plain (d ∷ s) h.1) refl

trim_start-plain : (s : Text) → All IsPlainUnit s → trim_start s ≡ s
unfolding trim_start is_space
trim_start-plain [] h = refl
trim_start-plain (c ∷ s) h = let (lo, hi) = h.0 in ground arith

pub trim-plain : (s : Text) → All IsPlainUnit s → trim s ≡ s
unfolding trim
trim-plain s h = rw (trim_start-plain s h) (trim_end-plain s h)

-- The value of a digit in any radix up to 16, or 16.
digit_value : ℕ → ℕ
unfolding is_digit
digit_value c =
    if is_digit c
    then c - b'0'
    else if leb b'a' c && leb c b'f'
    then c - b'a' + 10
    else if leb b'A' c && leb c b'F'
    then c - b'A' + 10
    else 16

digits_from : ℕ → ℕ → Text → Option ℕ
unfolding digit_value
digits_from radix acc [] = some acc
digits_from radix acc (c ∷ s) =
    let rest = digits_from radix (acc * radix + digit_value c) s in
    if ltb (digit_value c) radix then rest else none

-- One digit at least.
digits : ℕ → Text → Option ℕ
unfolding digits_from
digits radix [] = none
digits radix (c ∷ s) = digits_from radix 0 (c ∷ s)

abbrev signed : (ℕ → ℤ) → Option ℕ → Option ℤ
signed sign none = none
signed sign (some n) = some (sign n)

decimal_integer : Text → Option ℤ
unfolding digits negated
decimal_integer [] = some (pos 0)
decimal_integer (c ∷ s) =
    if c == b'-'
    then signed negated (digits 10 s)
    else if c == b'+'
    then signed (λ n. pos n) (digits 10 s)
    else signed (λ n. pos n) (digits 10 (c ∷ s))

literal : Text → Option ℤ
unfolding decimal_integer digits
literal (z ∷ x ∷ s) =
    if (z == b'0') && ((x == b'x') || (x == b'X'))
    then signed (λ n. pos n) (digits 16 s)
    else if (z == b'0') && ((x == b'o') || (x == b'O'))
    then signed (λ n. pos n) (digits 8 s)
    else if (z == b'0') && ((x == b'b') || (x == b'B'))
    then signed (λ n. pos n) (digits 2 s)
    else decimal_integer (z ∷ x ∷ s)
literal s = decimal_integer s

-- `BigInt(s)`; `none` where it throws a SyntaxError.
unfoldable pub big_int : Text → Option ℤ
unfolding trim literal
big_int s = literal (trim s)
