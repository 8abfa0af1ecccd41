-- ===== src/Prelude/Texts.antt =====
-- JavaScript strings as lists of UTF-16 code units, with the operations that the sources use of them.
use Prim.Native.Char.{code}
use Prim.Native.String.{String}
use inspect_element.Prelude.{
  ℕ, zero, suc, ◌+◌, ◌-◌, ◌*◌, ◌/◌, ◌%◌, ◌≤◌, All, Bool-cases, inl, inr, ltb, ◌≡◌, ◌∙◌, ap, refl,
  ◌≢◌, ◌↔◌, Bool, true, false, Option, none, some, ◌&&◌, ◌||◌, List, [], ◌∷◌, map, arith, leb, ◌==◌,
  if◌then◌else◌,
}

abbrev pub Text : Type 0
Text = List ℕ

-- The code units of a literal of the source (its characters all lie in the basic plane).
abbrev pub codes : String → Text
codes String.[] = []
codes (String.◌∷◌ c s) = code c ∷ codes s

-- `===` on strings
unfoldable pub text_eq : Text → Text → Bool
text_eq [] [] = true
text_eq (a ∷ s) (b ∷ t) = (a == b) && text_eq s t
text_eq _ _ = false

pub text_eq_iff : (s t : Text) → (text_eq s t ≡ true) ↔ (s ≡ t)
unfolding text_eq
text_eq_iff [] [] = (λ _. refl, λ _. refl)
text_eq_iff [] (b ∷ t) = (λ h. cc, λ h. cc)
text_eq_iff (a ∷ s) [] = (λ h. cc, λ h. cc)
text_eq_iff (a ∷ s) (b ∷ t) = ground (arith, text_eq_iff s t)

pub text_eq_refl : (s : Text) → text_eq s s ≡ true
text_eq_refl s = (text_eq_iff s s).1 refl

-- Texts that compare as different are different.
pub text_ne : (s t : Text) → text_eq s t ≡ false → s ≢ t
text_ne s t h e = absurd (cc ((text_eq_iff s t).1 e, h))

pub text_eq_sym : (s t : Text) → text_eq s t ≡ text_eq t s
unfolding text_eq
text_eq_sym [] [] = refl
text_eq_sym [] (b ∷ t) = refl
text_eq_sym (a ∷ s) [] = refl
text_eq_sym (a ∷ s) (b ∷ t) = ground (arith, text_eq_sym s t)

pub not_text_eq : {s t : Text} → s ≢ t → text_eq s t ≡ false
not_text_eq {s} {t} ne = ground (arith, text_eq_iff s t)

lower_unit : ℕ → ℕ
lower_unit c = if leb b'A' c && leb c b'Z' then c + 32 else c

-- `s.toLowerCase()` of ASCII text, such as the hexadecimal identifiers of the program.
unfoldable pub to_lower : Text → Text
unfolding lower_unit
to_lower s = map lower_unit s

lower_unit_idem : (c : ℕ) → lower_unit (lower_unit c) ≡ lower_unit c
unfolding lower_unit
lower_unit_idem c = ground arith

pub to_lower_idem : (s : Text) → to_lower (to_lower s) ≡ to_lower s
unfolding to_lower
to_lower_idem [] = refl
to_lower_idem (c ∷ s) = cc (lower_unit_idem c, to_lower_idem s)

-- `!s` for a string
abbrev pub is_empty : Text → Bool
is_empty [] = true
is_empty (c ∷ s) = false

unfoldable pub is_digit : ℕ → Bool
is_digit c = leb b'0' c && leb c b'9'

pub is_hex_digit : ℕ → Bool
unfolding is_digit
is_hex_digit c = is_digit c || (leb b'a' c && leb c b'f') || (leb b'A' c && leb c b'F')

every : (ℕ → Bool) → Text → Bool
every p [] = true
every p (c ∷ s) = p c && every p s

-- /^\d+$/
unfoldable pub is_decimal : Text → Bool
unfolding every is_digit
is_decimal [] = false
is_decimal (c ∷ s) = every is_digit (c ∷ s)

-- exactly `n` hexadecimal digits
hex_count : ℕ → Text → Bool
hex_count zero [] = true
hex_count zero (c ∷ s) = false
hex_count (suc n) [] = false
hex_count (suc n) (c ∷ s) = is_hex_digit c && hex_count n s

-- /^0x[0-9a-fA-F]{n}$/
unfoldable pub is_hex : ℕ → Text → Bool
unfolding hex_count is_hex_digit
is_hex n (z ∷ x ∷ s) = (z == b'0') && (x == b'x') && hex_count n s
is_hex n _ = false

-- /^0x[0-9a-fA-F]*$/
unfoldable pub is_hex_data : Text → Bool
unfolding every is_hex_digit
is_hex_data (z ∷ x ∷ s) = (z == b'0') && (x == b'x') && every is_hex_digit s
is_hex_data _ = false

-- `s.startsWith(p) ? s.slice(p.length) : null`
unfoldable pub after_prefix : Text → Text → Option Text
after_prefix [] s = some s
after_prefix (a ∷ p) [] = none
after_prefix (a ∷ p) (c ∷ s) = if a == c then after_prefix p s else none

decimal_from : ℕ → Text → ℕ
decimal_from acc [] = acc
decimal_from acc (c ∷ s) = decimal_from (acc * 10 + (c - b'0')) s

-- `BigInt(s)` of a text of decimal digits
unfoldable pub decimal : Text → ℕ
unfolding decimal_from
decimal s = decimal_from 0 s

-- `n.toString(10)`, its last digits collected so far in `acc`; fewer than `n` divisions are needed.
decimal_digits : ℕ → ℕ → Text → Text
decimal_digits zero n acc = (b'0' + n) ∷ acc
decimal_digits (suc fuel) n acc =
    if ltb n 10 then (b'0' + n) ∷ acc else decimal_digits fuel (n / 10) ((b'0' + n % 10) ∷ acc)

unfoldable pub to_decimal : ℕ → Text
unfolding decimal_digits
to_decimal n = decimal_digits n n []

-- A digit or the sign.
abbrev pub IsPlainUnit : ℕ → Type 0
IsPlainUnit c = (45 ≤ c) × (c ≤ 57)

decimal_digits-plain :
    (fuel n : ℕ) (acc : Text)
    → n ≤ fuel
    → All IsPlainUnit acc
    → All IsPlainUnit (decimal_digits fuel n acc)
unfolding decimal_digits
decimal_digits-plain zero n acc le h = ((omega arith, omega arith), h)
decimal_digits-plain (suc fuel) n acc le h = elim (Bool-cases (ltb n 10)) [
  | inl small ↦ rw small ((omega arith, ground arith), h)
  | inr large ↦ rw large (
      decimal_digits-plain fuel (n / 10) ((b'0' + n % 10) ∷ acc) (ground arith)
        ((omega arith, omega arith), h))
]

pub to_decimal-plain : (n : ℕ) → All IsPlainUnit (to_decimal n)
unfolding to_decimal
to_decimal-plain n = decimal_digits-plain n n [] (omega arith) tt

decimal_from-digits :
    (fuel n : ℕ) (acc : Text)
    → n ≤ fuel
    → decimal_from 0 (decimal_digits fuel n acc) ≡ decimal_from n acc
unfolding decimal_from decimal_digits
decimal_from-digits zero n acc le =
    let e : 0 * 10 + (b'0' + n - b'0') ≡ n = omega arith in ap (λ k. decimal_from k acc) e
decimal_from-digits (suc fuel) n acc le = elim (Bool-cases (ltb n 10)) [
  | inl small ↦
      rw small
        (let e : 0 * 10 + (b'0' + n - b'0') ≡ n = omega arith in ap (λ k. decimal_from k acc) e)
  | inr large ↦ rw large (
      decimal_from-digits fuel (n / 10) ((b'0' + n % 10) ∷ acc) (ground arith)
      ∙ (let e : n / 10 * 10 + (b'0' + n % 10 - b'0') ≡ n = omega arith in
          ap (λ k. decimal_from k acc) e))
]

-- Printing a number and reading it gives it back.
pub decimal-to_decimal : (n : ℕ) → decimal (to_decimal n) ≡ n
unfolding decimal to_decimal decimal_from
decimal-to_decimal n = decimal_from-digits n n [] (omega arith)

every-digits :
    (fuel n : ℕ) (acc : Text)
    → n ≤ fuel
    → every is_digit acc ≡ true
    → is_decimal (decimal_digits fuel n acc) ≡ true
unfolding is_decimal every is_digit decimal_digits
every-digits zero n acc le h = ground arith
every-digits (suc fuel) n acc le h = elim (Bool-cases (ltb n 10)) [
  | inl small ↦ rw small (ground arith)
  | inr large ↦
      rw large (every-digits fuel (n / 10) ((b'0' + n % 10) ∷ acc) (ground arith) (ground arith))
]

pub is_decimal-to_decimal : (n : ℕ) → is_decimal (to_decimal n) ≡ true
unfolding to_decimal every
is_decimal-to_decimal n = every-digits n n [] (omega arith) refl
