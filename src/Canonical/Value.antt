-- ===== src/Canonical/Value.antt =====
-- JavaScript values as the two canonical serializers take them, and `JSON.stringify` of a string.
use inspect_element.Prelude.{
  ℕ, ◌+◌, ◌-◌, ◌/◌, ◌%◌, ◌≡◌, refl, All, arith, Bool, true, false, ◌&&◌, Option, none, some, List,
  [], ◌∷◌, ◌++◌, ltb, leb, ◌==◌, if◌then◌else◌,
}
use inspect_element.Prelude.Texts.{Text, codes, IsPlainUnit}
use inspect_element.Prelude.Integers.{ℤ}

-- `integer` is a number with an integral value below 10 ^ 21, which prints all its digits;
-- `fraction` is any other finite number, by the text that `JSON.stringify` gives of it;
-- `undefined` may stand in an array or under a key.
mutual
  pub data Json : Type 0 where
    null : Json
    undefined : Json
    boolean : Bool → Json
    integer : ℤ → Json
    fraction : Text → Json
    not_finite : Json
    bigint : ℤ → Json
    string : Text → Json
    array : Items → Json
    object : Entries → Json

  pub data Items : Type 0 where
    no_items : Items
    item : Json → Items → Items

  pub data Entries : Type 0 where
    no_entries : Entries
    entry : Text → Json → Entries → Entries

abbrev pub is_undefined : Json → Bool
is_undefined undefined = true
is_undefined v = false

hex_unit : ℕ → ℕ
hex_unit n = if ltb n 10 then b'0' + n else b'a' + (n - 10)

unicode_escape : ℕ → Text
unfolding hex_unit
unicode_escape c =
    codes "\\u"
    ++ hex_unit (c / 4096)
      ∷ hex_unit (c / 256 % 16)
      ∷ hex_unit (c / 16 % 16)
      ∷ hex_unit (c % 16)
      ∷ []

is_high : ℕ → Bool
is_high c = leb 55296 c && leb c 56319

is_low : ℕ → Bool
is_low c = leb 56320 c && leb c 57343

-- A code unit that is no surrogate.
escaped_unit : ℕ → Text
unfolding unicode_escape
escaped_unit c =
    if c == b'"'
    then codes "\\\""
    else if c == b'\\'
    then codes "\\\\"
    else if c == 8
    then codes "\\b"
    else if c == 9
    then codes "\\t"
    else if c == 10
    then codes "\\n"
    else if c == 12
    then codes "\\f"
    else if c == 13
    then codes "\\r"
    else if ltb c 32
    then unicode_escape c
    else c ∷ []

-- `held` is a high surrogate that waits for its other half; one without it is escaped.
escaped : Option ℕ → Text → Text
unfolding escaped_unit unicode_escape is_high is_low
escaped none [] = []
escaped (some h) [] = unicode_escape h
escaped none (c ∷ s) =
    let held = escaped (some c) s in
    let rest = escaped none s in
    if is_high c
    then held
    else if is_low c
    then unicode_escape c ++ rest
    else escaped_unit c ++ rest
escaped (some h) (c ∷ s) =
    let held = escaped (some c) s in
    let rest = escaped none s in
    if is_low c
    then h ∷ c ∷ rest
    else if is_high c
    then unicode_escape h ++ held
    else unicode_escape h ++ escaped_unit c ++ rest

-- `JSON.stringify(s)`
unfoldable pub quote : Text → Text
unfolding escaped
quote s = b'"' ∷ escaped none s ++ b'"' ∷ []

escaped-plain : (s : Text) → All IsPlainUnit s → escaped none s ≡ s
unfolding escaped escaped_unit is_high is_low
escaped-plain [] h = refl
escaped-plain (c ∷ s) h = let (lo, hi) = h.0 in let ih = escaped-plain s h.1 in ground arith

pub quote-plain : (s : Text) → All IsPlainUnit s → quote s ≡ b'"' ∷ s ++ b'"' ∷ []
unfolding quote
quote-plain s h = cc (escaped-plain s h)

-- `a < b` on strings
unfoldable pub text_less : Text → Text → Bool
text_less [] [] = false
text_less [] (d ∷ t) = true
text_less (c ∷ s) [] = false
text_less (c ∷ s) (d ∷ t) = let rest = text_less s t in if ltb c d then true else (c == d) && rest

-- `parts.join(",")`
unfoldable pub join : List Text → Text
join [] = []
join (s ∷ []) = s
join (s ∷ t ∷ rest) = s ++ b',' ∷ join (t ∷ rest)
