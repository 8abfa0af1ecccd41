-- ===== src/Screening/Score.antt =====
-- Numbers as a model answers them: a JavaScript number with `Math.min` and `Math.max`.
use inspect_element.Prelude.{ℕ, ◌≤◌, Bool, true, false, if◌then◌else◌, ltb, leb}
use inspect_element.Prelude.Integers.{ℤ, pos, negsuc}

-- A finite number is a multiple of 1 / scale, for a scale that is fixed and serves all numbers that
-- occur.
pub data Score : Type 0 where
  not_a_number : Score
  minus_infinity : Score
  finite : ℤ → Score
  infinity : Score

-- `Math.max(0, x)`
unfoldable pub max_zero : Score → Score
max_zero not_a_number = not_a_number
max_zero minus_infinity = finite (pos 0)
max_zero (finite (pos n)) = finite (pos n)
max_zero (finite (negsuc n)) = finite (pos 0)
max_zero infinity = infinity

-- `Math.min(m, x)`
unfoldable pub min_with : ℕ → Score → Score
min_with m not_a_number = not_a_number
min_with m minus_infinity = minus_infinity
min_with m (finite (pos n)) = finite (pos (if ltb m n then m else n))
min_with m (finite (negsuc n)) = finite (negsuc n)
min_with m infinity = finite (pos m)

-- Between 0 and the bound, both included.
abbrev pub InRange : ℕ → Score → Type 0
InRange m (finite (pos n)) = n ≤ m
InRange m s = ⊥

-- `z.number().min(0).max(m)`, which takes neither NaN nor an infinity here.
unfoldable pub accepts_between : ℕ → Score → Bool
accepts_between m (finite (pos n)) = leb n m
accepts_between m s = false

-- `s >= threshold`
unfoldable pub reaches : Score → ℕ → Bool
reaches (finite (pos n)) threshold = leb threshold n
reaches (finite (negsuc n)) threshold = false
reaches infinity threshold = true
reaches s threshold = false
