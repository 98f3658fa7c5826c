-- ===== src/Reply/Number.antt =====
-- `str::parse` into an unsigned integer: one optional plus sign, then decimal digits, at least one.
use apalis_redis.Prelude.{
  ℕ, ◌+◌, ◌-◌, ◌*◌, ◌&&◌, Option, none, some, [], ◌∷◌, Text, leb, ltb, ◌==◌, if◌then◌else◌,
}

unfoldable pub digits_value : ℕ → Text → Option ℕ
digits_value acc [] = some acc
digits_value acc (b ∷ s) =
    let rest = digits_value (acc * 10 + (b - b'0')) s in
    if leb b'0' b && leb b b'9' then rest else none

-- The sign is only skipped before a digit: a lone sign is no number.
unfoldable pub unsigned : Text → Option ℕ
unsigned [] = none
unsigned (b ∷ []) = digits_value 0 (b ∷ [])
unsigned (b ∷ c ∷ s) = if b == b'+' then digits_value 0 (c ∷ s) else digits_value 0 (b ∷ c ∷ s)

-- The value must be below the type's modulus.
unfoldable pub parse_below : ℕ → Text → Option ℕ
unfolding digits_value unsigned
parse_below modulus s = elim (unsigned s) [
  | none ↦ none
  | some n ↦ if ltb n modulus then some n else none
]
