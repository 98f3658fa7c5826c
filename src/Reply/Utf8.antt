-- ===== src/Reply/Utf8.antt =====
-- `str::from_utf8`: whether bytes are valid UTF-8, with overlong forms and surrogates refused.
use apalis_redis.Prelude.{
  ℕ, Bool, true, false, ◌&&◌, Option, none, some, List, [], ◌∷◌, Text, leb, ltb, ◌==◌,
  if◌then◌else◌,
}

abbrev Bounds : Type 0
Bounds = ℕ × ℕ

abbrev tail_byte : Bounds
tail_byte = (0x80, 0xbf)

-- The ranges of the bytes that follow a first byte.
unfoldable pub lead : ℕ → Option (List Bounds)
lead b =
    if ltb b 0x80
    then some []
    else if ltb b 0xc2
    then none
    else if ltb b 0xe0
    then some (tail_byte ∷ [])
    else if b == 0xe0
    then some ((0xa0, 0xbf) ∷ tail_byte ∷ [])
    else if b == 0xed
    then some ((0x80, 0x9f) ∷ tail_byte ∷ [])
    else if ltb b 0xf0
    then some (tail_byte ∷ tail_byte ∷ [])
    else if b == 0xf0
    then some ((0x90, 0xbf) ∷ tail_byte ∷ tail_byte ∷ [])
    else if ltb b 0xf4
    then some (tail_byte ∷ tail_byte ∷ tail_byte ∷ [])
    else if b == 0xf4
    then some ((0x80, 0x8f) ∷ tail_byte ∷ tail_byte ∷ [])
    else none

-- `pending` are the ranges of the bytes that the current character still wants.
unfoldable pub valid_from : List Bounds → Text → Bool
valid_from [] [] = true
valid_from (r ∷ pending) [] = false
valid_from ((lo, hi) ∷ pending) (b ∷ s) = (leb lo b && leb b hi) && valid_from pending s
valid_from [] (b ∷ s) = elim (lead b) [ none ↦ false | some pending ↦ valid_from pending s ]

unfoldable pub is_utf8 : Text → Bool
unfolding valid_from lead
is_utf8 = valid_from []
