-- ===== src/Config/Template.antt =====
-- `str::replace`: every occurrence of a pattern, found from the left, is replaced.
use apalis_redis.Prelude.{
  ℕ, zero, suc, ◌-◌, Bool, true, false, ◌&&◌, [], ◌∷◌, ◌++◌, Text, ◌==◌, length, if◌then◌else◌,
}

starts_with : Text → Text → Bool
starts_with [] s = true
starts_with (c ∷ pat) [] = false
starts_with (c ∷ pat) (d ∷ s) = (c == d) && starts_with pat s

-- `skip` counts the bytes of the last occurrence that are still to be passed over.
replace_from : Text → Text → ℕ → Text → Text
replace_from pat to skip [] = []
replace_from pat to (suc skip) (c ∷ s) = replace_from pat to skip s
replace_from pat to zero (c ∷ s) =
    let hit = to ++ replace_from pat to (length pat - 1) s in
    let miss = c ∷ replace_from pat to zero s in if starts_with pat (c ∷ s) then hit else miss

unfoldable pub replace : Text → Text → Text → Text
unfolding replace_from starts_with
replace pat to = replace_from pat to zero
