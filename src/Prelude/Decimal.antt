-- ===== src/Prelude/Decimal.antt =====
-- Numbers as decimal text, as Lua's `tostring` and Rust's `to_string` write them.
use Prim.Native.Nat.{ℕ, zero, suc, ◌+◌, ◌/◌, ◌%◌}
use mathlib.Core.List.{[], ◌∷◌, ◌++◌}
use apalis_redis.Prelude.Bytes.{Text}
use apalis_redis.Prelude.Tests.{ltb, if◌then◌else◌}

digits_from : ℕ → ℕ → Text
digits_from zero n = (b'0' + n) ∷ []
digits_from (suc fuel) n =
    let rest = digits_from fuel (n / 10) in
    if ltb n 10 then (b'0' + n) ∷ [] else rest ++ (b'0' + n % 10) ∷ []

-- A number has at most as many digits as it is large, so the fuel is enough.
unfoldable pub decimal : ℕ → Text
unfolding digits_from
decimal n = digits_from n n
