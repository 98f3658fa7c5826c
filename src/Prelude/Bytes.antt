-- ===== src/Prelude/Bytes.antt =====
-- Text as its bytes: a Rust `String` is its UTF-8 encoding, and Redis keys and members are bytes.
use Prim.Native.Nat.{ℕ, compare, Ordering}
use Prim.Native.Char.{code}
use Prim.Native.String.{String}
use mathlib.Core.Path.{◌≡◌, refl, subst}
use mathlib.Core.Logic.{◌≢◌}
use mathlib.Core.Bool.{Bool, true, false}
use mathlib.Core.List.{List, [], ◌∷◌, ◌++◌}
use native.Mathlib.Omega.{arith}
use native.Mathlib.Decide.{ℕ_discrete}

abbrev pub Text : Type 0
Text = List ℕ

-- The bytes of an ASCII literal.
abbrev pub bytes : String → Text
bytes String.[] = []
bytes (String.◌∷◌ c s) = code c ∷ bytes s

cons_dec : (a b : ℕ) (s t : Text) → Dec (a ≡ b) → Dec (s ≡ t) → Dec (a ∷ s ≡ b ∷ t)
cons_dec a b s t (yes p) (yes q) = yes (cc)
cons_dec a b s t (yes p) (no q) = no (λ e. q (cc))
cons_dec a b s t (no p) d = no (λ e. p (cc))

unfoldable pub text_dec : Discrete Text
unfolding ℕ_discrete cons_dec
text_dec [] [] = yes refl
text_dec [] (b ∷ t) = no (λ e. cc)
text_dec (a ∷ s) [] = no (λ e. cc)
text_dec (a ∷ s) (b ∷ t) = cons_dec a b s t (ℕ_discrete a b) (text_dec s t)

pub append-left_cancel : (p : Text) {a b : Text} → p ++ a ≡ p ++ b → a ≡ b
append-left_cancel [] e = e
append-left_cancel (x ∷ p) e = append-left_cancel p (ground arith)

-- Whether two texts differ at some place that both have, or one is longer.
abbrev pub differ : Text → Text → Bool
differ [] [] = false
differ [] (b ∷ t) = true
differ (a ∷ s) [] = true
differ (a ∷ s) (b ∷ t) = elim (compare a b) [ Ordering.eq ↦ differ s t | _ ↦ true ]

pub differ_self : (s : Text) → differ s s ≡ false
differ_self [] = refl
differ_self (a ∷ s) = ground (arith, differ_self s)

-- Two keys of one queue are different names if what follows the queue's name differs.
pub append-ne : (p a b : Text) → differ a b ≡ true → p ++ a ≢ p ++ b
append-ne p a b h e =
    cc (subst (λ s. differ a s ≡ false) (append-left_cancel p e) (differ_self a), h)
