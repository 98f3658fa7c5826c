-- ===== src/Prelude/Counting.antt =====
-- How often a text stands in a list, or as a key in a map, and what the operations of sets and maps do
-- to it.
use mathlib.Core.Logic.{∥∥₁_elim, ite}
use native.Mathlib.Nat.{ℕ_set}
use native.Mathlib.Omega.{arith}
use Prim.Native.Nat.{ℕ, suc, ◌+◌, ◌≤◌, ◌<◌}
use mathlib.Core.Path.{◌≡◌, refl, ◌∙◌}
use mathlib.Core.Bool.{true, false}
use mathlib.Core.Option.{none}
use mathlib.Core.List.{List, [], ◌∷◌, ◌++◌, Perm, Permᴰ}
use apalis_redis.Prelude.Tests.{if◌then◌else◌}
use apalis_redis.Prelude.Bytes.{Text, text_dec}
use apalis_redis.Prelude.Assoc.{
  contains, remove, remove_first, add, add_all, insert, erase, erase_all, lookup,
}

-- How often an id stands in a list.
unfoldable pub count : Text → List Text → ℕ
count j [] = 0
count j (k ∷ s) = ite (text_dec k j) (suc (count j s)) (count j s)

pub count-append : (j : Text) (s t : List Text) → count j (s ++ t) ≡ count j s + count j t
unfolding count
count-append j [] t = omega arith
count-append j (k ∷ s) t = ground (arith, count-append j s t)

count-permᴰ : (j : Text) {s t : List Text} → Permᴰ s t → count j s ≡ count j t
unfolding count
count-permᴰ j Permᴰ.nil = refl
count-permᴰ j (Permᴰ.cons e q) = ground (arith, e, count-permᴰ j q)
count-permᴰ j (Permᴰ.swap e f) = ground (arith, e, f)
count-permᴰ j (Permᴰ.trans q r) = count-permᴰ j q ∙ count-permᴰ j r

pub count-remove :
    (j k : Text) (s : List Text) → count j (remove k s) ≡ ite (text_dec k j) 0 (count j s)
unfolding count remove
count-remove j k [] = ground arith
count-remove j k (i ∷ s) = ground (arith, count-remove j k s)

pub count-absent : (j : Text) (s : List Text) → contains j s ≡ false → count j s ≡ 0
unfolding count contains
count-absent j [] h = refl
count-absent j (k ∷ s) h = ground (arith, count-absent j s)

pub count-present : (j : Text) (s : List Text) → contains j s ≡ true → 0 < count j s
unfolding count contains
count-present j [] h = absurd cc
count-present j (k ∷ s) h = ground (arith, count-present j s)

pub count-perm : (j : Text) {s t : List Text} → Perm s t → count j s ≡ count j t
count-perm j p = ∥∥₁_elim p (ℕ_set _ _) (count-permᴰ j)

pub count-remove_first : (j k : Text) (s : List Text) → count j (remove_first k s) ≤ count j s
unfolding count remove_first
count-remove_first j k [] = omega arith
count-remove_first j k (i ∷ s) = ground (arith, count-remove_first j k s)

count-add : (j k : Text) (s : List Text) → count j (add k s) ≤ count j s + count j (k ∷ [])
unfolding count add
count-add j k [] = omega arith
count-add j k (i ∷ s) = ground (arith, count-add j k s)

pub count-add_all : (j : Text) (ks s : List Text) → count j (add_all ks s) ≤ count j s + count j ks
unfolding add_all
count-add_all j [] s = omega arith
count-add_all j (k ∷ ks) s =
    omega (arith, count-add_all j ks (add k s), count-add j k s, count-append j (k ∷ []) ks)

-- Adding a member changes nothing.
pub add-present : (k : Text) (s : List Text) → contains k s ≡ true → add k s ≡ s
unfolding contains add
add-present k [] h = absurd cc
add-present k (i ∷ s) h = ground (arith, add-present k s)

module _ {V : Type 0} where
  -- How often a key stands in a map.
  unfoldable pub count_keys : Text → List (Text × V) → ℕ
  count_keys j [] = 0
  count_keys j ((k, v) ∷ m) = ite (text_dec k j) (suc (count_keys j m)) (count_keys j m)

  pub count_keys-insert :
      (j k : Text) (v : V) (m : List (Text × V))
      → count_keys j (insert k v m) ≤ count_keys j m + count j (k ∷ [])
  unfolding count count_keys insert
  count_keys-insert j k v [] = omega arith
  count_keys-insert j k v ((i, w) ∷ m) = ground (arith, count_keys-insert j k v m)

  count_keys-erase :
      (j k : Text) (m : List (Text × V))
      → count_keys j (erase k m) ≡ ite (text_dec k j) 0 (count_keys j m)
  unfolding count_keys erase
  count_keys-erase j k [] = ground arith
  count_keys-erase j k ((i, w) ∷ m) = ground (arith, count_keys-erase j k m)

  pub count_keys-erase_all :
      (j : Text) (ks : List Text) (m : List (Text × V))
      → count_keys j (erase_all ks m) ≡ (if contains j ks then 0 else count_keys j m)
  unfolding erase_all contains
  count_keys-erase_all j [] m = refl
  count_keys-erase_all j (k ∷ ks) m =
      ground (arith, count_keys-erase_all j ks (erase k m), count_keys-erase j k m)

  pub lookup-absent : (j : Text) (m : List (Text × V)) → count_keys j m ≡ 0 → lookup j m ≡ none
  unfolding count_keys lookup
  lookup-absent j [] h = refl
  lookup-absent j ((i, w) ∷ m) h = ground (arith, lookup-absent j m)
