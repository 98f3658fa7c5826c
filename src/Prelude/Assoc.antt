-- ===== src/Prelude/Assoc.antt =====
-- Finite maps and sets keyed by text: what a Redis hash, sorted set or set holds.
use mathlib.Core.Path.{◌≡◌, refl, ◌∙◌}
use mathlib.Core.Logic.{ite, ∥∥₁_elim}
use mathlib.Core.Bool.{Bool, true, false, ◌||◌, Bool-set}
use mathlib.Core.Option.{Option, none, some}
use mathlib.Core.List.{List, [], ◌∷◌, ◌++◌, Perm, Permᴰ}
use native.Mathlib.Omega.{arith}
use apalis_redis.Prelude.Tests.{if◌then◌else◌}
use apalis_redis.Prelude.Bytes.{Text, text_dec}

module _ {ℓ} {V : Type ℓ} where
  unfoldable pub lookup : Text → List (Text × V) → Option V
  lookup k [] = none
  lookup k ((j, v) ∷ m) = ite (text_dec j k) (some v) (lookup k m)

  unfoldable pub insert : Text → V → List (Text × V) → List (Text × V)
  insert k v [] = (k, v) ∷ []
  insert k v ((j, w) ∷ m) = ite (text_dec j k) ((k, v) ∷ m) ((j, w) ∷ insert k v m)

  unfoldable pub erase : Text → List (Text × V) → List (Text × V)
  erase k [] = []
  erase k ((j, w) ∷ m) = ite (text_dec j k) (erase k m) ((j, w) ∷ erase k m)

  unfoldable pub erase_all : List Text → List (Text × V) → List (Text × V)
  erase_all [] m = m
  erase_all (k ∷ ks) m = erase_all ks (erase k m)

  unfoldable pub insert_all : List (Text × V) → List (Text × V) → List (Text × V)
  insert_all [] m = m
  insert_all ((k, v) ∷ ps) m = insert_all ps (insert k v m)

  pub lookup-insert :
      (j k : Text) (v : V) (m : List (Text × V))
      → lookup j (insert k v m) ≡ ite (text_dec k j) (some v) (lookup j m)
  unfolding lookup insert
  lookup-insert j k v [] = refl
  lookup-insert j k v ((i, w) ∷ m) = ground (arith, lookup-insert j k v m)

  pub lookup-erase :
      (j k : Text) (m : List (Text × V))
      → lookup j (erase k m) ≡ ite (text_dec k j) none (lookup j m)
  unfolding lookup erase
  lookup-erase j k [] = ground arith
  lookup-erase j k ((i, w) ∷ m) = ground (arith, lookup-erase j k m)

unfoldable pub contains : Text → List Text → Bool
contains k [] = false
contains k (j ∷ s) = ite (text_dec j k) true (contains k s)

-- A set holds a member once.
unfoldable pub add : Text → List Text → List Text
add k [] = k ∷ []
add k (j ∷ s) = ite (text_dec j k) (j ∷ s) (j ∷ add k s)

unfoldable pub add_all : List Text → List Text → List Text
add_all [] s = s
add_all (k ∷ ks) s = add_all ks (add k s)

unfoldable pub remove : Text → List Text → List Text
remove k [] = []
remove k (j ∷ s) = ite (text_dec j k) (remove k s) (j ∷ remove k s)

-- Without the first occurrence.
unfoldable pub remove_first : Text → List Text → List Text
remove_first k [] = []
remove_first k (j ∷ s) = ite (text_dec j k) s (j ∷ remove_first k s)

pub contains-add :
    (j k : Text) (s : List Text) → contains j (add k s) ≡ ite (text_dec k j) true (contains j s)
unfolding contains add
contains-add j k [] = refl
contains-add j k (i ∷ s) = ground (arith, contains-add j k s)

pub contains-remove :
    (j k : Text) (s : List Text) → contains j (remove k s) ≡ ite (text_dec k j) false (contains j s)
unfolding contains remove
contains-remove j k [] = ground arith
contains-remove j k (i ∷ s) = ground (arith, contains-remove j k s)

-- No key is listed twice.
abbrev pub IsMap {ℓ} : {V : Type ℓ} → List (Text × V) → Type ℓ
IsMap [] = Unit {ℓ}
IsMap ((k, v) ∷ m) = (lookup k m ≡ none) × IsMap m

contains-permᴰ : (k : Text) {s t : List Text} → Permᴰ s t → contains k s ≡ contains k t
unfolding contains
contains-permᴰ k Permᴰ.nil = refl
contains-permᴰ k (Permᴰ.cons e q) = ground (arith, e, contains-permᴰ k q)
contains-permᴰ k (Permᴰ.swap e f) = ground (arith, e, f)
contains-permᴰ k (Permᴰ.trans q r) = contains-permᴰ k q ∙ contains-permᴰ k r

pub contains-perm : (k : Text) {s t : List Text} → Perm s t → contains k s ≡ contains k t
contains-perm k p = ∥∥₁_elim p (Bool-set _ _) (contains-permᴰ k)

pub contains-append :
    (k : Text) (s t : List Text) → contains k (s ++ t) ≡ (contains k s || contains k t)
unfolding contains
contains-append k [] t = refl
contains-append k (j ∷ s) t = ground (arith, contains-append k s t)

pub lookup-erase_all {ℓ} :
    {V : Type ℓ} (j : Text) (ks : List Text) (m : List (Text × V))
    → lookup j (erase_all ks m) ≡ (if contains j ks then none else lookup j m)
unfolding erase_all contains
lookup-erase_all j [] m = refl
lookup-erase_all j (k ∷ ks) m =
    ground (arith, lookup-erase_all j ks (erase k m), lookup-erase j k m)

module _ {ℓ} {V : Type ℓ} where
  lookup-insert_all_from :
      (k : Text) (ps m : List (Text × V))
      → IsMap ps
      → lookup k (insert_all ps m) ≡ elim (lookup k ps) [ none ↦ lookup k m | some v ↦ some v ]
  unfolding insert_all lookup
  lookup-insert_all_from k [] m h = refl
  lookup-insert_all_from k ((j, v) ∷ ps) m h =
      ground (arith, lookup-insert_all_from k ps (insert j v m) h.1, lookup-insert k j v m, h.0)

  -- Inserting the entries of a map one by one gives the same map.
  pub lookup-insert_all :
      (k : Text) (ps : List (Text × V)) → IsMap ps → lookup k (insert_all ps []) ≡ lookup k ps
  unfolding lookup
  lookup-insert_all k ps h = lookup-insert_all_from k ps [] h ∙ ground arith
