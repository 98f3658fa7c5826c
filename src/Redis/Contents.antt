-- ===== src/Redis/Contents.antt =====
-- What the keys of a server hold, and what the commands that read ranges and scores take of it.
use apalis_redis.Prelude.{
  ℕ, suc, ◌-◌, ◌≤◌, length, arith, refl, if_pos, if_neg, ◌≢◌, ◌≡◌, Option, none, some, true, false,
  List, [], ◌∷◌, Text, text_dec, ite, if◌then◌else◌, take, drop, leb,
}
use apalis_redis.Prelude.Assoc.{IsMap, lookup, contains}
use apalis_redis.Prelude.Counting.{count, count_keys}

-- What the keys of a server hold, by the type of the value; an absent key reads as empty.
-- `ttl` is the expiry set on a string key, and `published` what went to the subscribers.
pub record Keyspace : Type 0 where
  pub string : Text → Option Text
  pub ttl : Text → Option ℕ
  pub list : Text → List Text
  pub set : Text → List Text
  pub zset : Text → List (Text × ℕ)
  pub hash : Text → List (Text × Text)
  pub published : List (Text × Text)

-- What the keys hold once key `k` holds `a`.
unfoldable pub put {ℓ} : {A : Type ℓ} → (Text → A) → Text → A → Text → A
put f k a j = ite (text_dec k j) a (f j)

module _ {ℓ} {A : Type ℓ} (f : Text → A) where
  pub put_self : (k : Text) (a : A) → put f k a k ≡ a
  unfolding put
  put_self k a = if_pos (text_dec k k) refl a (f k)

  pub put-ne : (k : Text) (a : A) (j : Text) → k ≢ j → put f k a j ≡ f j
  unfolding put
  put-ne k a j h = if_neg (text_dec k j) h a (f j)

-- What is left when a key is removed, whatever it held.
abbrev pub erased : Text → Keyspace → Keyspace
erased k v = record v {
  string = put v.string k none;
  ttl = put v.ttl k none;
  list = put v.list k [];
  set = put v.set k [];
  zset = put v.zset k [];
  hash = put v.hash k [];
}

-- The members of a sorted set whose score is at most `max`.
unfoldable pub below : ℕ → List (Text × ℕ) → List Text
below top [] = []
below top ((m, s) ∷ z) = if leb s top then m ∷ below top z else below top z

-- In a sorted set with each member once, those are the members that `ZSCORE` finds so low.
pub contains-below :
    (j : Text) (top : ℕ) (z : List (Text × ℕ))
    → IsMap z
    → contains j (below top z) ≡ elim (lookup j z) [ none ↦ false | some s ↦ leb s top ]
unfolding below contains lookup
contains-below j top [] h = refl
contains-below j top ((m, s) ∷ z) h = ground (arith, contains-below j top z h.1, h.0)

-- A member that is found with so low a score is among them.
pub below-present :
    (j : Text) (s top : ℕ) (z : List (Text × ℕ))
    → lookup j z ≡ some s
    → s ≤ top
    → contains j (below top z) ≡ true
unfolding below contains lookup
below-present j s top [] h le = cc
below-present j s top ((m, n) ∷ z) h le = ground (arith, below-present j s top z)

pub count-below :
    (j : Text) (top : ℕ) (z : List (Text × ℕ)) → count j (below top z) ≤ count_keys j z
unfolding below count count_keys
count-below j top [] = omega arith
count-below j top ((m, s) ∷ z) = ground (arith, count-below j top z)

-- The last index of a range: Redis counts negative ones from the end.
pub data Stop : Type 0 where
  at : ℕ → Stop
  last : Stop

unfoldable pub range : Stop → List Text → List Text
range (at n) xs = take (suc n) xs
range last xs = xs

-- An index into a list, counted from its front or, for a negative one, from its end: `back n` is
-- -(n + 1).
pub data Index : Type 0 where
  front back : ℕ → Index

-- How many entries stand before an index, and how many up to it, of a list of the given length.
unfoldable pub before : ℕ → Index → ℕ
before len (front n) = n
before len (back n) = len - suc n

unfoldable pub upto : ℕ → Index → ℕ
upto len (front n) = suc n
upto len (back n) = len - n

-- The entries from one index to another, both included; what is out of range is left out.
unfoldable pub between : Index → Index → List Text → List Text
between i j xs = let len = length xs in take (upto len j - before len i) (drop (before len i) xs)

-- The fields of a hash.
unfoldable pub fields_of : List (Text × Text) → List Text
fields_of [] = []
fields_of ((f, v) ∷ m) = f ∷ fields_of m
