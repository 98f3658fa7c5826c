-- ===== src/Metrics/Commands.antt =====
-- The commands that the reports of lua/overview.lua and lua/overview_by_queue.lua call. They fail on
-- a key that holds a value of another type.
use apalis_redis.Prelude.{
  ℕ, suc, max, length, ◌≡◌, refl, Bool, true, false, ◌&&◌, Option, none, some, List, [], ◌∷◌, Text,
  leb, if◌then◌else◌,
}
use apalis_redis.Redis.{Redis, Keyspace}
use apalis_redis.Redis.Reference.{reference}

pub data Kind : Type 0 where
  a_list a_set a_zset : Kind

is_empty : {A : Type 0} → List A → Bool
is_empty [] = true
is_empty (a ∷ s) = false

is_none : {A : Type 0} → Option A → Bool
is_none none = true
is_none (some a) = false

-- Whether a key holds nothing of another type.
unfoldable pub fits : Kind → Keyspace → Text → Bool
unfolding is_empty is_none
fits a_list v k =
    is_none (v.string k) && (is_empty (v.hash k) && (is_empty (v.set k) && is_empty (v.zset k)))
fits a_set v k =
    is_none (v.string k) && (is_empty (v.hash k) && (is_empty (v.list k) && is_empty (v.zset k)))
fits a_zset v k =
    is_none (v.string k) && (is_empty (v.hash k) && (is_empty (v.list k) && is_empty (v.set k)))

-- The reply of a command for values of one type; `none` is the error WRONGTYPE.
unfoldable pub typed : {A : Type 0} → Kind → Keyspace → Text → A → Option A
typed kind v k a = if fits kind v k then some a else none

-- How many members have a score from one bound to the other.
unfoldable pub scored : ℕ → ℕ → List (Text × ℕ) → ℕ
scored low high [] = 0
scored low high ((m, s) ∷ z) =
    let rest = scored low high z in
    if leb low s then if leb s high then suc rest else rest else rest

unfoldable pub highest : List (Text × ℕ) → Option ℕ
highest [] = none
highest ((m, s) ∷ z) = elim (highest z) [ none ↦ some s | some t ↦ some (max s t) ]

pub record Reporting (R : Redis) : Type 0 where
  pub llen : R.Db → Text → Option ℕ
  pub zcard : R.Db → Text → Option ℕ
  pub scard : R.Db → Text → Option ℕ
  pub zcount : R.Db → Text → ℕ → ℕ → Option ℕ
  -- The score in the reply to `ZREVRANGE key 0 0 WITHSCORES`, if it is not empty.
  pub newest : R.Db → Text → Option (Option ℕ)
  pub llen_lem :
      (d : R.Db) (k : Text)
      → llen d k ≡ typed a_list (R.keyspace d) k (length ((R.keyspace d).list k))
  pub zcard_lem :
      (d : R.Db) (k : Text)
      → zcard d k ≡ typed a_zset (R.keyspace d) k (length ((R.keyspace d).zset k))
  pub scard_lem :
      (d : R.Db) (k : Text)
      → scard d k ≡ typed a_set (R.keyspace d) k (length ((R.keyspace d).set k))
  pub zcount_lem :
      (d : R.Db) (k : Text) (low high : ℕ)
      → zcount d k low high
        ≡ typed a_zset (R.keyspace d) k (scored low high ((R.keyspace d).zset k))
  pub newest_lem :
      (d : R.Db) (k : Text)
      → newest d k ≡ typed a_zset (R.keyspace d) k (highest ((R.keyspace d).zset k))

abbrev pub commands : Reporting reference
commands = record {
  llen = λ d k. typed a_list d k (length (d.list k));
  zcard = λ d k. typed a_zset d k (length (d.zset k));
  scard = λ d k. typed a_set d k (length (d.set k));
  zcount = λ d k low high. typed a_zset d k (scored low high (d.zset k));
  newest = λ d k. typed a_zset d k (highest (d.zset k));
  llen_lem = λ d k. refl;
  zcard_lem = λ d k. refl;
  scard_lem = λ d k. refl;
  zcount_lem = λ d k low high. refl;
  newest_lem = λ d k. refl;
}
