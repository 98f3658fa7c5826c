-- ===== src/Signal.antt =====
-- The signal list, which wakes pollers: the end of lua/release_leases.lua, lua/reenqueue_orphaned.lua,
-- lua/batch_push.lua, and the promotion step of lua/fetch_next.lua.
use apalis_redis.Prelude.{◌≡◌, refl, ◌≢◌, Bool, [], ◌∷◌, Text, bytes, if◌then◌else◌, true, false}
use apalis_redis.Redis.{Redis, put-ne}
use apalis_redis.Redis.Laws.{effects}
use apalis_redis.Script.{Lua, ok, writes, when, ◌>>◌}

module _ (R : Redis) (signal : Text) where
  open R use {Db, keyspace}

  -- The list holds one entry from now on.
  raise_signal : Lua Db (Unit {0})
  raise_signal = do writes (R.del signal); writes (R.lpush signal (bytes "1"))

  -- Raised only if something was done.
  pub signal_if : Bool → Lua Db (Unit {0})
  unfolding raise_signal
  signal_if c = when c raise_signal

  pub signal_if-ok : (c : Bool) (d : Db) → signal_if c d ≡ (ok tt, (signal_if c d).1)
  unfolding signal_if
  signal_if-ok true d = refl
  signal_if-ok false d = refl

  pub signal_if-idle : (d : Db) → signal_if false d ≡ (ok tt, d)
  unfolding signal_if
  signal_if-idle d = refl

  pub signal_if-signal :
      (c : Bool) (d : Db)
      → (keyspace (signal_if c d).1).list signal
        ≡ (if c then bytes "1" ∷ [] else (keyspace d).list signal)
  unfolding signal_if
  signal_if-signal true d = simp effects
  signal_if-signal false d = refl

  module _ (c : Bool) (k : Text) (d : Db) (h : signal ≢ k) where
    pub signal_if-list : (keyspace (signal_if c d).1).list k ≡ (keyspace d).list k
    unfolding signal_if
    signal_if-list = elim c as (λ b. (keyspace (signal_if b d).1).list k ≡ (keyspace d).list k) [
      | true ↦ simp effects (rw (put-ne _ signal _ k h, put-ne _ signal _ k h))
      | false ↦ refl
    ]

    pub signal_if-set : (keyspace (signal_if c d).1).set k ≡ (keyspace d).set k
    unfolding signal_if
    signal_if-set = elim c as (λ b. (keyspace (signal_if b d).1).set k ≡ (keyspace d).set k) [
      | true ↦ simp effects (put-ne _ signal _ k h)
      | false ↦ refl
    ]

    pub signal_if-zset : (keyspace (signal_if c d).1).zset k ≡ (keyspace d).zset k
    unfolding signal_if
    signal_if-zset = elim c as (λ b. (keyspace (signal_if b d).1).zset k ≡ (keyspace d).zset k) [
      | true ↦ simp effects (put-ne _ signal _ k h)
      | false ↦ refl
    ]

    pub signal_if-hash : (keyspace (signal_if c d).1).hash k ≡ (keyspace d).hash k
    unfolding signal_if
    signal_if-hash = elim c as (λ b. (keyspace (signal_if b d).1).hash k ≡ (keyspace d).hash k) [
      | true ↦ simp effects (put-ne _ signal _ k h)
      | false ↦ refl
    ]
