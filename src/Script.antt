-- ===== src/Script.antt =====
-- State with failure: how a script runs against the server's state and how a query runs scripts.
-- What was written before a failure stays written: Redis does not roll a script back.
use apalis_redis.Prelude.{ℕ, Bool, Option, none, some, Text, if◌then◌else◌}

pub data Result (E A : Type 0) : Type 0 where
  ok : A → Result E A
  err : E → Result E A

-- What the scripts raise by `error`; Lua's own errors on joining an absent key to a text, on comparing
-- what is no number, on computing with `nil` and on taking a field of what is no table; and those of a `redis.call` on a key that holds a
-- value of another type, or with a missing argument.
pub data ScriptError : Type 0 where
  worker_not_registered : ScriptError
  not_held : Text → ScriptError
  not_executed : ScriptError
  still_active : ScriptError
  nil_concatenation : ScriptError
  nil_comparison : ScriptError
  nil_arithmetic : ScriptError
  not_indexable : ScriptError
  wrong_type : ScriptError
  nil_argument : ScriptError

-- `RedisError`: an error that a script raised, an error among the values of a reply, or one that
-- `build_error` of src/lib.rs makes of a reply that cannot be decoded, or the redis crate's own of a
-- reply that is not of the type asked for.
pub data RedisError : Type 0 where
  raised : ScriptError → RedisError
  replied : RedisError
  invalid_data : RedisError
  unparsable : RedisError

-- `Error` of error.rs. The payloads of the decoding errors
-- are other crates' and are left out.
pub data Error : Type 0 where
  database : RedisError → Error
  json : Error
  reenqueue_mismatch : ℕ → ℕ → Error
  task_id_error : Error
  status_error : Error
  worker_out_of_sync : Error
  worker_already_exists : Text → Error

-- How a query can end early: by returning an error, or by a panic (arithmetic overflow, `unwrap`).
pub data Failure : Type 0 where
  error : Error → Failure
  panic : Failure

-- A computation over the server's state `D`.
abbrev pub Action : Type 0 → Type 0 → Type 0 → Type 0
Action D E A = D → Result E A × D

abbrev pub Lua : Type 0 → Type 0 → Type 0
Lua D A = Action D ScriptError A

abbrev pub Query : Type 0 → Type 0 → Type 0
Query D A = Action D Failure A

module _ {D E A : Type 0} where
  abbrev pub pure : A → Action D E A
  pure a d = (ok a, d)

  abbrev pub raise : E → Action D E A
  raise e d = (err e, d)

  -- A command that only reads.
  abbrev pub reads : (D → A) → Action D E A
  reads f d = (ok (f d), d)

  -- A command that writes and replies.
  abbrev pub calls : (D → A × D) → Action D E A
  calls f d = let (a, d') = f d in (ok a, d')

-- What follows a step: the rest of the computation, or the failure.
abbrev pub next : {D E A B : Type 0} → Result E A × D → (A → Action D E B) → Result E B × D
next (ok a, d) f = f a d
next (err e, d) f = (err e, d)

infixl 5 ◌>>=◌ ◌>>◌
abbrev pub ◌>>=◌ : {D E A B : Type 0} → Action D E A → (A → Action D E B) → Action D E B
◌>>=◌ m f d = next (m d) f

abbrev pub ◌>>◌ : {D E A B : Type 0} → Action D E A → Action D E B → Action D E B
m >> k = m >>= λ _. k

module _ {D E : Type 0} where
  -- A command whose reply is not looked at.
  abbrev pub writes : (D → D) → Action D E (Unit {0})
  writes f d = (ok tt, f d)

  abbrev pub when : Bool → Action D E (Unit {0}) → Action D E (Unit {0})
  when c m d = if c then m d else (ok tt, d)

  abbrev pub fail_if : Bool → E → Action D E (Unit {0})
  fail_if c e d = if c then (err e, d) else (ok tt, d)

abbrev pub require : {D A : Type 0} → Option A → ScriptError → Lua D A
require none e d = (err e, d)
require (some a) e d = (ok a, d)

-- `unwrap()`
abbrev pub unwrap : {D A : Type 0} → Option A → Query D A
unwrap none d = (err panic, d)
unwrap (some a) d = (ok a, d)

-- `invoke_async(conn).await?`
abbrev pub received : {D A : Type 0} → Result ScriptError A × D → Result Failure A × D
received (ok a, d) = (ok a, d)
received (err e, d) = (err (error (database (raised e))), d)

abbrev pub invoke : {D A : Type 0} → Lua D A → Query D A
invoke m d = received (m d)
