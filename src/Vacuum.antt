-- ===== src/Vacuum.antt =====
-- src/queries/vacuum.rs with lua/vacuum.lua and lua/vacuum_before.lua: deleting the tasks that are
-- over.
pub mod Spares
pub mod Deletes
pub mod Before
use apalis_redis.Prelude.{
  ℕ, suc, ◌+◌, Bool, true, false, ◌||◌, Option, none, some, List, [], ◌∷◌, ◌++◌, Text, bytes,
  text_dec, ite, leb, map, if◌then◌else◌,
}
use apalis_redis.Redis.{Redis}
use apalis_redis.Script.{
  Lua, Query, nil_comparison, pure, reads, writes, when, require, invoke, ◌>>=◌, ◌>>◌,
}
use apalis_redis.Config.{Config, Duration, job_data_hash, job_meta_hash}
use apalis_redis.Lease.{meta_key}

-- `status and terminal_statuses[status]`
unfoldable pub terminal : Option Text → Bool
terminal none = false
terminal (some s) =
    ite (text_dec s (bytes "Done")) true
      (ite (text_dec s (bytes "Failed")) true (ite (text_dec s (bytes "Killed")) true false))

module _ (R : Redis) where
  open R use {Db}

  unfoldable pub delete_task : Text → Text → Text → Lua Db (Unit {0})
  delete_task data_hash meta id = do
    writes (R.hdel data_hash (id ∷ []))
    writes (R.hdel (meta ++ bytes ":result") (id ∷ []))
    writes (R.del (meta_key meta id))

  unfoldable pub vacuum_all : Text → Text → List (Text × Text) → ℕ → Lua Db ℕ
  vacuum_all data_hash meta [] deleted = pure deleted
  vacuum_all data_hash meta ((id, v) ∷ fields) deleted = do
    status ← reads (λ d. R.hget d (meta_key meta id) (bytes "status"))
    when (terminal status) (delete_task data_hash meta id)
    vacuum_all data_hash meta fields (if terminal status then suc deleted else deleted)

  unfoldable pub vacuum_lua : Text → Text → Lua Db ℕ
  vacuum_lua data_hash meta = do
    fields ← reads (λ d. R.hgetall d data_hash)
    vacuum_all data_hash meta fields 0

  unfoldable pub vacuum : Config → Query Db ℕ
  vacuum c = invoke (vacuum_lua (job_data_hash c) (job_meta_hash c))

-- `status and terminal_statuses[status] and done_at` and `tonumber(done_at) <= cutoff`, where the
-- cutoff `time - secs` may be negative; none where `done_at` is no number. `tonumber` is Lua's.
unfoldable pub aged : (Text → Option ℕ) → ℕ → ℕ → Option Text → Option Text → Option Bool
aged tonumber time secs status none = some false
aged tonumber time secs status (some done_at) =
    if terminal status
    then elim (tonumber done_at) [ none ↦ none | some n ↦ some (leb (n + secs) time) ]
    else some false

module _ (R : Redis) (tonumber : Text → Option ℕ) where
  open R use {Db}

  unfoldable pub vacuum_before_all : Text → Text → ℕ → ℕ → List (Text × Text) → ℕ → Lua Db ℕ
  vacuum_before_all data_hash meta time secs [] deleted = pure deleted
  vacuum_before_all data_hash meta time secs ((id, v) ∷ fields) deleted = do
    status ← reads (λ d. R.hget d (meta_key meta id) (bytes "status"))
    done_at ← reads (λ d. R.hget d (meta_key meta id) (bytes "done_at"))
    old ← require (aged tonumber time secs status done_at) nil_comparison
    when old (delete_task R data_hash meta id)
    vacuum_before_all data_hash meta time secs fields (if old then suc deleted else deleted)

  -- `time` is the server's clock.
  unfoldable pub vacuum_before_lua : Text → Text → ℕ → ℕ → Lua Db ℕ
  vacuum_before_lua data_hash meta time secs = do
    fields ← reads (λ d. R.hgetall d data_hash)
    vacuum_before_all data_hash meta time secs fields 0

  unfoldable pub vacuum_before : Config → ℕ → Duration → Query Db ℕ
  vacuum_before c time duration =
      invoke (vacuum_before_lua (job_data_hash c) (job_meta_hash c) time duration.secs)
