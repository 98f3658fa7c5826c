-- ===== src/Worker.antt =====
-- src/queries/register_worker.rs, keep_alive.rs and reenqueue.rs with lua/register_worker.lua,
-- lua/keep_alive.lua and lua/reenqueue_orphaned.lua: the set of workers, scored by when each was last
-- heard of, and the tasks of those that have gone silent.
-- Scores are whole seconds; Redis holds them as doubles, exact up to 2 ^ 53.
pub mod Registration
pub mod Drain
pub mod Orphans
use apalis_redis.Prelude.{
  ℕ, ◌+◌, ◌-◌, Bool, true, false, Option, none, some, List, [], ◌∷◌, ◌++◌, Text, bytes, length, ltb,
  leb, if◌then◌else◌,
}
use apalis_redis.Redis.{Redis}
use apalis_redis.Script.{
  Lua, Query, worker_not_registered, still_active, panic, pure, reads, writes, fail_if, require,
  unwrap, invoke, ◌>>=◌, ◌>>◌,
}
use apalis_redis.Signal.{signal_if}
use apalis_redis.Config.{
  Config, Duration, workers_set, worker_metadata_key, active_jobs_list, signal_list,
  inflight_jobs_set, orphaned_duration,
}
use apalis_redis.Task.{WorkerContext}

-- Which workers to look at; apalis-core has no other filter that the code tells apart.
pub data WorkerFilter : Type 0 where
  only all_except : Text → WorkerFilter

-- `now - last_seen < threshold`, where the scripts' difference may be negative.
abbrev pub seen_within : ℕ → ℕ → Option ℕ → Bool
seen_within now threshold none = false
seen_within now threshold (some last_seen) = ltb now (last_seen + threshold)

-- `score and tonumber(score) <= tonumber(ARGV[1])`
abbrev pub scored_by : ℕ → Option ℕ → Bool
scored_by expired_before none = false
scored_by expired_before (some score) = leb score expired_before

-- `a - b` on `u64`, where an underflow panics (a build without overflow checks wraps around).
unfoldable pub sub_u64 : ℕ → ℕ → Option ℕ
sub_u64 a b = if ltb a b then none else some (a - b)

module _ (R : Redis) where
  open R use {Db}

  unfoldable pub register_worker_lua : Text → Text → ℕ → Text → ℕ → Text → Text → Lua Db Bool
  register_worker_lua workers metadata now worker threshold backend service = do
    last_seen ← reads (λ d. R.zscore d workers worker)
    fail_if (seen_within now threshold last_seen) still_active
    writes (R.zadd workers now worker)
    writes (R.zadd_gt (bytes "core:apalis:queues:list") now workers)
    writes (R.hset metadata ((bytes "backend_name", backend) ∷ (bytes "service", service) ∷ []))
    pure true

  unfoldable pub keep_alive_lua : Text → ℕ → Text → Lua Db Bool
  keep_alive_lua workers now worker = do
    last_seen ← reads (λ d. R.zscore d workers worker)
    require last_seen worker_not_registered
    writes (R.zadd workers now worker)
    pure true

  -- The workers whose tasks are to be taken back.
  pub expired_workers : Text → ℕ → Option Text → Db → List Text
  expired_workers workers expired_before none d = R.zrangebyscore d workers expired_before
  expired_workers workers expired_before (some worker) d =
      if scored_by expired_before (R.zscore d workers worker) then worker ∷ [] else []

  -- The jobs of one set, if there are any, go to the active list.
  unfoldable pub drain : Text → Text → List Text → Lua Db (Unit {0})
  drain active inflight [] = pure tt
  drain active inflight (job ∷ jobs) = do
    writes (R.rpush active (job ∷ jobs))
    writes (R.del inflight)

  -- One worker: its tasks go to the active list, and it leaves the set of workers.
  unfoldable pub take_back : Text → Text → Text → Text → Lua Db ℕ
  take_back workers active prefix worker = do
    jobs ← reads (λ d. R.smembers d (prefix ++ (bytes ":" ++ worker)))
    drain active (prefix ++ (bytes ":" ++ worker)) jobs
    writes (R.zrem workers (worker ∷ []))
    pure (length jobs)

  unfoldable pub take_back_all : Text → Text → Text → List Text → ℕ → Lua Db ℕ
  take_back_all workers active prefix [] processed = pure processed
  take_back_all workers active prefix (worker ∷ rest) processed = do
    count ← take_back workers active prefix worker
    take_back_all workers active prefix rest (processed + count)

  unfoldable pub reenqueue_orphaned_lua : Text → Text → Text → Text → ℕ → Option Text → Lua Db ℕ
  reenqueue_orphaned_lua workers active signal prefix expired_before filter = do
    expired ← reads (expired_workers workers expired_before filter)
    processed ← take_back_all workers active prefix expired 0
    signal_if R signal (ltb 0 processed)
    pure processed

  unfoldable pub register_worker : WorkerContext → Config → ℕ → Query Db (Unit {0})
  register_worker worker c now = do
    threshold ← unwrap (orphaned_duration c)
    invoke (
        register_worker_lua (workers_set c) (worker_metadata_key c worker.name) now worker.name
          threshold.secs (bytes "RedisStorage") worker.service)
    pure tt

  unfoldable pub keep_alive : WorkerContext → Config → ℕ → Query Db (Unit {0})
  keep_alive worker c now = do invoke (keep_alive_lua (workers_set c) now worker.name); pure tt

  unfoldable pub reenqueue_orphaned : Config → ℕ → WorkerFilter → Query Db ℕ
  reenqueue_orphaned c now (only worker) = do
    expired_before ← unwrap (sub_u64 now c.heartbeat_interval.secs)
    invoke (
        reenqueue_orphaned_lua (workers_set c) (active_jobs_list c) (signal_list c)
          (inflight_jobs_set c) expired_before (some worker))
  reenqueue_orphaned c now (all_except worker) = do
    dead_for ← unwrap (orphaned_duration c)
    expired_before ← unwrap (sub_u64 now dead_for.secs)
    invoke (
        reenqueue_orphaned_lua (workers_set c) (active_jobs_list c) (signal_list c)
          (inflight_jobs_set c) expired_before none)
