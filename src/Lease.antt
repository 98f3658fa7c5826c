-- ===== src/Lease.antt =====
-- src/queries/task_lease.rs with lua/acquire_leases.lua, lua/renew_leases.lua and
-- lua/release_leases.lua: the leases that a worker holds on the tasks of its inflight set.
-- KEYS and ARGV are the scripts' parameters in their order; a number in ARGV is passed as such.
pub mod Checks
pub mod Locks
pub mod Acquire
pub mod Renew
pub mod Release
use apalis_redis.Prelude.{
  ◌≡◌, refl, sym, ite, if_pos, if_neg, text_dec, append-left_cancel, ℕ, suc, Bool, true, false,
  ◌==◌, Option, none, some, List, [], ◌∷◌, ◌++◌, Text, bytes, length, not, ltb, if◌then◌else◌,
}
use apalis_redis.Prelude.Decimal.{decimal}
use apalis_redis.Redis.{Redis, put, put_self, put-ne}
use apalis_redis.Script.{
  Lua, Query, worker_not_registered, not_held, nil_concatenation, error, worker_out_of_sync, pure,
  raise, reads, writes, calls, when, fail_if, require, invoke, unwrap, ◌>>=◌, ◌>>◌,
}
use apalis_redis.Config.{
  Config, inflight_set_for, workers_set, job_meta_hash, active_jobs_list, signal_list,
}
use apalis_redis.Signal.{signal_if}
use apalis_redis.Task.{RedisTask, WorkerContext}

-- `KEYS[3] .. ":" .. task_id`
abbrev pub meta_key : Text → Text → Text
meta_key prefix id = prefix ++ (bytes ":" ++ id)

-- Two tasks of a queue have the same metadata key only if they are the same.
pub put-meta {ℓ} :
    {A : Type ℓ} (f : Text → A) (prefix id j : Text) (a : A)
    → put f (meta_key prefix id) a (meta_key prefix j)
      ≡ ite (text_dec id j) a (f (meta_key prefix j))
put-meta f prefix id j a = elim (text_dec id j) [
  | yes e ↦ rw (e, put_self f (meta_key prefix j) a) (sym (if_pos (text_dec j j) refl a _))
  | no n ↦
      rw
        (put-ne f (meta_key prefix id) a (meta_key prefix j)
          (λ e. n (append-left_cancel (bytes ":") (append-left_cancel prefix e))))
        (sym (if_neg (text_dec id j) n a _))
]

-- "tasks:" .. KEYS[n] .. action
abbrev pub channel : Text → Text → Text
channel list action = bytes "tasks:" ++ (list ++ action)

-- `task.task_id().unwrap().to_string()` of each task.
unfoldable pub task_ids : List RedisTask → Option (List Text)
task_ids [] = some []
task_ids (t ∷ ts) = elim t.task_id [
  | none ↦ none
  | some id ↦ elim (task_ids ts) [ none ↦ none | some ids ↦ some (id ∷ ids) ]
]

module _ (R : Redis) where
  open R use {Db}

  -- The first loop of acquire and renew: every task is in the worker's inflight set.
  unfoldable pub check_held : Text → List Text → Lua Db (Unit {0})
  check_held inflight [] = pure tt
  check_held inflight (id ∷ ids) = do
    held ← reads (λ d. R.sismember d inflight id)
    fail_if (not held) (not_held id)
    check_held inflight ids

  unfoldable pub lock : Text → Text → Text → Text → ℕ → Bool → Text → Lua Db (Unit {0})
  lock inflight meta active worker now emit id = do
    writes (R.lrem_first active id)
    writes (R.sadd inflight (id ∷ []))
    writes (
        R.hset (meta_key meta id) (
          (bytes "locked_at", decimal now)
          ∷ (bytes "locked_by", worker)
          ∷ (bytes "status", bytes "Running")
          ∷ []))
    when emit (writes (R.publish (channel active (bytes ":lock")) id))

  unfoldable pub lock_all : Text → Text → Text → Text → ℕ → Bool → List Text → Lua Db (Unit {0})
  lock_all inflight meta active worker now emit [] = pure tt
  lock_all inflight meta active worker now emit (id ∷ ids) = do
    lock inflight meta active worker now emit id
    lock_all inflight meta active worker now emit ids

  unfoldable pub acquire_leases_lua :
      Text → Text → Text → Text → Text → ℕ → Bool → List Text → Lua Db ℕ
  acquire_leases_lua inflight workers meta active worker now emit ids = do
    registered ← reads (λ d. R.zscore d workers worker)
    require registered worker_not_registered
    check_held inflight ids
    lock_all inflight meta active worker now emit ids
    pure (length ids)

  unfoldable pub renew : Text → Option Text → Text → ℕ → Bool → Text → Lua Db (Unit {0})
  renew meta active worker now emit id = do
    writes (R.hset (meta_key meta id) ((bytes "locked_at", decimal now) ∷ []))
    when emit do
      list ← require active nil_concatenation
      writes (R.publish (channel list (bytes ":heartbeat")) (R.cjson_lease id worker))

  unfoldable pub renew_all : Text → Option Text → Text → ℕ → Bool → List Text → Lua Db (Unit {0})
  renew_all meta active worker now emit [] = pure tt
  renew_all meta active worker now emit (id ∷ ids) = do
    renew meta active worker now emit id
    renew_all meta active worker now emit ids

  -- KEYS[4] is absent where the caller passes three keys.
  unfoldable pub renew_leases_lua :
      Text → Text → Text → Option Text → Text → ℕ → Bool → List Text → Lua Db ℕ
  renew_leases_lua inflight workers meta active worker now emit ids = do
    registered ← reads (λ d. R.zscore d workers worker)
    require registered worker_not_registered
    check_held inflight ids
    renew_all meta active worker now emit ids
    pure (length ids)

  -- What a released task goes through: it is pending again, and nobody's.
  unfoldable pub reset : Text → Text → Bool → Text → Lua Db (Unit {0})
  reset active meta emit id = do
    writes (R.hset (meta_key meta id) ((bytes "status", bytes "Pending") ∷ []))
    writes (R.hdel (meta_key meta id) (bytes "locked_at" ∷ bytes "locked_by" ∷ []))
    when emit (writes (R.publish (channel active (bytes ":available")) id))

  unfoldable pub reset_all : Text → Text → Bool → List Text → Lua Db (Unit {0})
  reset_all active meta emit [] = pure tt
  reset_all active meta emit (id ∷ ids) = do
    reset active meta emit id
    reset_all active meta emit ids

  unfoldable pub release_each : Text → Text → Text → Bool → List Text → ℕ → Lua Db ℕ
  release_each inflight active meta emit [] count = pure count
  release_each inflight active meta emit (id ∷ ids) count = do
    removed ← calls (R.srem inflight id)
    when (removed == 1) do writes (R.rpush active (id ∷ [])); reset active meta emit id
    release_each inflight active meta emit ids (if removed == 1 then suc count else count)

  unfoldable pub release_everything : Text → Text → Text → Bool → Lua Db ℕ
  release_everything inflight active meta emit = do
    all ← reads (λ d. R.smembers d inflight)
    when (ltb 0 (length all))
        do writes (R.rpush active all); writes (R.del inflight); reset_all active meta emit all
    pure (length all)

  -- With no ids, everything that the worker holds.
  unfoldable pub release_jobs : Text → Text → Text → Bool → List Text → Lua Db ℕ
  release_jobs inflight active meta emit [] = release_everything inflight active meta emit
  release_jobs inflight active meta emit (id ∷ ids) =
      release_each inflight active meta emit (id ∷ ids) 0

  unfoldable pub release_leases_lua : Text → Text → Text → Text → Bool → List Text → Lua Db ℕ
  release_leases_lua inflight active signal meta emit ids = do
    count ← release_jobs inflight active meta emit ids
    signal_if R signal (ltb 0 count)
    pure count

  unfoldable pub acquire_leases : WorkerContext → Config → ℕ → List Text → Query Db ℕ
  acquire_leases worker c now [] = pure 0
  acquire_leases worker c now (id ∷ ids) = invoke (
      acquire_leases_lua (inflight_set_for c worker.name) (workers_set c) (job_meta_hash c)
        (active_jobs_list c) worker.name now c.emit_events (id ∷ ids))

  -- `tracking` is the crate's feature `task-tracking`.
  unfoldable pub renew_leases : Bool → WorkerContext → Config → ℕ → Query Db ℕ
  renew_leases tracking worker c now d =
      if worker.task_count == 0
      then (pure 0) d
      else (do
        tasks ← elim tracking [
          | true ↦ elim worker.tasks [ none ↦ raise (error worker_out_of_sync) | some ts ↦ pure ts ]
          | false ↦ pure []
        ]
        invoke (
            renew_leases_lua (inflight_set_for c worker.name) (workers_set c) (job_meta_hash c) none
              worker.name now c.emit_events tasks))
          d

  -- The worker's name and the workers' set are passed to the script too, which does not read them.
  unfoldable pub release_leases : Config → WorkerContext → List RedisTask → Query Db ℕ
  release_leases c worker tasks = do
    ids ← unwrap (task_ids tasks)
    invoke (
        release_leases_lua (inflight_set_for c worker.name) (active_jobs_list c) (signal_list c)
          (job_meta_hash c) c.emit_events ids)
