-- ===== src/Fetch.antt =====
-- `fetch_next` of src/queries/fetch_next.rs with lua/fetch_next.lua: scheduled tasks that are due are
-- promoted to the active list, and a batch from its front goes to the worker's inflight set.
pub mod Batch
pub mod Next
pub mod Progress
use apalis_redis.Prelude.{
  ℕ, zero, suc, Bool, Option, none, some, List, [], ◌∷◌, ◌++◌, Text, bytes, length, ltb, map, true,
}
use apalis_redis.Redis.{Redis, Stop, at, last}
use apalis_redis.Script.{
  Lua, Query, Result, ok, err, worker_not_registered, invalid_data, error, database, pure, raise,
  reads, writes, when, require, invoke, ◌>>=◌, ◌>>◌,
}
use apalis_redis.Signal.{signal_if}
use apalis_redis.Config.{
  Config, workers_set, active_jobs_list, inflight_set_for, job_data_hash, signal_list,
  job_meta_hash, scheduled_jobs_set,
}
use apalis_redis.Task.{RedisTask, WorkerContext}
use apalis_redis.Lease.{meta_key}
use apalis_redis.Reply.{
  Value, Values, bulk_string, array, other, nil, cons, Core, CompactTask, DecodeError,
  deserialize_with_meta, into_full_compact,
}
use apalis_redis.Reply.RoundTrip.{flat}

-- `tonumber(ARGV[2]) - 1`: a batch size of 0 gives the index -1, the last one.
unfoldable pub batch_end : ℕ → Stop
batch_end zero = last
batch_end (suc n) = at n

-- One value of an HMGET reply.
abbrev pub nullable : Option Text → Value
nullable none = other
nullable (some s) = bulk_string s

unfoldable pub values : List Value → Values
values [] = nil
values (v ∷ vs) = cons v (values vs)

-- The tasks that are decoded, or the decoding error as a `RedisError`.
abbrev pub decoded : {D : Type 0} → Result DecodeError (List CompactTask) → Query D (List RedisTask)
decoded (ok tasks) = pure (map into_full_compact tasks)
decoded (err e) = raise (error (database invalid_data))

module _ (R : Redis) where
  open R use {Db}

  unfoldable pub promote : Text → Text → Text → List Text → Lua Db (Unit {0})
  promote scheduled active signal [] = pure tt
  promote scheduled active signal (id ∷ ids) = do
    writes (R.rpush active (id ∷ ids))
    writes (R.zrem scheduled (id ∷ ids))
    signal_if R signal true

  -- The data of the tasks, and for each its id and the fields of its metadata.
  unfoldable pub reply_of : Text → Text → List Text → Db → List Value
  reply_of data_hash meta ids d =
      array (values (map (λ id. nullable (R.hget d data_hash id)) ids))
      ∷ array (
          values
            (map (λ id. array (cons (bulk_string id) (flat (R.hgetall d (meta_key meta id))))) ids))
      ∷ []

  unfoldable pub mark_inflight : Text → Text → List Text → Lua Db (Unit {0})
  mark_inflight inflight active [] = pure tt
  mark_inflight inflight active (id ∷ ids) = do
    writes (R.sadd inflight (id ∷ ids))
    writes (R.ltrim active (length (id ∷ ids)))

  unfoldable pub fetch_next_lua :
      Text → Text → Text → Text → Text → Text → Text → ℕ → ℕ → Text → Lua Db (List Value)
  fetch_next_lua workers active inflight data_hash signal meta scheduled now batch worker = do
    registered ← reads (λ d. R.zscore d workers worker)
    require registered worker_not_registered
    due ← reads (λ d. R.zrangebyscore d scheduled now)
    promote scheduled active signal due
    ids ← reads (λ d. R.lrange d active (batch_end batch))
    mark_inflight inflight active ids
    reply ← reads (reply_of data_hash meta ids)
    when (ltb (length ids) batch) (writes (R.del signal))
    pure reply

  unfoldable pub fetch_next : Core → WorkerContext → Config → ℕ → Query Db (List RedisTask)
  fetch_next core worker c now = do
    reply ← invoke (
        fetch_next_lua (workers_set c) (active_jobs_list c) (inflight_set_for c worker.name)
          (job_data_hash c) (signal_list c) (job_meta_hash c) (scheduled_jobs_set c) now
          c.batch_size worker.name)
    decoded (deserialize_with_meta core reply)
