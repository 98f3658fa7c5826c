-- ===== src/Tracking/Kit.antt =====
-- What an invariant of the tasks' places has to survive: the moves that the scripts are made of.
use apalis_redis.Prelude.{ℕ, ◌≡◌, ◌≢◌, true, false, none, List, [], ◌∷◌, ◌++◌, drop, Perm, Text}
use apalis_redis.Prelude.Assoc.{lookup, contains}
use apalis_redis.Redis.{Redis, below}
use apalis_redis.Config.{
  Config, active_jobs_list, inflight_set_for, done_jobs_set, dead_jobs_set, scheduled_jobs_set,
  job_data_hash, workers_set,
}
use apalis_redis.Tracking.Frame.{Alike}

-- `P` is the invariant, and `Loose id` what holds while the task `id` is between two places.
pub record Kit (R : Redis) (c : Config) : Type 1 where
  pub P : R.Db → Type 0
  pub Loose : Text → R.Db → Type 0
  pub frame : (d e : R.Db) → Alike c (R.keyspace d) (R.keyspace e) → P d → P e
  pub frame_loose :
      (id : Text) (d e : R.Db) → Alike c (R.keyspace d) (R.keyspace e) → Loose id d → Loose id e
  -- Scheduled tasks that are due go to the active list.
  pub promote :
      (now : ℕ) (ids : List Text) (d : R.Db)
      → Perm ids (below now ((R.keyspace d).zset (scheduled_jobs_set c)))
      → P d
      → P (R.zrem (scheduled_jobs_set c) ids (R.rpush (active_jobs_list c) ids d))
  -- The front of the active list goes to a registered worker.
  pub mark :
      (w : Text) (ids : List Text) (n : ℕ) (d : R.Db)
      → lookup w ((R.keyspace d).zset (workers_set c)) ≢ none
      → ids ++ drop n ((R.keyspace d).list (active_jobs_list c))
        ≡ (R.keyspace d).list (active_jobs_list c)
      → P d
      → P (R.ltrim (active_jobs_list c) n (R.sadd (inflight_set_for c w) ids d))
  -- A task that a worker holds is taken off the active list.
  pub lock :
      (w id : Text) (d : R.Db)
      → contains id ((R.keyspace d).set (inflight_set_for c w)) ≡ true
      → P d
      → P (R.sadd (inflight_set_for c w) (id ∷ []) (R.lrem_first (active_jobs_list c) id d))
  -- All that a worker holds goes to the active list.
  pub give_back :
      (w : Text) (jobs : List Text) (d : R.Db)
      → Perm jobs ((R.keyspace d).set (inflight_set_for c w))
      → P d
      → P (R.del (inflight_set_for c w) (R.rpush (active_jobs_list c) jobs d))
  -- A task is taken from a worker, or is not with it.
  pub take :
      (w id : Text) (d : R.Db)
      → contains id ((R.keyspace d).set (inflight_set_for c w)) ≡ true
      → P d
      → Loose id (R.srem (inflight_set_for c w) id d).1
  pub miss :
      (w id : Text) (d : R.Db)
      → contains id ((R.keyspace d).set (inflight_set_for c w)) ≡ false
      → P d
      → P (R.srem (inflight_set_for c w) id d).1
  -- The data of a new task is stored.
  pub store :
      (id v : Text) (d : R.Db)
      → lookup id ((R.keyspace d).hash (job_data_hash c)) ≡ none
      → P d
      → Loose id (R.hsetnx (job_data_hash c) id v d).1
  -- The places that a task is put to.
  pub enqueue : (id : Text) (d : R.Db) → Loose id d → P (R.rpush (active_jobs_list c) (id ∷ []) d)
  pub schedule :
      (n : ℕ) (id : Text) (d : R.Db) → Loose id d → P (R.zadd (scheduled_jobs_set c) n id d)
  pub finish : (id : Text) (d : R.Db) → Loose id d → P (R.sadd (done_jobs_set c) (id ∷ []) d)
  pub bury : (id : Text) (d : R.Db) → Loose id d → P (R.sadd (dead_jobs_set c) (id ∷ []) d)
  -- A worker is heard of, or a worker that holds nothing leaves.
  pub hear : (now : ℕ) (w : Text) (d : R.Db) → P d → P (R.zadd (workers_set c) now w d)
  pub retire :
      (w : Text) (d : R.Db)
      → (R.keyspace d).set (inflight_set_for c w) ≡ []
      → P d
      → P (R.zrem (workers_set c) (w ∷ []) d)
