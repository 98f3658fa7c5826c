-- ===== src/Tracking.antt =====
-- Where a stored task is: the queries of all workers and producers as steps on one server, in any
-- order. Each query runs at most one script, which the server executes as one step.
mod Keeps
mod Frame
mod Kit
mod Moves
mod Losses
mod Places
pub mod Counts
pub mod Exclusive
pub mod Registered
mod Scripts
mod Fetches
mod Leases
mod Releases
mod Workers
mod Outcomes
mod Vacuums
mod Pushes
pub mod Reach
pub mod Holders
use apalis_redis.Prelude.{ℕ, ◌≡◌, ◌≢◌, true, none, Text}
use apalis_redis.Prelude.Assoc.{lookup, contains}
use apalis_redis.Redis.{Keyspace}
use apalis_redis.Config.{
  Config, active_jobs_list, inflight_set_for, done_jobs_set, dead_jobs_set, scheduled_jobs_set,
  job_data_hash,
}

-- A task is not stored, or it is in one of the five places of its queue.
pub data Accounted (c : Config) (j : Text) (k : Keyspace) : Type 0 where
  unstored : lookup j (k.hash (job_data_hash c)) ≡ none → Accounted c j k
  waiting : contains j (k.list (active_jobs_list c)) ≡ true → Accounted c j k
  scheduled : lookup j (k.zset (scheduled_jobs_set c)) ≢ none → Accounted c j k
  held : (w : Text) → contains j (k.set (inflight_set_for c w)) ≡ true → Accounted c j k
  done : contains j (k.set (done_jobs_set c)) ≡ true → Accounted c j k
  dead : contains j (k.set (dead_jobs_set c)) ≡ true → Accounted c j k
