-- ===== src/Persist.antt =====
-- `RedisPersistence` of src/persist.rs: what a worker calls. Every reading of the clock is a
-- parameter of its own, in the order of the readings.
pub mod Handling
pub mod Heartbeat
use apalis_redis.Prelude.{
  ℕ, Bool, true, false, not, ◌&&◌, ◌==◌, List, [], ◌∷◌, Text, length, if◌then◌else◌,
}
use apalis_redis.Redis.{Redis}
use apalis_redis.Script.{
  Query, Failure, error, reenqueue_mismatch, pure, raise, when, fail_if, ◌>>=◌, ◌>>◌,
}
use apalis_redis.Config.{Config}
use apalis_redis.Task.{RedisTask, WorkerContext}
use apalis_redis.Reply.{Core}
use apalis_redis.Lease.{acquire_leases, renew_leases, release_leases}
use apalis_redis.Worker.{only, all_except, register_worker, keep_alive, reenqueue_orphaned}
use apalis_redis.Fetch
use apalis_redis.Results.{TaskResult, handle_results}
use apalis_redis.Push
use apalis_redis.Push.{Codec}

-- `TaskEvent` by what the code tells apart.
pub data TaskEvent : Type 0 where
  lock : Text → TaskEvent
  complete : TaskResult → TaskEvent
  other : TaskEvent

unfoldable pub lock_ids : List TaskEvent → List Text
lock_ids [] = []
lock_ids (lock id ∷ ms) = id ∷ lock_ids ms
lock_ids (complete p ∷ ms) = lock_ids ms
lock_ids (other ∷ ms) = lock_ids ms

unfoldable pub ack_payloads : List TaskEvent → List TaskResult
ack_payloads [] = []
ack_payloads (lock id ∷ ms) = ack_payloads ms
ack_payloads (complete p ∷ ms) = p ∷ ack_payloads ms
ack_payloads (other ∷ ms) = ack_payloads ms

abbrev pub is_empty {ℓ} : {A : Type ℓ} → List A → Bool
is_empty [] = true
is_empty (x ∷ xs) = false

module _ (R : Redis) where
  open R use {Db}

  pub register : Config → WorkerContext → ℕ → ℕ → Query Db (Unit {0})
  register c w now now' = do reenqueue_orphaned R c now (only w.name); register_worker R w c now'

  pub heartbeat : Bool → Config → WorkerContext → ℕ → ℕ → ℕ → Query Db (Unit {0})
  heartbeat tracking c w now now' now'' = do
    keep_alive R w c now
    when c.lock_tasks do renew_leases R tracking w c now'; pure tt
    reenqueue_orphaned R c now'' (all_except w.name)
    pure tt

  abbrev pub fetch_next : Core → Config → WorkerContext → ℕ → Query Db (List RedisTask)
  fetch_next core c w now = Fetch.fetch_next R core w c now

  pub handle_events : Config → List TaskEvent → WorkerContext → ℕ → ℕ → Query Db (Unit {0})
  handle_events c messages w now now' = do
    when (not (is_empty (lock_ids messages)))
        do acquire_leases R w c now (lock_ids messages); pure tt
    when (not (is_empty (ack_payloads messages)))
        (handle_results R w c now' (ack_payloads messages))

  pub reenqueue_abandoned : Config → List RedisTask → WorkerContext → Query Db ℕ
  reenqueue_abandoned c tasks w = do
    count ← release_leases R c w tasks
    fail_if (c.lock_tasks && not (count == length tasks))
        (error (reenqueue_mismatch (length tasks) count))
    pure count

  abbrev pub push_tasks : Codec → Config → ℕ → List RedisTask → Query Db (Unit {0})
  push_tasks codec c now tasks = do Push.push_tasks R codec c now tasks; pure tt
