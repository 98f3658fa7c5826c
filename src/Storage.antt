-- ===== src/Storage.antt =====
-- `RedisStorage` of src/lib.rs: how a storage is made, the layer that its settings make, and how it
-- is closed.
pub mod Closing
use apalis_redis.Prelude.{
  ℕ, Bool, true, false, Option, none, some, List, [], ◌∷◌, Text, if◌then◌else◌,
}
use apalis_redis.Redis.{Redis}
use apalis_redis.Script.{Result, ok, err, Failure, panic}
use apalis_redis.Config.{Config, queue, default, workers_set, inflight_set_for}
use apalis_redis.Task.{WorkerContext}

-- How far the future of the cleanup is: a future that has returned panics when it is polled again.
pub data Cleanup : Type 0 where
  unsent returned : Cleanup

-- The settings, and the cleanup once the storage is being closed.
pub record RedisStorage : Type 0 where
  pub config : Config
  pub cleanup : Option Cleanup

-- `type_name` is what `std::any::type_name::<T>()` returns.
unfoldable pub new : Text → RedisStorage
new type_name = record { config = queue type_name default; cleanup = none }

unfoldable pub with_config : Config → RedisStorage → RedisStorage
with_config c s = record { config = c; cleanup = none }

unfoldable pub clone : RedisStorage → RedisStorage
clone s = record s { cleanup = none }

-- What `TaskPersistLayer` is told.
pub record Layer : Type 0 where
  pub batch_size : ℕ
  pub persist_results : Bool
  pub lock_tasks : Bool

unfoldable pub middleware : RedisStorage → Layer
middleware s = record {
  batch_size = s.config.batch_size;
  persist_results = s.config.persist_results;
  lock_tasks = s.config.lock_tasks;
}

pub data Polled : Type 0 where
  pending : Polled
  ready : Result Failure (Unit {0}) → Polled

module _ (R : Redis) where
  open R use {Db}

  -- The cleanup's future: once the server has replied, its command has been carried out.
  unfoldable pub poll_cleanup :
      WorkerContext → Bool → Cleanup → RedisStorage → Db → Polled × RedisStorage × Db
  poll_cleanup w replied returned s d = (ready (err panic), s, d)
  poll_cleanup w replied unsent s d =
      if replied
      then (
        ready (ok tt),
        record s { cleanup = some returned },
        R.zrem (workers_set s.config) (inflight_set_for s.config w.name ∷ []) d,
      )
      else (pending, record s { cleanup = some unsent }, d)

  -- `closed` is what `Persisted::poll_close` returns, and `replied` whether the server has replied to
  -- the cleanup by then.
  unfoldable pub poll_close :
      WorkerContext → Polled → Bool → RedisStorage → Db → Polled × RedisStorage × Db
  poll_close w closed replied s d = elim s.cleanup [
    | some cleanup ↦ poll_cleanup w replied cleanup s d
    | none ↦ elim closed [
      | pending ↦ (pending, s, d)
      | ready r ↦ elim r [
        | err e ↦ (ready (err e), s, d)
        | ok done ↦ poll_cleanup w replied unsent (record s { cleanup = some unsent }) d
      ]
    ]
  ]
