-- ===== src/Task.antt =====
-- What the queries read of a task and of a worker: values of apalis-core, whose code is elsewhere.
use apalis_redis.Prelude.{ℕ, Option, List, Text}

-- A `Task`, by what its accessors return.
pub record Task {ℓ} (A : Type ℓ) : Type ℓ where
  pub args : A
  pub task_id : Option Text
  pub status : Text
  pub attempt : ℕ
  pub max_attempts : Option ℕ
  pub metadata : List (Text × Text)
  pub run_at : Option ℕ
  pub idempotency_key : Option Text
  pub lock_by : Option Text
  pub lock_at : Option ℕ

-- `RedisTask` of src/lib.rs, whose arguments are bytes unless others are named.
abbrev pub RedisTask : Type 0
RedisTask = Task Text

-- `WorkerContext`: the tasks that it runs are none if its registry cannot be read.
pub record WorkerContext : Type 0 where
  pub name : Text
  pub service : Text
  pub task_count : ℕ
  pub tasks : Option (List Text)
