-- ===== src/Results.antt =====
-- src/queries/handle_results.rs with lua/handle_results.lua: what becomes of the tasks that a worker
-- has run.
pub mod Steps
mod Many
pub mod Routing
use apalis_redis.Prelude.{
  ℕ, suc, ◌+◌, Bool, true, false, ◌||◌, ◌&&◌, Option, none, some, List, [], ◌∷◌, ◌++◌, Text, bytes,
  text_dec, ◌==◌, ltb, ite, if◌then◌else◌,
}
use apalis_redis.Prelude.Decimal.{decimal}
use apalis_redis.Redis.{Redis}
use apalis_redis.Script.{
  Lua, Query, not_executed, error, json, pure, raise, writes, calls, when, fail_if, invoke, ◌>>=◌,
  ◌>>◌,
}
use apalis_redis.Config.{
  Config, inflight_set_for, done_jobs_set, dead_jobs_set, scheduled_jobs_set, job_meta_hash,
}
use apalis_redis.Task.{WorkerContext}
use apalis_redis.Lease.{meta_key}

-- `TaskResult<Value>` by what its accessors return; `result` is what serde_json makes of the result,
-- or none if it cannot.
pub record TaskResult : Type 0 where
  pub task_id : Text
  pub status : Text
  pub attempt : ℕ
  pub result : Option Text

-- The five arguments that the script gets for a task.
pub record Ack : Type 0 where
  pub task_id : Text
  pub timestamp : ℕ
  pub result_data : Text
  pub status : Text
  pub attempt : ℕ

unfoldable pub acks_of : ℕ → List TaskResult → Option (List Ack)
acks_of now [] = some []
acks_of now (p ∷ ps) = elim p.result [
  | none ↦ none
  | some r ↦ elim (acks_of now ps) [
    | none ↦ none
    | some acks ↦ some (
        record {
          task_id = p.task_id;
          timestamp = now;
          result_data = r;
          status = p.status;
          attempt = p.attempt;
        }
        ∷ acks)
  ]
]

abbrev pub equals : Text → Text → Bool
equals s t = ite (text_dec s t) true false

-- `(status == 'Failed' or status == 'Pending') and (tonumber(attempt) or 0) < 25`
abbrev pub retried : Ack → Bool
retried a =
    (equals a.status (bytes "Failed") || equals a.status (bytes "Pending")) && ltb a.attempt 25

module _ (R : Redis) where
  open R use {Db}

  -- The branches of the script, by the tests `status == 'Done'` and `retried`.
  unfoldable pub settle : Text → Text → Text → Bool → Ack → Bool → Bool → Lua Db (Unit {0})
  settle done dead scheduled emit a true _ = do
    writes (R.sadd done (a.task_id ∷ []))
    when emit (writes (R.publish (bytes "tasks:" ++ done) a.task_id))
  settle done dead scheduled emit a false true = do
    writes (R.zadd scheduled (a.timestamp + a.attempt) a.task_id)
    when emit (writes (R.publish (bytes "tasks:" ++ (scheduled ++ bytes ":retry")) a.task_id))
  settle done dead scheduled emit a false false = do
    writes (R.sadd dead (a.task_id ∷ []))
    when emit (writes (R.publish (bytes "tasks:" ++ dead) a.task_id))

  unfoldable pub handle_result : Text → Text → Text → Text → Text → Bool → Ack → Lua Db (Unit {0})
  handle_result inflight done dead scheduled meta emit a = do
    removed ← calls (R.srem inflight a.task_id)
    fail_if (removed == 0) not_executed
    settle done dead scheduled emit a (equals a.status (bytes "Done")) (retried a)
    writes (
        R.hset (meta_key meta a.task_id) (
          (bytes "result", a.result_data)
          ∷ (bytes "status", a.status)
          ∷ (bytes "attempts", decimal a.attempt)
          ∷ (bytes "done_at", decimal a.timestamp)
          ∷ []))

  unfoldable pub handle_results_lua :
      Text → Text → Text → Text → Text → Bool → List Ack → ℕ → Lua Db ℕ
  handle_results_lua inflight done dead scheduled meta emit [] acked = pure acked
  handle_results_lua inflight done dead scheduled meta emit (a ∷ acks) acked = do
    handle_result inflight done dead scheduled meta emit a
    handle_results_lua inflight done dead scheduled meta emit acks (suc acked)

  unfoldable pub handle_results : WorkerContext → Config → ℕ → List TaskResult → Query Db (Unit {0})
  handle_results w c now [] = pure tt
  handle_results w c now (p ∷ ps) = do
    acks ← elim (acks_of now (p ∷ ps)) [ none ↦ raise (error json) | some acks ↦ pure acks ]
    invoke (
        handle_results_lua (inflight_set_for c w.name) (done_jobs_set c) (dead_jobs_set c)
          (scheduled_jobs_set c) (job_meta_hash c) c.emit_events acks 0)
    pure tt
