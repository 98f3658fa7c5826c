-- ===== src/Tracking/Outcomes.antt =====
-- The handling of results.
use apalis_redis.Prelude.{ℕ, inl, inr, Bool, true, false, suc, List, [], ◌∷◌, Text, bytes}
use apalis_redis.Redis.{Redis}
use apalis_redis.Script.{error, json}
use apalis_redis.Config.{
  Config, inflight_set_for, done_jobs_set, dead_jobs_set, scheduled_jobs_set, job_meta_hash,
}
use apalis_redis.Task.{WorkerContext}
use apalis_redis.Results.{
  Ack, TaskResult, acks_of, equals, retried, settle, handle_result, handle_results_lua,
  handle_results,
}
use apalis_redis.Tracking.Kit.{Kit}
use apalis_redis.Tracking.Keeps.{Keeps, next-keep, after, found-Keeps, invoke-Keeps}
use apalis_redis.Tracking.Scripts.{published-Kept, hset_meta, taken}

module _ (R : Redis) (c : Config) (K : Kit R c) where
  open R use {Db, keyspace}
  open K use {P}

  settled :
      (emit : Bool) (a : Ack) (done retry : Bool) (d : Db)
      → K.Loose a.task_id d
      → P
          (settle R
            (done_jobs_set c)
            (dead_jobs_set c)
            (scheduled_jobs_set c)
            emit
            a
            done
            retry
            d).1
  unfolding settle
  settled emit a true retry d h = (published-Kept R c K emit _ a.task_id).keep _ (K.finish _ d h)
  settled emit a false true d h =
      (published-Kept R c K emit _ a.task_id).keep _ (K.schedule _ _ d h)
  settled emit a false false d h = (published-Kept R c K emit _ a.task_id).keep _ (K.bury _ d h)

  handle_result-Kept :
      (w : Text) (emit : Bool) (a : Ack)
      → Keeps P (
          handle_result R
            (inflight_set_for c w)
            (done_jobs_set c)
            (dead_jobs_set c)
            (scheduled_jobs_set c)
            (job_meta_hash c)
            emit
            a)
  unfolding handle_result
  handle_result-Kept w emit a = record {
    keep = λ d p. elim (taken R c K w a.task_id d p) [
      | inr (e, p') ↦ rw e p'
      | inl (e, loose) ↦
          let d' = (R.srem (inflight_set_for c w) a.task_id d).1 in
          rw e (
            next-keep P
              (settle R (done_jobs_set c) (dead_jobs_set c) (scheduled_jobs_set c) emit a
                (equals a.status (bytes "Done")) (retried a) d')
              _ (settled emit a _ _ d' loose) λ _ d p. hset_meta R c K a.task_id _ d p)
    ];
  }

  handle_results_lua-Kept :
      (w : Text) (emit : Bool) (acks : List Ack) (n : ℕ)
      → Keeps P (
          handle_results_lua R
            (inflight_set_for c w)
            (done_jobs_set c)
            (dead_jobs_set c)
            (scheduled_jobs_set c)
            (job_meta_hash c)
            emit
            acks
            n)
  unfolding handle_results_lua
  handle_results_lua-Kept w emit [] n = record { keep = λ d p. p }
  handle_results_lua-Kept w emit (a ∷ acks) n = record {
    keep = λ d p.
        after P _ (handle_result-Kept w emit a) p
          λ _. (handle_results_lua-Kept w emit acks (suc n)).keep;
  }

  pub handle_results-Kept :
      (w : WorkerContext) (now : ℕ) (ps : List TaskResult) → Keeps P (handle_results R w c now ps)
  unfolding handle_results
  handle_results-Kept w now [] = record { keep = λ d p. p }
  handle_results-Kept w now (r ∷ rs) = record {
    keep = λ d p. after P _ (found-Keeps P (acks_of now (r ∷ rs)) (error json)) p λ acks d p.
        after P _ (invoke-Keeps P (handle_results_lua-Kept w.name c.emit_events acks 0)) p
          λ _ d p. p;
  }
