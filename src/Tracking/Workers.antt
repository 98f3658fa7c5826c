-- ===== src/Tracking/Workers.antt =====
-- Registering, heartbeats and the taking back of orphaned tasks.
use apalis_redis.Prelude.{ℕ, ◌+◌, ltb, Option, none, some, ◌≡◌, List, [], ◌∷◌, Perm, Text, bytes}
use apalis_redis.Redis.{Redis, put_self}
use apalis_redis.Script.{still_active, worker_not_registered}
use apalis_redis.Config.{
  Config, active_jobs_list, inflight_jobs_set, inflight_set_for, signal_list, workers_set,
  worker_metadata_key, orphaned_duration,
}
use apalis_redis.Config.Keys.{queues-ne-scheduled, queues-ne-workers}
use apalis_redis.Task.{WorkerContext}
use apalis_redis.Worker.{
  WorkerFilter, only, all_except, seen_within, sub_u64, expired_workers, register_worker_lua,
  register_worker, keep_alive_lua, keep_alive, drain, take_back, take_back_all,
  reenqueue_orphaned_lua, reenqueue_orphaned,
}
use apalis_redis.Worker.Drain.{drain-set}
use apalis_redis.Tracking.Kit.{Kit}
use apalis_redis.Tracking.Keeps.{
  Keeps, next-through, after, fail_if-Keeps, require-Keeps, unwrap-Keeps, invoke-Keeps,
}
use apalis_redis.Tracking.Frame.{hset-Framed, zadd_gt-Framed}
use apalis_redis.Tracking.Scripts.{metadata-IsAside, framed, signal_if-Kept}

module _ (R : Redis) (c : Config) (K : Kit R c) where
  open R use {Db, keyspace}
  open K use {P}

  register_worker_lua-Kept :
      (now threshold : ℕ) (w backend service : Text)
      → Keeps P (
          register_worker_lua R
            (workers_set c)
            (worker_metadata_key c w)
            now
            w
            threshold
            backend
            service)
  unfolding register_worker_lua
  register_worker_lua-Kept now threshold w backend service = record {
    keep = λ d p.
        after P _
          (fail_if-Keeps P (seen_within now threshold (R.zscore d (workers_set c) w)) still_active)
          p
          λ _ d p. framed R c K (hset-Framed R c _ (metadata-IsAside c w) _ _) (
            framed R c K
              (zadd_gt-Framed R c _ now (workers_set c) _ (queues-ne-scheduled c)
                (queues-ne-workers c))
              (K.hear now w d p));
  }

  pub register_worker-Kept : (w : WorkerContext) (now : ℕ) → Keeps P (register_worker R w c now)
  unfolding register_worker
  register_worker-Kept w now = record {
    keep = λ d p. after P _ (unwrap-Keeps P (orphaned_duration c)) p λ threshold d p.
        after P _
          (invoke-Keeps P
            (register_worker_lua-Kept now threshold.secs w.name (bytes "RedisStorage") w.service))
          p λ _ d p. p;
  }

  keep_alive_lua-Kept : (now : ℕ) (w : Text) → Keeps P (keep_alive_lua R (workers_set c) now w)
  unfolding keep_alive_lua
  keep_alive_lua-Kept now w = record {
    keep = λ d p.
        after P _ (require-Keeps P (R.zscore d (workers_set c) w) worker_not_registered) p
          λ _ d p. K.hear now w d p;
  }

  pub keep_alive-Kept : (w : WorkerContext) (now : ℕ) → Keeps P (keep_alive R w c now)
  unfolding keep_alive
  keep_alive-Kept w now = record {
    keep = λ d p. after P _ (invoke-Keeps P (keep_alive_lua-Kept now w.name)) p λ _ d p. p;
  }

  -- A worker's tasks are taken from it.
  drained-Kept :
      (w : Text) (jobs : List Text) (d : Db)
      → Perm jobs ((keyspace d).set (inflight_set_for c w))
      → P d
      → P (drain R (active_jobs_list c) (inflight_set_for c w) jobs d).1
  unfolding drain
  drained-Kept w [] d q p = p
  drained-Kept w (job ∷ jobs) d q p = K.give_back w (job ∷ jobs) d q p

  drained-empty :
      (w : Text) (jobs : List Text) (d : Db)
      → Perm jobs ((keyspace d).set (inflight_set_for c w))
      → (keyspace (drain R (active_jobs_list c) (inflight_set_for c w) jobs d).1).set
          (inflight_set_for c w)
        ≡ []
  drained-empty w jobs d q =
      rw (drain-set R (active_jobs_list c) (inflight_set_for c w) jobs d q)
        (put_self (keyspace d).set (inflight_set_for c w) [])

  take_back-Kept :
      (w : Text)
      → Keeps P (take_back R (workers_set c) (active_jobs_list c) (inflight_jobs_set c) w)
  unfolding take_back inflight_set_for
  take_back-Kept w = record {
    keep = λ d p.
        let x = inflight_set_for c w in
        let q = R.smembers-perm d x in
        next-through P (λ e. P e × ((keyspace e).set x ≡ []))
          (drain R (active_jobs_list c) x (R.smembers d x) d) _ (λ _ r. r.0)
          (drained-Kept w _ d q p, drained-empty w _ d q) λ _ d r. K.retire w d r.1 r.0;
  }

  take_back_all-Kept :
      (ws : List Text) (n : ℕ)
      → Keeps P (take_back_all R (workers_set c) (active_jobs_list c) (inflight_jobs_set c) ws n)
  unfolding take_back_all
  take_back_all-Kept [] n = record { keep = λ d p. p }
  take_back_all-Kept (w ∷ ws) n = record {
    keep = λ d p. after P _ (take_back-Kept w) p λ count. (take_back_all-Kept ws (n + count)).keep;
  }

  reenqueue_orphaned_lua-Kept :
      (before : ℕ) (filter : Option Text)
      → Keeps P (
          reenqueue_orphaned_lua R
            (workers_set c)
            (active_jobs_list c)
            (signal_list c)
            (inflight_jobs_set c)
            before
            filter)
  unfolding reenqueue_orphaned_lua
  reenqueue_orphaned_lua-Kept before filter = record {
    keep = λ d p.
        after P _ (take_back_all-Kept (expired_workers R (workers_set c) before filter d) 0) p
          λ n d p. after P _ (signal_if-Kept R c K (ltb 0 n)) p λ _ d p. p;
  }

  pub reenqueue_orphaned-Kept :
      (now : ℕ) (filter : WorkerFilter) → Keeps P (reenqueue_orphaned R c now filter)
  unfolding reenqueue_orphaned
  reenqueue_orphaned-Kept now (only w) = record {
    keep = λ d p.
        after P _ (unwrap-Keeps P (sub_u64 now c.heartbeat_interval.secs)) p
          λ before. (invoke-Keeps P (reenqueue_orphaned_lua-Kept before (some w))).keep;
  }
  reenqueue_orphaned-Kept now (all_except w) = record {
    keep = λ d p. after P _ (unwrap-Keeps P (orphaned_duration c)) p λ dead_for d p.
        after P _ (unwrap-Keeps P (sub_u64 now dead_for.secs)) p
          λ before. (invoke-Keeps P (reenqueue_orphaned_lua-Kept before none)).keep;
  }
