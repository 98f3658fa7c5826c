-- ===== src/Tracking/Leases.antt =====
-- Acquiring and renewing leases.
use apalis_redis.Prelude.{
  ℕ, ◌≡◌, inl, inr, Bool, true, false, not, ◌==◌, Option, none, some, List, [], ◌∷◌, Text, bytes,
}
use apalis_redis.Prelude.Assoc.{contains}
use apalis_redis.Redis.{Redis}
use apalis_redis.Script.{worker_not_registered, not_held, error, worker_out_of_sync}
use apalis_redis.Config.{Config, active_jobs_list, inflight_set_for, job_meta_hash, workers_set}
use apalis_redis.Task.{WorkerContext}
use apalis_redis.Lease.{
  channel, check_held, lock, lock_all, acquire_leases_lua, acquire_leases, renew, renew_all,
  renew_leases_lua, renew_leases,
}
use apalis_redis.Lease.Checks.{AllIn, check_held-cases}
use apalis_redis.Lease.Locks.{AllIn-add, lock-ok, lock-set}
use apalis_redis.Tracking.Kit.{Kit}
use apalis_redis.Tracking.Keeps.{
  Keeps, next-keep, after, fail_if-Keeps, require-Keeps, found-Keeps, if-keep, invoke-Keeps,
}
use apalis_redis.Tracking.Scripts.{hset_meta, published-Kept}

module _ (R : Redis) (c : Config) (K : Kit R c) where
  open R use {Db, keyspace}
  open K use {P}

  check_held-Kept : (x : Text) (ids : List Text) → Keeps P (check_held R x ids)
  unfolding check_held
  check_held-Kept x [] = record { keep = λ d p. p }
  check_held-Kept x (id ∷ ids) = record {
    keep = λ d p.
        after P _ (fail_if-Keeps P (not (R.sismember d x id)) (not_held id)) p
          λ _. (check_held-Kept x ids).keep;
  }

  locked :
      (w v : Text) (now : ℕ) (emit : Bool) (id : Text) (d : Db)
      → contains id ((keyspace d).set (inflight_set_for c w)) ≡ true
      → P d
      → P (lock R (inflight_set_for c w) (job_meta_hash c) (active_jobs_list c) v now emit id d).1
  unfolding lock
  locked w v now emit id d h p =
      (published-Kept R c K emit (channel (active_jobs_list c) (bytes ":lock")) id).keep _
        (hset_meta R c K id _ _ (K.lock w id d h p))

  all_locked :
      (w v : Text) (now : ℕ) (emit : Bool) (ids : List Text) (d : Db)
      → AllIn ((keyspace d).set (inflight_set_for c w)) ids
      → P d
      → P
          (lock_all R
            (inflight_set_for c w)
            (job_meta_hash c)
            (active_jobs_list c)
            v
            now
            emit
            ids
            d).1
  unfolding lock_all
  all_locked w v now emit [] d h p = p
  all_locked w v now emit (id ∷ ids) d h p =
      let x = inflight_set_for c w in
      let d' = (lock R x (job_meta_hash c) (active_jobs_list c) v now emit id d).1 in
      rw (lock-ok R x (job_meta_hash c) (active_jobs_list c) v now emit id d) (
        all_locked w v now emit ids d'
          (rw (lock-set R x (job_meta_hash c) (active_jobs_list c) v now emit id d)
            (AllIn-add ((keyspace d).set x) id ids h.1))
          (locked w v now emit id d h.0 p))

  acquire_leases_lua-Kept :
      (w : Text) (now : ℕ) (emit : Bool) (ids : List Text)
      → Keeps P (
          acquire_leases_lua R
            (inflight_set_for c w)
            (workers_set c)
            (job_meta_hash c)
            (active_jobs_list c)
            w
            now
            emit
            ids)
  unfolding acquire_leases_lua
  acquire_leases_lua-Kept w now emit ids = record {
    keep = λ d p.
        after P _ (require-Keeps P (R.zscore d (workers_set c) w) worker_not_registered) p λ _ d p.
          elim (check_held-cases R (inflight_set_for c w) ids d) [
            | inr (x, e) ↦ rw e p
            | inl (e, h) ↦ rw e (
                next-keep P
                  (lock_all R (inflight_set_for c w) (job_meta_hash c) (active_jobs_list c) w now
                    emit ids d)
                  _ (all_locked w w now emit ids d h p) λ _ d p. p)
          ];
  }

  pub acquire_leases-Kept :
      (w : WorkerContext) (now : ℕ) (ids : List Text) → Keeps P (acquire_leases R w c now ids)
  unfolding acquire_leases
  acquire_leases-Kept w now [] = record { keep = λ d p. p }
  acquire_leases-Kept w now (id ∷ ids) = record {
    keep = λ d p.
        (invoke-Keeps P (acquire_leases_lua-Kept w.name now c.emit_events (id ∷ ids))).keep d p;
  }

  renew-Kept :
      (active : Option Text) (w : Text) (now : ℕ) (emit : Bool) (id : Text)
      → Keeps P (renew R (job_meta_hash c) active w now emit id)
  unfolding renew
  renew-Kept none w now true id = record { keep = λ d p. hset_meta R c K id _ d p }
  renew-Kept (some active) w now true id = record {
    keep = λ d p.
        (published-Kept R c K true (channel active (bytes ":heartbeat")) _).keep _
          (hset_meta R c K id _ d p);
  }
  renew-Kept active w now false id = record { keep = λ d p. hset_meta R c K id _ d p }

  renew_all-Kept :
      (active : Option Text) (w : Text) (now : ℕ) (emit : Bool) (ids : List Text)
      → Keeps P (renew_all R (job_meta_hash c) active w now emit ids)
  unfolding renew_all
  renew_all-Kept active w now emit [] = record { keep = λ d p. p }
  renew_all-Kept active w now emit (id ∷ ids) = record {
    keep = λ d p.
        after P _ (renew-Kept active w now emit id) p
          λ _. (renew_all-Kept active w now emit ids).keep;
  }

  renew_leases_lua-Kept :
      (w : Text) (now : ℕ) (emit : Bool) (ids : List Text)
      → Keeps P (
          renew_leases_lua R
            (inflight_set_for c w)
            (workers_set c)
            (job_meta_hash c)
            none
            w
            now
            emit
            ids)
  unfolding renew_leases_lua
  renew_leases_lua-Kept w now emit ids = record {
    keep = λ d p.
        after P _ (require-Keeps P (R.zscore d (workers_set c) w) worker_not_registered) p λ _ d p.
          after P _ (check_held-Kept (inflight_set_for c w) ids) p
            λ _ d p. after P _ (renew_all-Kept none w now emit ids) p λ _ d p. p;
  }

  pub renew_leases-Kept :
      (tracking : Bool) (w : WorkerContext) (now : ℕ) → Keeps P (renew_leases R tracking w c now)
  unfolding renew_leases
  renew_leases-Kept true w now = record {
    keep = λ d p. if-keep P (w.task_count == 0) _ _ p (
        after P _ (found-Keeps P w.tasks (error worker_out_of_sync)) p
          λ ids. (invoke-Keeps P (renew_leases_lua-Kept w.name now c.emit_events ids)).keep);
  }
  renew_leases-Kept false w now = record {
    keep = λ d p.
        if-keep P (w.task_count == 0) _ _ p
          ((invoke-Keeps P (renew_leases_lua-Kept w.name now c.emit_events [])).keep d p);
  }
