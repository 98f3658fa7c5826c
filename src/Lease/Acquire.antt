-- ===== src/Lease/Acquire.antt =====
-- Acquiring leases: all or nothing, and what a lease writes.
use apalis_redis.Prelude.{
  ℕ, ◌≡◌, refl, ◌≢◌, ◌⊎◌, inl, inr, sym, ◌∙◌, Bool, none, some, List, [], ◌∷◌, Text, bytes, length,
  Option-cases, if◌then◌else◌,
}
use apalis_redis.Prelude.Assoc.{lookup, contains}
use apalis_redis.Prelude.Decimal.{decimal}
use apalis_redis.Redis.{Redis}
use apalis_redis.Script.{
  error, database, raised, Failure, ScriptError, worker_not_registered, ok, err,
}
use apalis_redis.Config.{Config, inflight_set_for, workers_set, job_meta_hash, active_jobs_list}
use apalis_redis.Task.{WorkerContext}
use apalis_redis.Lease.{meta_key, lock_all, acquire_leases_lua, acquire_leases}
use apalis_redis.Lease.Checks.{AllIn, check_held-ok, check_held-cases}
use apalis_redis.Lease.Locks.{
  lease_status, lease_worker, lease_time, lock_all-ok, lock_all-lookup, lock_all-set,
}

module _ (R : Redis) where
  open R use {Db, keyspace}

  -- The script fails and writes nothing, or the worker is registered and holds every task, and the
  -- script has locked them all.
  acquire_leases_lua-cases :
      (inflight workers meta active worker : Text) (now : ℕ) (emit : Bool) (ids : List Text)
      (d : Db)
      → ((e : ScriptError) × (acquire_leases_lua R inflight workers meta active worker now emit ids
              d
            ≡ (err e, d)))
        ⊎ ((lookup worker ((keyspace d).zset workers) ≢ none)
            × AllIn ((keyspace d).set inflight) ids
            × (acquire_leases_lua R inflight workers meta active worker now emit ids d
                ≡ (ok (length ids), (lock_all R inflight meta active worker now emit ids d).1)))
  unfolding acquire_leases_lua
  acquire_leases_lua-cases inflight workers meta active worker now emit ids d =
      elim (Option-cases (R.zscore d workers worker)) [
        | inl e ↦ inl (worker_not_registered, rw e)
        | inr (s, e) ↦ elim (check_held-cases R inflight ids d) [
          | inl (r, h) ↦ inr (
            λ q. cc (q, R.zscore_lem d workers worker, e),
            h,
            rw (e, r, lock_all-ok R inflight meta active worker now emit ids d),
          )
          | inr (x, r) ↦ inl (x, rw (e, r))
        ]
      ]

  acquire_leases_lua-ok :
      (inflight workers meta active worker : Text) (now : ℕ) (emit : Bool) (ids : List Text)
      (d : Db)
      → lookup worker ((keyspace d).zset workers) ≢ none
      → AllIn ((keyspace d).set inflight) ids
      → acquire_leases_lua R inflight workers meta active worker now emit ids d
        ≡ (ok (length ids), (lock_all R inflight meta active worker now emit ids d).1)
  unfolding acquire_leases_lua
  acquire_leases_lua-ok inflight workers meta active worker now emit ids d reg held =
      elim (Option-cases (R.zscore d workers worker)) [
        | inl e ↦ absurd (reg (sym (R.zscore_lem d workers worker) ∙ e))
        | inr (s, e) ↦ rw (
          e,
          check_held-ok R inflight ids d held,
          lock_all-ok R inflight meta active worker now emit ids d,
        )
      ]

  pub acquire_leases-unregistered :
      (w : WorkerContext) (c : Config) (now : ℕ) (id : Text) (ids : List Text) (d : Db)
      → lookup w.name ((keyspace d).zset (workers_set c)) ≡ none
      → (acquire_leases R w c now (id ∷ ids) d).0
        ≡ err (error (database (raised worker_not_registered)))
  unfolding acquire_leases acquire_leases_lua
  acquire_leases-unregistered w c now id ids d e = rw (R.zscore_lem d (workers_set c) w.name ∙ e)

  -- An acquisition that fails has changed nothing.
  pub acquire_leases_atomic :
      (w : WorkerContext) (c : Config) (now : ℕ) (ids : List Text) (d : Db) {f : Failure}
      → (acquire_leases R w c now ids d).0 ≡ err f
      → (acquire_leases R w c now ids d).1 ≡ d
  unfolding acquire_leases
  acquire_leases_atomic w c now [] d h = refl
  acquire_leases_atomic w c now (id ∷ ids) d h =
      elim (acquire_leases_lua-cases (inflight_set_for c w.name) (workers_set c) (job_meta_hash c)
        (active_jobs_list c) w.name now c.emit_events (id ∷ ids) d) [
          | inl (e, r) ↦ rw r
          | inr (_, _, r) ↦ cc (rw r at h)
        ]

  -- A worker that is registered and holds every task of the list gets a lease on each: the call
  -- returns their number, marks each of them as running under the worker's name since now, leaves
  -- those fields of every other task alone, and leaves the worker's inflight set with the same tasks.
  pub acquire_leases-locks :
      (w : WorkerContext) (c : Config) (now : ℕ) (ids : List Text) (d : Db) (j : Text)
      → lookup w.name ((keyspace d).zset (workers_set c)) ≢ none
      → AllIn ((keyspace d).set (inflight_set_for c w.name)) ids
      → let (r, d') = acquire_leases R w c now ids d in
        let before = (keyspace d).hash (meta_key (job_meta_hash c) j) in
        let after = (keyspace d').hash (meta_key (job_meta_hash c) j) in
        (r ≡ ok (length ids))
        × (lookup (bytes "status") after
            ≡ (if contains j ids then some (bytes "Running") else lookup (bytes "status") before))
        × (lookup (bytes "locked_by") after
            ≡ (if contains j ids then some w.name else lookup (bytes "locked_by") before))
        × (lookup (bytes "locked_at") after
            ≡ (if contains j ids then some (decimal now) else lookup (bytes "locked_at") before))
        × (contains j ((keyspace d').set (inflight_set_for c w.name))
            ≡ contains j ((keyspace d).set (inflight_set_for c w.name)))
  unfolding acquire_leases contains
  acquire_leases-locks w c now [] d j reg held = (refl, refl, refl, refl, refl)
  acquire_leases-locks w c now (id ∷ ids) d j reg held =
      let inflight = inflight_set_for c w.name in
      let meta = job_meta_hash c in
      let active = active_jobs_list c in
      let done =
        acquire_leases_lua-ok inflight (workers_set c) meta active w.name now c.emit_events
          (id ∷ ids) d reg held in
      let field = lock_all-lookup R inflight meta active w.name now c.emit_events in
      rw done (
        refl,
        field (bytes "status") (bytes "Running") j (lease_status w.name now) (id ∷ ids) d,
        field (bytes "locked_by") w.name j (lease_worker w.name now) (id ∷ ids) d,
        field (bytes "locked_at") (decimal now) j (lease_time w.name now) (id ∷ ids) d,
        lock_all-set R inflight meta active w.name now c.emit_events j (id ∷ ids) d held,
      )
