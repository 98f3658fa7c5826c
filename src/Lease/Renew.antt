-- ===== src/Lease/Renew.antt =====
-- Renewing leases: what a renewal writes, and what becomes of it when events are on.
use apalis_redis.Prelude.{
  ℕ, ◌≡◌, refl, ◌≢◌, sym, ◌∙◌, ap, inl, inr, true, false, none, some, List, [], ◌∷◌, Text, bytes,
  length, ◌==◌, if◌then◌else◌, Option-cases, arith,
}
use apalis_redis.Prelude.Assoc.{lookup, contains, lookup-insert, insert_all}
use apalis_redis.Prelude.Decimal.{decimal}
use apalis_redis.Redis.{Redis}
use apalis_redis.Redis.Laws.{effects}
use apalis_redis.Script.{ok, err, error, database, raised, nil_concatenation}
use apalis_redis.Config.{Config, inflight_set_for, workers_set, job_meta_hash}
use apalis_redis.Task.{WorkerContext}
use apalis_redis.Lease.{meta_key, put-meta, renew, renew_all, renew_leases_lua, renew_leases}
use apalis_redis.Lease.Checks.{AllIn, check_held-ok}

module _ (R : Redis) where
  open R use {Db, keyspace}

  -- The time of a lease on each of some tasks, without events.
  renewed : Text → Text → ℕ → List Text → Db → Db
  renewed meta worker now ids d = (renew_all R meta none worker now false ids d).1

  renew_all-ok :
      (meta worker : Text) (now : ℕ) (ids : List Text) (d : Db)
      → renew_all R meta none worker now false ids d ≡ (ok tt, renewed meta worker now ids d)
  unfolding renew_all renew renewed
  renew_all-ok meta worker now [] d = refl
  renew_all-ok meta worker now (id ∷ ids) d = renew_all-ok meta worker now ids _

  renewed-time :
      (meta worker : Text) (now : ℕ) (j : Text) (ids : List Text) (d : Db)
      → lookup
          (bytes "locked_at")
          ((keyspace (renewed meta worker now ids d)).hash (meta_key meta j))
        ≡ (if contains j ids
            then some (decimal now)
            else lookup (bytes "locked_at") ((keyspace d).hash (meta_key meta j)))
  unfolding renew_all renew contains renewed insert_all
  renewed-time meta worker now j [] d = refl
  renewed-time meta worker now j (id ∷ ids) d =
      let fields = (bytes "locked_at", decimal now) ∷ [] in
      let old = (keyspace d).hash (meta_key meta id) in
      renewed-time meta worker now j ids (R.hset (meta_key meta id) fields d)
      ∙ simp effects (
          ground (
            arith,
            put-meta (keyspace d).hash meta id j (insert_all fields old),
            lookup-insert (bytes "locked_at") (bytes "locked_at") (decimal now) old,
          ))

  module _ (w : WorkerContext) (c : Config) (now : ℕ) (id : Text) (ids : List Text) (d : Db) where
    -- With events off, renewing the leases of a worker that is registered and holds its tasks sets
    -- the lease time of each of them to now, and of no other task.
    pub renew_leases-renews :
        (j : Text)
        → (w.task_count == 0) ≡ false
        → w.tasks ≡ some (id ∷ ids)
        → c.emit_events ≡ false
        → lookup w.name ((keyspace d).zset (workers_set c)) ≢ none
        → AllIn ((keyspace d).set (inflight_set_for c w.name)) (id ∷ ids)
        → let (r, d') = renew_leases R true w c now d in
          (r ≡ ok (length (id ∷ ids)))
          × (lookup (bytes "locked_at") ((keyspace d').hash (meta_key (job_meta_hash c) j)) ≡ (
              if contains j (id ∷ ids)
              then some (decimal now)
              else lookup (bytes "locked_at") ((keyspace d).hash (meta_key (job_meta_hash c) j))))
    unfolding renew_leases renew_leases_lua
    renew_leases-renews j busy tasks quiet reg held =
        elim (Option-cases (R.zscore d (workers_set c) w.name)) [
          | inl e ↦ absurd (reg (sym (R.zscore_lem d (workers_set c) w.name) ∙ e))
          | inr (s, e) ↦
              rw
                (
                  busy,
                  tasks,
                  e,
                  check_held-ok R (inflight_set_for c w.name) (id ∷ ids) d held,
                  ap (λ b. renew_all R (job_meta_hash c) none w.name now b (id ∷ ids) d) quiet
                      ∙ renew_all-ok (job_meta_hash c) w.name now (id ∷ ids) d,
                )
                (refl, renewed-time (job_meta_hash c) w.name now j (id ∷ ids) d)
        ]

    -- With events on, renewing the leases of a worker that holds tasks always fails.
    pub renew_leases-events :
        (w.task_count == 0) ≡ false
        → w.tasks ≡ some (id ∷ ids)
        → c.emit_events ≡ true
        → lookup w.name ((keyspace d).zset (workers_set c)) ≢ none
        → AllIn ((keyspace d).set (inflight_set_for c w.name)) (id ∷ ids)
        → (renew_leases R true w c now d).0 ≡ err (error (database (raised nil_concatenation)))
    unfolding renew_leases renew_leases_lua renew_all renew
    renew_leases-events busy tasks loud reg held =
        elim (Option-cases (R.zscore d (workers_set c) w.name)) [
          | inl e ↦ absurd (reg (sym (R.zscore_lem d (workers_set c) w.name) ∙ e))
          | inr (s, e) ↦
              rw (
                busy,
                tasks,
                e,
                check_held-ok R (inflight_set_for c w.name) (id ∷ ids) d held,
                loud,
              )
        ]
