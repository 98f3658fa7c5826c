-- ===== src/Persist/Handling.antt =====
-- What the calls of a worker come to together.
use apalis_redis.Prelude.{
  ℕ, ◌-◌, ◌+◌, ◌≤◌, ◌≡◌, refl, inl, inr, ◌∙◌, ap, true, false, not, ◌&&◌, none, some, List, [], ◌∷◌,
  ◌++◌, Perm, Text, text_dec, if_pos, append-nil, length, ◌==◌, if◌then◌else◌, arith, Bool-cases,
}
use apalis_redis.Prelude.Assoc.{lookup, contains}
use apalis_redis.Redis.{Redis}
use apalis_redis.Script.{Failure, ok, err, error, reenqueue_mismatch, next, pure}
use apalis_redis.Config.{
  Config, Duration, workers_set, active_jobs_list, inflight_set_for, orphaned_duration,
}
use apalis_redis.Task.{RedisTask, WorkerContext}
use apalis_redis.Lease.{acquire_leases, release_leases, task_ids}
use apalis_redis.Lease.Release.{held_of, release_leases-moves}
use apalis_redis.Lease.Acquire.{acquire_leases_atomic}
use apalis_redis.Worker.{scored_by, only, reenqueue_orphaned}
use apalis_redis.Worker.Registration.{register_worker_lem, register_worker-tasks}
use apalis_redis.Worker.Drain.{drained}
use apalis_redis.Worker.Orphans.{reenqueue_orphaned-only}
use apalis_redis.Results.{handle_results}
use apalis_redis.Persist.{
  TaskEvent, lock_ids, ack_payloads, is_empty, register, handle_events, reenqueue_abandoned,
}

module _ (R : Redis) (c : Config) (w : WorkerContext) where
  open R use {Db, keyspace}

  -- When a batch of events holds a task that cannot be locked, the whole batch fails with that
  -- error, none of its results is handled, and nothing has changed.
  pub handle_events_atomic :
      (ms : List TaskEvent) (now now' : ℕ) (d : Db) {f : Failure}
      → (acquire_leases R w c now (lock_ids ms) d).0 ≡ err f
      → handle_events R c ms w now now' d ≡ (err f, d)
  unfolding handle_events acquire_leases
  handle_events_atomic ms now now' d {f} h = with_locks (lock_ids ms) h
    where
      with_locks :
          (ids : List Text)
          → (acquire_leases R w c now ids d).0 ≡ err f
          → next
              (if not (is_empty ids)
                then next (acquire_leases R w c now ids d) (λ _. pure tt)
                else (ok tt, d))
              (λ _ d.
                if not (is_empty (ack_payloads ms))
                then handle_results R w c now' (ack_payloads ms) d
                else (ok tt, d))
            ≡ (err f, d)
      with_locks [] h = cc
      with_locks (id ∷ ids) h =
          let run : acquire_leases R w c now (id ∷ ids) d ≡ (err f, d) =
            ap (λ r. (r, (acquire_leases R w c now (id ∷ ids) d).1)) h
            ∙ ap (λ s. (err f, s)) (acquire_leases_atomic R w c now (id ∷ ids) d h) in
          rw run

  -- Where the allowed silence can be computed, a worker that was last heard of a heartbeat interval or
  -- longer ago is registered again, as heard of now: the tasks that its earlier run held go to the
  -- active list, and it holds none.
  pub register-takes_over :
      (now now' seen : ℕ) (t : Duration) (d : Db)
      → orphaned_duration c ≡ some t
      → c.heartbeat_interval.secs ≤ now
      → lookup w.name ((keyspace d).zset (workers_set c)) ≡ some seen
      → seen + c.heartbeat_interval.secs ≤ now
      → let (r, d') = register R c w now now' d in
        (r ≡ ok tt)
        × (lookup w.name ((keyspace d').zset (workers_set c)) ≡ some now')
        × Perm
            ((keyspace d').list (active_jobs_list c))
            ((keyspace d).list (active_jobs_list c) ++ (keyspace d).set (inflight_set_for c w.name))
        × ((keyspace d').set (inflight_set_for c w.name) ≡ [])
  unfolding register drained contains
  register-takes_over now now' seen t d e early found silent =
      let d1 = (reenqueue_orphaned R c now (only w.name) d).1 in
      let stale : scored_by (now - c.heartbeat_interval.secs)
            (lookup w.name ((keyspace d).zset (workers_set c)))
          ≡ true =
        rw found (ground arith) in
      let back = rw stale at (reenqueue_orphaned-only R c now w.name d w.name early) in
      let run : reenqueue_orphaned R c now (only w.name) d ≡ (ok _, d1) =
        ap (λ r. (r, d1)) back.0 in
      let same = register_worker-tasks R w c now' d1 t e in
      let mine : contains w.name (w.name ∷ []) ≡ true =
        if_pos (text_dec w.name w.name) refl true false in
      let gone : lookup w.name ((keyspace d1).zset (workers_set c)) ≡ none = back.3 ∙ rw mine in
      rw run (elim (register_worker_lem R w c now' d1 t w.name e) [
        | inl (recent, _, _) ↦ cc (rw gone at recent)
        | inr (_, done, score) ↦ (
          done,
          score ∙ if_pos (text_dec w.name w.name) refl (some now') _,
          rw (same.0) (rw (append-nil ((keyspace d).set (inflight_set_for c w.name))) at back.1),
          ap (λ s. s (inflight_set_for c w.name)) same.1 ∙ back.2 ∙ rw mine,
        )
      ])

  -- Giving up tasks by name puts those that the worker holds back at the end of the active list; the
  -- call returns their number, or, where tasks are locked and some of them were not held, an error
  -- with both numbers, and those that were held are moved all the same.
  pub reenqueue_abandoned-moves :
      (tasks : List RedisTask) (id : Text) (ids : List Text) (d : Db)
      → task_ids tasks ≡ some (id ∷ ids)
      → let (r, d') = reenqueue_abandoned R c tasks w d in
        let held = held_of ((keyspace d).set (inflight_set_for c w.name)) (id ∷ ids) in
        (r ≡ (
          if c.lock_tasks && not (length held == length tasks)
          then err (error (reenqueue_mismatch (length tasks) (length held)))
          else ok (length held)))
        × ((keyspace d').list (active_jobs_list c) ≡ (keyspace d).list (active_jobs_list c) ++ held)
  unfolding reenqueue_abandoned
  reenqueue_abandoned-moves tasks id ids d e =
      let moved = release_leases-moves R c w tasks id ids d id e in
      let held = held_of ((keyspace d).set (inflight_set_for c w.name)) (id ∷ ids) in
      let d' = (release_leases R c w tasks d).1 in
      let run : release_leases R c w tasks d ≡ (ok (length held), d') = ap (λ r. (r, d')) moved.0 in
      rw run (elim (Bool-cases (c.lock_tasks && not (length held == length tasks))) [
        | inl b ↦ rw b (refl, moved.1)
        | inr b ↦ rw b (refl, moved.1)
      ])
