-- ===== src/Persist/Heartbeat.antt =====
-- What a heartbeat comes to.
use apalis_redis.Prelude.{
  ℕ, Bool, subst, ◌≡◌, refl, ◌≢◌, inl, inr, sym, ◌∙◌, ap, if_pos, text_dec, true, false, none, some,
  List, ◌∷◌, Text, ◌==◌,
}
use apalis_redis.Prelude.Assoc.{lookup}
use apalis_redis.Redis.{Redis}
use apalis_redis.Script.{
  ◌>>◌, pure, next, when, ok, err, error, database, raised, nil_concatenation,
  worker_not_registered,
}
use apalis_redis.Config.{Config, workers_set, inflight_set_for}
use apalis_redis.Task.{WorkerContext}
use apalis_redis.Lease.{renew_leases}
use apalis_redis.Lease.Checks.{AllIn}
use apalis_redis.Lease.Renew.{renew_leases-events}
use apalis_redis.Worker.{keep_alive}
use apalis_redis.Worker.Registration.{keep_alive_lem, keep_alive-set}
use apalis_redis.Persist.{heartbeat}

module _ (R : Redis) (c : Config) (w : WorkerContext) (now now' now'' : ℕ) where
  open R use {Db, keyspace}

  -- A worker that is not registered gets an error, and neither its leases nor the tasks of silent
  -- workers are looked at: nothing changes.
  pub heartbeat-unregistered :
      (tracking : Bool) (d : Db)
      → lookup w.name ((keyspace d).zset (workers_set c)) ≡ none
      → heartbeat R tracking c w now now' now'' d
        ≡ (err (error (database (raised worker_not_registered))), d)
  unfolding heartbeat
  heartbeat-unregistered tracking d e = elim (keep_alive_lem R w c now d w.name) [
    | inl (_, failed, same) ↦
        let run : keep_alive R w c now d
            ≡ (err (error (database (raised worker_not_registered))), d) =
          ap (λ r. (r, (keep_alive R w c now d).1)) failed
          ∙ ap (λ s. (err (error (database (raised worker_not_registered))), s)) same in
        rw run
    | inr (known, _, _) ↦ absurd (known e)
  ]

  -- With locked tasks and events on, both as by default, and the crate built with task tracking, the
  -- heartbeat of a registered worker that holds the tasks it runs fails at renewing their leases.
  pub heartbeat-events :
      (id : Text) (ids : List Text) (d : Db)
      → c.lock_tasks ≡ true
      → c.emit_events ≡ true
      → (w.task_count == 0) ≡ false
      → w.tasks ≡ some (id ∷ ids)
      → lookup w.name ((keyspace d).zset (workers_set c)) ≢ none
      → AllIn ((keyspace d).set (inflight_set_for c w.name)) (id ∷ ids)
      → (heartbeat R true c w now now' now'' d).0
        ≡ err (error (database (raised nil_concatenation)))
  unfolding heartbeat
  heartbeat-events id ids d locked loud busy tasks reg held =
      elim (keep_alive_lem R w c now d w.name) [
        | inl (unknown, _, _) ↦ absurd (reg unknown)
        | inr (_, done, score) ↦
            let d1 = (keep_alive R w c now d).1 in
            let run : keep_alive R w c now d ≡ (ok tt, d1) = ap (λ r. (r, d1)) done in
            let still : lookup w.name ((keyspace d1).zset (workers_set c)) ≢ none = λ q. cc (
              q,
              score,
              if_pos (text_dec w.name w.name) refl (some now)
                  (lookup w.name ((keyspace d).zset (workers_set c))),
            ) in
            let kept : AllIn ((keyspace d1).set (inflight_set_for c w.name)) (id ∷ ids) =
              subst (λ s. AllIn (s (inflight_set_for c w.name)) (id ∷ ids))
                (sym (keep_alive-set R w c now d)) held in
            let failed = renew_leases-events R w c now' id ids d1 busy tasks loud still kept in
            let d2 = (renew_leases R true w c now' d1).1 in
            let renewal : renew_leases R true w c now' d1
                ≡ (err (error (database (raised nil_concatenation))), d2) =
              ap (λ r. (r, d2)) failed in
            let renewing : when c.lock_tasks (renew_leases R true w c now' >> pure tt) d1
                ≡ (err (error (database (raised nil_concatenation))), d2) =
              ap (λ b. when b (renew_leases R true w c now' >> pure tt) d1) locked
              ∙ ap (λ r. next r (λ _. pure tt)) renewal in
            rw (run, renewing)
      ]
