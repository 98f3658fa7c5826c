-- ===== src/Tracking/Holders.antt =====
-- Who holds a task, after any sequence of queries on the queue.
use apalis_redis.Prelude.{
  ℕ, ◌≡◌, ◌≢◌, ◌≤◌, ◌+◌, ◌-◌, sym, subst, ◌∙◌, true, false, none, some, inl, inr, Text, List, [],
  ◌∷◌, text_dec, Bool-cases, Option-cases, arith,
}
use apalis_redis.Prelude.Assoc.{lookup, contains, contains-perm}
use apalis_redis.Prelude.Counting.{count-present, lookup-absent}
use apalis_redis.Redis.{Redis, Keyspace, put, put-ne, below-present}
use apalis_redis.Config.{
  Config, Duration, orphaned_duration, active_jobs_list, inflight_set_for, scheduled_jobs_set,
  workers_set, job_data_hash,
}
use apalis_redis.Config.Keys.{Role, key, key-same_queue, inflight-injective}
use apalis_redis.Worker.{all_except, reenqueue_orphaned}
use apalis_redis.Worker.Drain.{drained}
use apalis_redis.Worker.Orphans.{reenqueue_orphaned-all}
use apalis_redis.Tracking.Counts.{queued, delayed, with_worker}
use apalis_redis.Tracking.Exclusive.{Exclusive, other-ne}
use apalis_redis.Tracking.Exclusive.Settling.{exclusion}
use apalis_redis.Tracking.Moves.{contains-append_left, contains-append_right}
use apalis_redis.Tracking.Registered.{Registered, registration, forget}
use apalis_redis.Tracking.Reach.{Reach, Unvacuumed, Reach-keep, Reach-keep_unvacuumed}

Registered-same_queue :
    (c c' : Config) (j : Text) (k : Keyspace)
    → c.queue ≡ c'.queue
    → Registered c j k
    → Registered c' j k
unfolding key
Registered-same_queue c c' j k e p = record {
  known = λ w h.
      subst (λ x. lookup w (k.zset x) ≢ none) (key-same_queue c c' Role.workers e)
        (p.known w (
          subst (λ x. contains j (k.set x) ≡ true) (sym (key-same_queue c c' (Role.inflight w) e))
            h));
}

Exclusive-same_queue :
    (c c' : Config) (j : Text) (k : Keyspace)
    → c.queue ≡ c'.queue
    → Exclusive c j k
    → Exclusive c' j k
unfolding key queued delayed with_worker
Exclusive-same_queue c c' j k e p =
    let active : active_jobs_list c ≡ active_jobs_list c' = key-same_queue c c' Role.active e in
    let later : scheduled_jobs_set c ≡ scheduled_jobs_set c' =
      key-same_queue c c' Role.scheduled e in
    let hash : job_data_hash c ≡ job_data_hash c' = key-same_queue c c' Role.data_hash e in
    let set : (w : Text) → inflight_set_for c w ≡ inflight_set_for c' w =
      λ w. key-same_queue c c' (Role.inflight w) e in
    record {
      alone = λ v w n. rw (← active, ← later, ← set v, ← set w) (p.alone v w n);
      fresh = λ h w. rw (← active, ← later, ← set w) (p.fresh (rw (← hash) at h) w);
    }

-- The workers that hold a task, and where else it is.
module _ (c : Config) (j : Text) (k : Keyspace) where
  Exclusive-holder :
      Exclusive c j k
      → (v : Text) → contains j (k.set (inflight_set_for c v)) ≡ true
      → ((w : Text) → contains j (k.set (inflight_set_for c w)) ≡ true → v ≡ w)
        × (contains j (k.list (active_jobs_list c)) ≡ false)
        × (lookup j (k.zset (scheduled_jobs_set c)) ≡ none)
  unfolding queued delayed with_worker
  Exclusive-holder p v h =
      let here = count-present j (k.set (inflight_set_for c v)) h in
      let alone = p.alone v (0 ∷ v) (λ q. other-ne v (sym q)) in
      (
        λ w g. elim (text_dec v w) [
          | yes e ↦ e
          | no n ↦
              absurd (
                omega
                  (arith, p.alone v w n, here, count-present j (k.set (inflight_set_for c w)) g))
        ],
        elim (Bool-cases (contains j (k.list (active_jobs_list c)))) [
          | inr e ↦ e
          | inl e ↦
              absurd (omega (arith, alone, here, count-present j (k.list (active_jobs_list c)) e))
        ],
        lookup-absent j (k.zset (scheduled_jobs_set c)) (omega (arith, alone, here)),
      )

-- At the start, let the task stand at most once on the active list, in the schedule and with the
-- workers, and nowhere if its data is not stored. Then after any sequence of queries on the queue, of
-- any processes in any order, whether they succeed or fail, but with no vacuum among them, a task that
-- a worker holds is held by no other worker, waits in no list and is not scheduled.
pub Reach-one_holder :
    (R : Redis) (c : Config) (j : Text) {d e : R.Db} (v : Text)
    → Exclusive c j (R.keyspace d)
    → (r : Reach R c.queue d e) → Unvacuumed r
    → contains j ((R.keyspace e).set (inflight_set_for c v)) ≡ true
    → ((w : Text) → contains j ((R.keyspace e).set (inflight_set_for c w)) ≡ true → v ≡ w)
      × (contains j ((R.keyspace e).list (active_jobs_list c)) ≡ false)
      × (lookup j ((R.keyspace e).zset (scheduled_jobs_set c)) ≡ none)
Reach-one_holder R c j {e = e} v p r u h =
    Exclusive-holder c j (R.keyspace e)
      (Reach-keep_unvacuumed R (λ c. exclusion R c j)
        (λ c c' d q p. Exclusive-same_queue c c' j (R.keyspace d) q p) c p r u)
      v h

-- A member of a worker's set is among what is taken from the workers.
contains-drained :
    (c : Config) (j w : Text) (ws : List Text) (s : Text → List Text)
    → contains w ws ≡ true
    → contains j (s (inflight_set_for c w)) ≡ true
    → contains j (drained c s ws) ≡ true
unfolding drained contains
contains-drained c j w [] s g h = cc
contains-drained c j w (v ∷ ws) s g h = elim (text_dec v w) [
  | yes e ↦
      contains-append_left j (s (inflight_set_for c v))
        (drained c (put s (inflight_set_for c v) []) ws) (rw e h)
  | no n ↦ contains-append_right j _ _ (
      contains-drained c j w ws (put s (inflight_set_for c v) []) (ground arith)
        (rw (put-ne s (inflight_set_for c v) [] _ (λ q. n (inflight-injective c v w q))) h))
]

-- No task is stranded. At the start, let only registered workers hold the task. Then after any sequence
-- of queries on the queue, of any processes in any order, vacuums among them, the server knows when a
-- worker that holds the task was last heard of; and once that is as long ago as the allowed silence,
-- where this can be computed, a reclaim of orphaned tasks (`reenqueue_orphaned`) that any worker makes
-- with these settings puts the task back on the active list.
pub Reach-recovers :
    (R : Redis) (c : Config) (j w x : Text) (now : ℕ) (t : Duration) {d e : R.Db}
    → Registered c j (R.keyspace d)
    → Reach R c.queue d e
    → contains j ((R.keyspace e).set (inflight_set_for c w)) ≡ true
    → orphaned_duration c ≡ some t
    → (seen : ℕ) × (lookup w ((R.keyspace e).zset (workers_set c)) ≡ some seen)
      × (seen + t.secs ≤ now
          → contains j (
              (R.keyspace (reenqueue_orphaned R c now (all_except x) e).1).list
                (active_jobs_list c))
            ≡ true)
Reach-recovers R c j w x now t {e = e} p r h o =
    elim (Option-cases (lookup w ((R.keyspace e).zset (workers_set c)))) [
      | inl q ↦ absurd (still.known w h q)
      | inr (seen, q) ↦ (
        seen,
        q,
        λ late.
            let z = (R.keyspace e).zset (workers_set c) in
            let ws = R.zrangebyscore e (workers_set c) (now - t.secs) in
            let listed : contains w ws ≡ true =
              contains-perm w (R.zrangebyscore-perm e (workers_set c) (now - t.secs))
              ∙ below-present w seen (now - t.secs) z q (omega (arith, late)) in
            let all = reenqueue_orphaned-all R c now x t e w o (omega (arith, late)) in
            contains-perm j all.1
            ∙ contains-append_right j _ _ (contains-drained c j w ws (R.keyspace e).set listed h),
      )
    ]
  where
    still : Registered c j (R.keyspace e)
    still =
        Reach-keep R (λ c. registration R c j)
          (λ c c' d q p. Registered-same_queue c c' j (R.keyspace d) q p) c (λ c. forget R c j) p r
