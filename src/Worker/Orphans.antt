-- ===== src/Worker/Orphans.antt =====
-- Taking back the tasks of workers that have gone silent: none is lost, and nobody else is touched.
use native.Mathlib.Nat.{zero-add}
use apalis_redis.Prelude.{
  ℕ, ◌+◌, ◌≡◌, refl, ◌∙◌, ap, false, Option, none, some, List, [], ◌∷◌, ◌++◌, Perm, Text, length,
  ltb, ◌-◌, ◌≤◌, ◌<◌, arith, if◌then◌else◌,
}
use apalis_redis.Prelude.Assoc.{IsMap, contains-perm, lookup, contains, lookup-erase_all}
use apalis_redis.Redis.{Redis, contains-below}
use apalis_redis.Script.{Result, Failure, ok, invoke}
use apalis_redis.Signal.{signal_if, signal_if-ok, signal_if-list, signal_if-set, signal_if-zset}
use apalis_redis.Config.{
  Config, Duration, workers_set, active_jobs_list, signal_list, inflight_jobs_set, inflight_set_for,
  orphaned_duration,
}
use apalis_redis.Config.Keys.{signal-ne-active, signal-ne-inflight, signal-ne-workers}
use apalis_redis.Worker.{
  expired_workers, scored_by, reenqueue_orphaned_lua, reenqueue_orphaned, sub_u64, only, all_except,
}
use apalis_redis.Worker.Drain.{
  drained, emptied_lem, loop, take_back_all-ok, loop-list, loop-set, loop-zset,
}

module _ (R : Redis) (c : Config) where
  open R use {Db, keyspace}

  -- The whole script, over the workers that it takes for dead.
  orphaned-run :
      (before : ℕ) (filter : Option Text) (d : Db)
      → let ws = expired_workers R (workers_set c) before filter d in
        let count = length (drained c (keyspace d).set ws) in
        reenqueue_orphaned_lua R
          (workers_set c)
          (active_jobs_list c)
          (signal_list c)
          (inflight_jobs_set c)
          before
          filter
          d
        ≡ (ok count, (signal_if R (signal_list c) (ltb 0 count) (loop R c ws 0 d)).1)
  unfolding reenqueue_orphaned_lua
  orphaned-run before filter d =
      let ws = expired_workers R (workers_set c) before filter d in
      let count = length (drained c (keyspace d).set ws) in
      rw (
        take_back_all-ok R c ws 0 d ∙ ap (λ k. (ok k, loop R c ws 0 d)) (zero-add count),
        signal_if-ok R (signal_list c) (ltb 0 count) (loop R c ws 0 d),
      )

  -- What the script does to the queue when `ws` are the workers that it takes for dead: their tasks
  -- are added to the active list, their inflight sets are emptied, and they leave the set of workers.
  abbrev pub Recovers : List Text → Db → Text → Result Failure ℕ × Db → Type 0
  Recovers ws d j (r, d') =
      (r ≡ ok (length (drained c (keyspace d).set ws)))
      × Perm ((keyspace d').list (active_jobs_list c))
          ((keyspace d).list (active_jobs_list c) ++ drained c (keyspace d).set ws)
      × ((keyspace d').set (inflight_set_for c j)
          ≡ (if contains j ws then [] else (keyspace d).set (inflight_set_for c j)))
      × (lookup j ((keyspace d').zset (workers_set c))
          ≡ (if contains j ws then none else lookup j ((keyspace d).zset (workers_set c))))

  recovered :
      (before : ℕ) (filter : Option Text) (d : Db) (j : Text)
      → Recovers (expired_workers R (workers_set c) before filter d) d j (
          invoke
            (reenqueue_orphaned_lua R
              (workers_set c)
              (active_jobs_list c)
              (signal_list c)
              (inflight_jobs_set c)
              before
              filter)
            d)
  recovered before filter d j =
      let ws = expired_workers R (workers_set c) before filter d in
      let raised = ltb 0 (length (drained c (keyspace d).set ws)) in
      let d' = loop R c ws 0 d in
      rw (orphaned-run before filter d) (
        refl,
        rw (signal_if-list R (signal_list c) raised (active_jobs_list c) d' (signal-ne-active c))
            (loop-list R c ws 0 d),
        signal_if-set R (signal_list c) raised (inflight_set_for c j) d' (signal-ne-inflight c j)
            ∙ ap (λ s. s (inflight_set_for c j)) (loop-set R c ws 0 d)
            ∙ emptied_lem c ws (keyspace d).set j,
        rw
            (
              signal_if-zset R (signal_list c) raised (workers_set c) d' (signal-ne-workers c),
              loop-zset R c ws 0 d,
            )
            (lookup-erase_all j ws ((keyspace d).zset (workers_set c))),
      )

sub_u64-some : (a b : ℕ) → b ≤ a → sub_u64 a b ≡ some (a - b)
unfolding sub_u64
sub_u64-some a b h = ground arith

-- Asked about one worker, at a time no earlier than a heartbeat interval, the call takes back its
-- tasks if it was last heard of at least that interval ago: all of them are added to the active list,
-- its inflight set is emptied and it leaves the set of workers. Otherwise nothing is taken; either
-- way no other worker loses a task or its registration.
pub reenqueue_orphaned-only :
    (R : Redis) (c : Config) (now : ℕ) (w : Text) (d : R.Db) (j : Text)
    → c.heartbeat_interval.secs ≤ now
    → let stale =
        scored_by
          (now - c.heartbeat_interval.secs)
          (lookup w ((R.keyspace d).zset (workers_set c))) in
      Recovers R c (if stale then w ∷ [] else []) d j (reenqueue_orphaned R c now (only w) d)
unfolding reenqueue_orphaned expired_workers
reenqueue_orphaned-only R c now w d j h =
    let before = now - c.heartbeat_interval.secs in
    rw (sub_u64-some now c.heartbeat_interval.secs h, ← R.zscore_lem d (workers_set c) w)
      (recovered R c before (some w) d j)

-- Where the allowed silence can be computed and is no longer than the current time, every worker
-- that the server lists as silent for so long is taken for dead: all their tasks are added to the
-- active list, their inflight sets are emptied, they leave the set of workers, the call returns the
-- number of tasks, and no other worker loses a task or its registration.
pub reenqueue_orphaned-all :
    (R : Redis) (c : Config) (now : ℕ) (w : Text) (t : Duration) (d : R.Db) (j : Text)
    → orphaned_duration c ≡ some t
    → t.secs ≤ now
    → Recovers R c
        (R.zrangebyscore d (workers_set c) (now - t.secs))
        d
        j
        (reenqueue_orphaned R c now (all_except w) d)
unfolding reenqueue_orphaned expired_workers
reenqueue_orphaned-all R c now w t d j e h =
    rw (e, sub_u64-some now t.secs h) (recovered R c (now - t.secs) none d j)

-- Where the allowed silence can be computed and is no longer than the current time, and the server's
-- set lists each worker once, a worker that was heard of less than that silence ago keeps its tasks
-- and its registration through a reclaim of orphaned tasks (`reenqueue_orphaned`) by another.
pub reenqueue_orphaned-spares :
    (R : Redis) (c : Config) (now seen : ℕ) (w : Text) (t : Duration) (d : R.Db) (j : Text)
    → orphaned_duration c ≡ some t
    → t.secs ≤ now
    → IsMap ((R.keyspace d).zset (workers_set c))
    → lookup j ((R.keyspace d).zset (workers_set c)) ≡ some seen
    → now < seen + t.secs
    → let d' = (reenqueue_orphaned R c now (all_except w) d).1 in
      ((R.keyspace d').set (inflight_set_for c j) ≡ (R.keyspace d).set (inflight_set_for c j))
      × (lookup j ((R.keyspace d').zset (workers_set c)) ≡ some seen)
reenqueue_orphaned-spares R c now seen w t d j e h m found recent =
    let ws = R.zrangebyscore d (workers_set c) (now - t.secs) in
    let z = (R.keyspace d).zset (workers_set c) in
    let listed : contains j ws ≡ false =
      contains-perm j (R.zrangebyscore-perm d (workers_set c) (now - t.secs))
      ∙ contains-below j (now - t.secs) z m
      ∙ rw found (ground arith) in
    let all = reenqueue_orphaned-all R c now w t d j e h in
    (all.2 ∙ rw listed, all.3 ∙ rw listed found)
