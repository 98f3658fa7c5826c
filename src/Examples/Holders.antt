-- ===== src/Examples/Holders.antt =====
-- Who holds the tasks of a small queue.
use apalis_redis.Prelude.{
  ℕ, ◌+◌, ◌≤◌, ◌≡◌, ◌≢◌, refl, subst, ◌∙◌, true, false, none, some, ite, [], ◌∷◌, Text, bytes,
  text_dec, arith,
}
use apalis_redis.Prelude.Assoc.{lookup, contains}
use apalis_redis.Prelude.Counting.{count, count_keys}
use apalis_redis.Redis.{Keyspace, put}
use apalis_redis.Redis.Reference.{reference}
use apalis_redis.Config.{
  active_jobs_list, inflight_set_for, scheduled_jobs_set, workers_set, job_data_hash, from_secs,
}
use apalis_redis.Worker.{all_except, reenqueue_orphaned}
use apalis_redis.Tracking.Counts.{queued, delayed, with_worker, at_worker}
use apalis_redis.Tracking.Exclusive.{Exclusive}
use apalis_redis.Tracking.Registered.{Registered}
use apalis_redis.Tracking.Reach.{Reach, start, further, acquires}
use apalis_redis.Tracking.Holders.{Reach-one_holder, Reach-recovers}
use apalis_redis.Lease.{acquire_leases}
use apalis_redis.Lease.Acquire.{acquire_leases-locks}
use apalis_redis.Examples.Fixture.{
  config, worker, server, is_registered, holds_both, held_tasks, silence,
}

is_idle : queued config (bytes "t1") server + delayed config (bytes "t1") server ≡ 0
unfolding queued delayed count count_keys put text_dec active_jobs_list scheduled_jobs_set
    workers_set
is_idle = refl

is_held_by :
    (v : Text) → with_worker config (bytes "t1") server v ≡ ite (text_dec (bytes "w") v) 1 0
unfolding with_worker count text_dec
is_held_by v = at_worker config (count (bytes "t1")) (λ k. []) held_tasks (bytes "w") v

is_stored : lookup (bytes "t1") (server.hash (job_data_hash config)) ≡ some (bytes "a")
unfolding lookup put text_dec job_data_hash
is_stored = refl

server-Exclusive : Exclusive config (bytes "t1") server
server-Exclusive = record {
  alone = λ v w n. ground (arith, is_idle, is_held_by v, is_held_by w);
  fresh = λ h. absurd (cc (h, is_stored));
}

server-Registered : Registered config (bytes "t1") server
unfolding contains
server-Registered = record {
  known = λ v h. elim (text_dec (bytes "w") v) [
    | yes e ↦ subst (λ u. lookup u (server.zset (workers_set config)) ≢ none) e is_registered
    | no n ↦ absurd (
        ground (
          arith,
          at_worker config (contains (bytes "t1")) (λ k. []) held_tasks (bytes "w") v,
          h,
          n,
        ))
  ];
}

abbrev locked : Keyspace
locked = (acquire_leases reference worker config 120 (bytes "t1" ∷ []) server).1

abbrev journey : Reach reference config.queue server locked
journey = further config refl start (acquires worker 120 (bytes "t1" ∷ []))

still_held : contains (bytes "t1") (locked.set (inflight_set_for config (bytes "w"))) ≡ true
unfolding contains text_dec inflight_set_for
still_held =
    (acquire_leases-locks reference worker config 120 (bytes "t1" ∷ []) server (bytes "t1")
      is_registered (holds_both.0, tt)).4
    ∙ holds_both.0

Reach-one_holder_example :
    ((w : Text)
      → contains (bytes "t1") (locked.set (inflight_set_for config w)) ≡ true
      → bytes "w" ≡ w)
    × (contains (bytes "t1") (locked.list (active_jobs_list config)) ≡ false)
    × (lookup (bytes "t1") (locked.zset (scheduled_jobs_set config)) ≡ none)
Reach-one_holder_example =
    Reach-one_holder reference config (bytes "t1") (bytes "w") server-Exclusive journey (tt, refl)
      still_held

Reach-recovers_example :
    (seen : ℕ) × (lookup (bytes "w") (locked.zset (workers_set config)) ≡ some seen)
    × (seen + 60 ≤ 500
        → contains (bytes "t1") (
            (reenqueue_orphaned reference config 500 (all_except (bytes "x")) locked).1.list
              (active_jobs_list config))
          ≡ true)
Reach-recovers_example =
    Reach-recovers reference config (bytes "t1") (bytes "w") (bytes "x") 500 (from_secs 60)
      server-Registered journey still_held silence
