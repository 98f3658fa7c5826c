-- ===== src/Examples/Leases.antt =====
-- Leases on the two tasks of the worker.
use apalis_redis.Prelude.{
  ◌≡◌, refl, ◌&&◌, not, none, some, true, List, [], ◌∷◌, ◌++◌, Text, bytes, length, ltb,
  if◌then◌else◌,
}
use apalis_redis.Prelude.Assoc.{lookup, contains}
use apalis_redis.Prelude.Decimal.{decimal}
use apalis_redis.Redis.Reference.{reference}
use apalis_redis.Script.{ok, err, error, database, raised, nil_concatenation, worker_not_registered}
use apalis_redis.Config.{inflight_set_for, job_meta_hash, active_jobs_list, signal_list}
use apalis_redis.Task.{RedisTask}
use apalis_redis.Lease.{meta_key, task_ids, acquire_leases, release_leases}
use apalis_redis.Lease.Acquire.{
  acquire_leases-unregistered, acquire_leases_atomic, acquire_leases-locks,
}
use apalis_redis.Lease.Release.{held_of, release_leases-moves}
use apalis_redis.Persist.{heartbeat, TaskEvent, lock, lock_ids}
use apalis_redis.Persist.Heartbeat.{heartbeat-events}
use apalis_redis.Examples.Fixture.{
  config, worker, stranger, server, held_tasks, is_registered, holds_both, is_stranger,
}

acquire_leases-locks_example :
    let r = acquire_leases reference worker config 200 held_tasks server in
    let before = server.hash (meta_key (job_meta_hash config) (bytes "t2")) in
    let after = r.1.hash (meta_key (job_meta_hash config) (bytes "t2")) in
    (r.0 ≡ ok 2)
    × (lookup (bytes "status") after ≡ (
        if contains (bytes "t2") held_tasks
        then some (bytes "Running")
        else lookup (bytes "status") before))
    × (lookup (bytes "locked_by") after ≡ (
        if contains (bytes "t2") held_tasks
        then some (bytes "w")
        else lookup (bytes "locked_by") before))
    × (lookup (bytes "locked_at") after ≡ (
        if contains (bytes "t2") held_tasks
        then some (decimal 200)
        else lookup (bytes "locked_at") before))
    × (contains (bytes "t2") (r.1.set (inflight_set_for config (bytes "w")))
        ≡ contains (bytes "t2") (server.set (inflight_set_for config (bytes "w"))))
acquire_leases-locks_example =
    acquire_leases-locks reference worker config 200 held_tasks server (bytes "t2") is_registered
      holds_both

abbrev lost : List Text
lost = bytes "t9" ∷ []

lost_refused :
    (acquire_leases reference stranger config 200 lost server).0
    ≡ err (error (database (raised worker_not_registered)))
lost_refused =
    acquire_leases-unregistered reference stranger config 200 (bytes "t9") [] server is_stranger

acquire_leases_atomic_example :
    (acquire_leases reference stranger config 200 lost server).1 ≡ server
acquire_leases_atomic_example =
    acquire_leases_atomic reference stranger config 200 lost server lost_refused

abbrev task : Text → RedisTask
task id = record {
  args = [];
  task_id = some id;
  status = bytes "Running";
  attempt = 1;
  max_attempts = some 25;
  metadata = [];
  run_at = none;
  idempotency_key = none;
  lock_by = some (bytes "w");
  lock_at = some 200;
}

abbrev tasks : List RedisTask
tasks = task (bytes "t2") ∷ task (bytes "t9") ∷ []

task_ids_tasks : task_ids tasks ≡ some (bytes "t2" ∷ bytes "t9" ∷ [])
unfolding task_ids
task_ids_tasks = refl

abbrev named : List Text
named = bytes "t2" ∷ bytes "t9" ∷ []

abbrev given_up : List Text
given_up = held_of (server.set (inflight_set_for config (bytes "w"))) named

release_leases-moves_example :
    let r = release_leases reference config worker tasks server in
    (r.0 ≡ ok (length given_up))
    × (r.1.list (active_jobs_list config) ≡ server.list (active_jobs_list config) ++ given_up)
    × (contains (bytes "t1") (r.1.set (inflight_set_for config (bytes "w"))) ≡ (
        contains (bytes "t1") (server.set (inflight_set_for config (bytes "w")))
        && not (contains (bytes "t1") named)))
    × (r.1.list (signal_list config)
        ≡ (if ltb 0 (length given_up) then bytes "1" ∷ [] else server.list (signal_list config)))
release_leases-moves_example =
    release_leases-moves reference config worker tasks (bytes "t2") (bytes "t9" ∷ []) server
      (bytes "t1") task_ids_tasks

abbrev events : List TaskEvent
events = lock (bytes "t9") ∷ []

events_refused :
    (acquire_leases reference stranger config 200 (lock_ids events) server).0
    ≡ err (error (database (raised worker_not_registered)))
unfolding lock_ids
events_refused = lost_refused

heartbeat-events_example :
    (heartbeat reference true config worker 200 200 200 server).0
    ≡ err (error (database (raised nil_concatenation)))
heartbeat-events_example =
    heartbeat-events reference config worker 200 200 200 (bytes "t1") (bytes "t2" ∷ []) server refl
      refl refl refl is_registered holds_both
