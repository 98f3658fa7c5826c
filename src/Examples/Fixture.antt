-- ===== src/Examples/Fixture.antt =====
-- A queue with one worker, two tasks in its hands, one that waits and one that is scheduled.
use apalis_redis.Prelude.{
  ◌≡◌, refl, ◌≢◌, true, false, none, some, List, [], ◌∷◌, Text, bytes, text_dec,
}
use apalis_redis.Prelude.Assoc.{lookup, contains}
use apalis_redis.Redis.{Keyspace, put}
use apalis_redis.Redis.Reference.{blank}
use apalis_redis.Config.{
  Config, from_secs, workers_set, active_jobs_list, inflight_set_for, inflight_jobs_set,
  scheduled_jobs_set, job_data_hash, orphaned_duration, mul_duration,
}
use apalis_redis.Task.{WorkerContext}
use apalis_redis.Lease.Checks.{AllIn}
use apalis_redis.Reply.{Core}

abbrev pub config : Config
config = record {
  batch_size = 2;
  heartbeat_interval = from_secs 30;
  missed_heartbeats = 2;
  queue = bytes "q";
  database_url = none;
  lock_tasks = true;
  persist_results = true;
  emit_events = true;
  idempotency_ttl = none;
}

abbrev pub quiet : Config
quiet = record config { emit_events = false }

abbrev pub worker : WorkerContext
worker = record {
  name = bytes "w";
  service = bytes "svc";
  task_count = 2;
  tasks = some (bytes "t1" ∷ bytes "t2" ∷ []);
}

abbrev pub stranger : WorkerContext
stranger = record worker { name = bytes "x" }

abbrev pub held_tasks : List Text
held_tasks = bytes "t1" ∷ bytes "t2" ∷ []

-- The worker was last heard of at 100.
abbrev pub server : Keyspace
server = record blank {
  list = put (λ k. []) (active_jobs_list config) (bytes "t3" ∷ []);
  set = put (λ k. []) (inflight_set_for config (bytes "w")) held_tasks;
  zset =
      put (put (λ k. []) (workers_set config) ((bytes "w", 100) ∷ [])) (scheduled_jobs_set config)
        ((bytes "t4", 90) ∷ []);
  hash =
      put (λ k. []) (job_data_hash config) ((bytes "t1", bytes "a") ∷ (bytes "t2", bytes "b") ∷ []);
}

-- Every text is a task id and a status.
abbrev pub core : Core
core = record { task_id_from_str = λ s. some s; status_from_str = λ s. some s }

pub last_seen : lookup (bytes "w") (server.zset (workers_set config)) ≡ some 100
unfolding lookup put text_dec workers_set scheduled_jobs_set
last_seen = refl

pub is_registered : lookup (bytes "w") (server.zset (workers_set config)) ≢ none
is_registered e = cc (e, last_seen)

pub is_registered_quiet : lookup (bytes "w") (server.zset (workers_set quiet)) ≢ none
unfolding lookup put text_dec workers_set scheduled_jobs_set
is_registered_quiet e = cc

pub is_stranger : lookup (bytes "x") (server.zset (workers_set config)) ≡ none
unfolding lookup put text_dec workers_set scheduled_jobs_set
is_stranger = refl

pub holds_both : AllIn (server.set (inflight_set_for config (bytes "w"))) held_tasks
unfolding contains put text_dec inflight_set_for inflight_jobs_set
holds_both = (refl, (refl, tt))

pub holds_both_quiet : AllIn (server.set (inflight_set_for quiet (bytes "w"))) held_tasks
unfolding contains put text_dec inflight_set_for inflight_jobs_set
holds_both_quiet = (refl, (refl, tt))

pub silence : orphaned_duration config ≡ some (from_secs 60)
unfolding orphaned_duration mul_duration
silence = refl
