-- ===== src/Examples/Pushes.antt =====
-- A task that is pushed onto the queue.
use apalis_redis.Prelude.{
  false, ◌≡◌, refl, ◌≢◌, arith, true, none, some, [], ◌∷◌, bytes, text_dec, ite,
}
use apalis_redis.Prelude.Assoc.{lookup, insert_all}
use apalis_redis.Redis.{Keyspace, put}
use apalis_redis.Redis.Reference.{reference}
use apalis_redis.Script.{ok}
use apalis_redis.Config.{job_data_hash, job_meta_hash, scheduled_jobs_set, idempotency_key_set}
use apalis_redis.Task.{RedisTask}
use apalis_redis.Lease.{meta_key}
use apalis_redis.Push.{Codec, Entry, entry, entries, meta_fields, push_tasks}
use apalis_redis.Push.Steps.{free}
use apalis_redis.Push.Enqueue.{push_tasks-keeps}
use apalis_redis.Push.Claim.{push_tasks-stores, push_tasks-forgets}
use apalis_redis.Push.Refused.{push_tasks-refuses}
use apalis_redis.Examples.Fixture.{config, server}

-- Every task gets the same fresh id, and the metadata is empty.
abbrev codec : Codec
codec = record {
  ulid = λ n. bytes "u";
  metadata_to_string = λ m. some (bytes "{}");
  cjson_decode = λ s. some [];
}

abbrev task : RedisTask
task = record {
  args = bytes "c";
  task_id = some (bytes "t5");
  status = bytes "Pending";
  attempt = 0;
  max_attempts = none;
  metadata = [];
  run_at = some 250;
  idempotency_key = some (bytes "k");
  lock_by = none;
  lock_at = none;
}

abbrev pushed : Entry
pushed = record {
  task_id = bytes "t5";
  task_data = bytes "c";
  attempts = 0;
  max_attempts = 25;
  metadata_json = bytes "{}";
  schedule_time = 250;
  idempotency_key = bytes "k";
}

entries-task : entries codec 200 0 (task ∷ []) ≡ some (pushed ∷ [])
unfolding entries entry
entries-task = refl

key_free : free (idempotency_key_set config) (bytes "k") server ≡ true
unfolding free
key_free = refl

id_new : lookup (bytes "t5") (server.hash (job_data_hash config)) ≡ none
unfolding lookup put text_dec job_data_hash
id_new = refl

push_tasks-stores_example :
    let r = push_tasks reference codec config 200 (task ∷ []) server in
    (r.0 ≡ ok (0, 1))
    × (lookup (bytes "t5") (r.1.hash (job_data_hash config))
        ≡ ite
            (text_dec (bytes "t5") (bytes "t5"))
            (some (bytes "c"))
            (lookup (bytes "t5") (server.hash (job_data_hash config))))
    × (lookup (bytes "t5") (r.1.zset (scheduled_jobs_set config))
        ≡ ite
            (text_dec (bytes "t5") (bytes "t5"))
            (some 250)
            (lookup (bytes "t5") (server.zset (scheduled_jobs_set config))))
    × (r.1.hash (meta_key (job_meta_hash config) (bytes "t5"))
        ≡ insert_all
            (meta_fields codec pushed)
            (server.hash (meta_key (job_meta_hash config) (bytes "t5"))))
push_tasks-stores_example =
    push_tasks-stores reference codec config 200 task pushed server (bytes "t5") entries-task
      (omega arith) key_free id_new

abbrev taken : Keyspace
taken = record server {
  string =
      put server.string (meta_key (idempotency_key_set config) (bytes "k")) (some (bytes "t0"));
}

is_taken : free (idempotency_key_set config) pushed.idempotency_key taken ≡ false
unfolding free put text_dec idempotency_key_set
is_taken = refl

push_tasks-refuses_example :
    let d' = (push_tasks reference codec config 200 (task ∷ []) taken).1 in
    (lookup pushed.task_id (d'.hash (job_data_hash config))
      ≡ lookup pushed.task_id (taken.hash (job_data_hash config)))
    × (lookup pushed.task_id (d'.zset (scheduled_jobs_set config))
        ≡ lookup pushed.task_id (taken.zset (scheduled_jobs_set config)))
push_tasks-refuses_example =
    push_tasks-refuses reference codec config 200 (task ∷ []) (pushed ∷ []) taken pushed.task_id
      entries-task (omega arith) (λ same. is_taken, tt)

push_tasks-forgets_example :
    (push_tasks reference codec config 200 (task ∷ []) server).1.string (bytes "q:idempotency:k")
    ≡ none
push_tasks-forgets_example =
    push_tasks-forgets reference codec config 200 (task ∷ []) (pushed ∷ []) server
      (bytes "q:idempotency:k") entries-task (omega arith) refl refl

id_known : lookup (bytes "t1") (server.hash (job_data_hash config)) ≢ none
unfolding lookup put text_dec job_data_hash
id_known e = cc

push_tasks-keeps_example :
    lookup
      (bytes "t1")
      ((push_tasks reference codec config 200 (task ∷ []) server).1.hash (job_data_hash config))
    ≡ lookup (bytes "t1") (server.hash (job_data_hash config))
push_tasks-keeps_example =
    push_tasks-keeps reference codec config 200 (task ∷ []) (pushed ∷ []) server (bytes "t1")
      entries-task (omega arith) id_known
