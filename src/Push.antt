-- ===== src/Push.antt =====
-- src/queries/push_tasks.rs with lua/batch_push.lua: tasks that enter the queue. The source reads
-- the clock for each task of a batch; here a batch is prepared within one second.
pub mod Steps
pub mod Storing
pub mod Enqueue
pub mod Claim
pub mod Refused
use apalis_redis.Prelude.{
  ℕ, zero, suc, ◌%◌, ◌^◌, not, Bool, true, false, Option, none, some, List, [], ◌∷◌, ◌++◌, Text,
  bytes, ◌==◌, ltb, if◌then◌else◌,
}
use apalis_redis.Prelude.Decimal.{decimal}
use apalis_redis.Redis.{Redis}
use apalis_redis.Script.{
  Lua, Query, error, json, pure, raise, writes, calls, when, invoke, ◌>>=◌, ◌>>◌,
}
use apalis_redis.Config.{
  Config, Duration, active_jobs_list, signal_list, job_data_hash, job_meta_hash, scheduled_jobs_set,
  idempotency_key_set,
}
use apalis_redis.Signal.{signal_if}
use apalis_redis.Task.{RedisTask}
use apalis_redis.Lease.{meta_key, channel}

-- The seven arguments of a task; an empty idempotency key stands for none.
pub record Entry : Type 0 where
  pub task_id : Text
  pub task_data : Text
  pub attempts : ℕ
  pub max_attempts : ℕ
  pub metadata_json : Text
  pub schedule_time : ℕ
  pub idempotency_key : Text

-- What the code takes from other crates: a fresh ULID for the task at a place of the batch, the JSON
-- of the metadata if it has one, and the fields and values that cjson reads back from it, or none
-- if it is no table.
pub record Codec : Type 0 where
  pub ulid : ℕ → Text
  pub metadata_to_string : List (Text × Text) → Option Text
  pub cjson_decode : Text → Option (List (Text × Text))

abbrev pub unwrap_or {ℓ} : {A : Type ℓ} → Option A → A → A
unwrap_or none a = a
unwrap_or (some b) a = b

-- `attempt() as u32`, and a run time that is not in the past.
unfoldable pub entry : Codec → ℕ → ℕ → RedisTask → Text → Entry
entry codec now place t meta =
    let run_at = unwrap_or t.run_at 0 in
    record {
      task_id = unwrap_or t.task_id (codec.ulid place);
      task_data = t.args;
      attempts = t.attempt % 2 ^ 32;
      max_attempts = unwrap_or t.max_attempts 25;
      metadata_json = meta;
      schedule_time = if ltb now run_at then run_at else now;
      idempotency_key = unwrap_or t.idempotency_key [];
    }

unfoldable pub entries : Codec → ℕ → ℕ → List RedisTask → Option (List Entry)
entries codec now place [] = some []
entries codec now place (t ∷ ts) = elim (codec.metadata_to_string t.metadata) [
  | none ↦ none
  | some meta ↦ elim (entries codec now (suc place) ts) [
    | none ↦ none
    | some es ↦ some (entry codec now place t meta ∷ es)
  ]
]

-- The fields that the script writes for a task: its own, and then those of its metadata.
unfoldable pub meta_fields : Codec → Entry → List (Text × Text)
meta_fields codec e =
    ((bytes "attempts", decimal e.attempts)
      ∷ (bytes "max_attempts", decimal e.max_attempts)
      ∷ (bytes "status", bytes "Pending")
      ∷ (bytes "idempotency_key", e.idempotency_key)
      ∷ [])
    ++ decoded_fields e.metadata_json
  where
    decoded_fields : Text → List (Text × Text)
    decoded_fields [] = []
    decoded_fields (b ∷ text) = unwrap_or (codec.cjson_decode (b ∷ text)) []

-- `idempotency_ttl.map(as_secs).unwrap_or_default()`
abbrev pub ttl_secs : Option Duration → ℕ
ttl_secs none = 0
ttl_secs (some t) = t.secs

module _ (R : Redis) where
  open R use {Db}

  -- An idempotency key is claimed once; the claim gets the time to live.
  unfoldable pub claim : Text → ℕ → Text → Text → Lua Db Bool
  claim prefix ttl [] id = pure true
  claim prefix ttl (b ∷ key) id = do
    claimed ← calls (R.setnx (meta_key prefix (b ∷ key)) id)
    when (not (claimed == 0)) (writes (R.expire (meta_key prefix (b ∷ key)) ttl))
    pure (not (claimed == 0))

  -- A new task is scheduled, or without a time goes to the active list.
  unfoldable pub enqueue : Text → Text → Bool → Text → ℕ → ℕ × ℕ → Lua Db (ℕ × ℕ)
  enqueue active scheduled emit id zero (enqueued, waiting) = do
    writes (R.rpush active (id ∷ []))
    when emit (writes (R.publish (channel active (bytes ":available")) id))
    pure (suc enqueued, waiting)
  enqueue active scheduled emit id (suc time) (enqueued, waiting) = do
    writes (R.zadd scheduled (suc time) id)
    pure (enqueued, suc waiting)

  -- A task whose id was new: its metadata is written, and it is scheduled or queued.
  unfoldable pub insert_new :
      Codec → Text → Text → Text → Bool → Entry → Bool → ℕ × ℕ → Lua Db (ℕ × ℕ)
  insert_new codec active meta scheduled emit e false counts = pure counts
  insert_new codec active meta scheduled emit e true counts = do
    writes (R.hset (meta_key meta e.task_id) (meta_fields codec e))
    enqueue active scheduled emit e.task_id e.schedule_time counts

  -- A task whose key was claimed: it is stored if its id is new.
  unfoldable pub store :
      Codec → Text → Text → Text → Text → Bool → Entry → Bool → ℕ × ℕ → Lua Db (ℕ × ℕ)
  store codec data_hash active meta scheduled emit e false counts = pure counts
  store codec data_hash active meta scheduled emit e true counts = do
    set ← calls (R.hsetnx data_hash e.task_id e.task_data)
    insert_new codec active meta scheduled emit e (set == 1) counts

  unfoldable pub push_entries :
      Codec → ℕ → Text → Text → Text → Text → Text → Bool → List Entry → ℕ × ℕ → Lua Db (ℕ × ℕ)
  push_entries codec ttl data_hash active meta scheduled prefix emit [] counts = pure counts
  push_entries codec ttl data_hash active meta scheduled prefix emit (e ∷ es) counts = do
    allowed ← claim prefix ttl e.idempotency_key e.task_id
    counts' ← store codec data_hash active meta scheduled emit e allowed counts
    push_entries codec ttl data_hash active meta scheduled prefix emit es counts'

  unfoldable pub batch_push_lua :
      Codec → Text → Text → Text → Text → Text → Text → ℕ → Bool → List Entry → Lua Db (ℕ × ℕ)
  batch_push_lua codec data_hash active signal meta scheduled prefix ttl emit es = do
    counts ← push_entries codec ttl data_hash active meta scheduled prefix emit es (0, 0)
    signal_if R signal (ltb 0 counts.0)
    pure counts

  -- The time to live is passed in whole seconds, and as 0 where none is set.
  unfoldable pub push_tasks : Codec → Config → ℕ → List RedisTask → Query Db (ℕ × ℕ)
  push_tasks codec c now tasks = do
    es ← elim (entries codec now 0 tasks) [ none ↦ raise (error json) | some es ↦ pure es ]
    invoke (
        batch_push_lua codec (job_data_hash c) (active_jobs_list c) (signal_list c)
          (job_meta_hash c) (scheduled_jobs_set c) (idempotency_key_set c)
          (ttl_secs c.idempotency_ttl) c.emit_events es)
