-- ===== src/FetchById.antt =====
-- src/queries/fetch_by_id.rs with lua/fetch_by_id.lua: one task, by its id.
-- The id is always passed, so the script's reply to a missing one is left out.
use apalis_redis.Prelude.{
  ℕ, inl, inr, Option-cases, ◌^◌, ◌≡◌, ◌∙◌, ap, true, Option, none, some, List, [], ◌∷◌, Text,
  bytes, All, if◌then◌else◌,
}
use apalis_redis.Prelude.Assoc.{lookup, contains, IsMap}
use apalis_redis.Redis.{Redis}
use apalis_redis.Script.{
  Lua, Query, Result, ok, err, error, database, invalid_data, replied, pure, raise, reads, invoke,
  ◌>>=◌,
}
use apalis_redis.Config.{Config, job_data_hash, job_meta_hash}
use apalis_redis.Task.{RedisTask}
use apalis_redis.Lease.{meta_key}
use apalis_redis.Reply.{
  Value, bulk_string, array, server_error, other, nil, cons, elements, Core, CompactTask,
  DecodeError, decode, decode_all, entries, is_utf8, parse_below, deserialize_with_meta,
  into_full_compact,
}
use apalis_redis.Reply.RoundTrip.{
  Result-cases, flat, IsText, reserved, decode-reply, deserialize_with_meta-one,
}

-- The data and the metadata, each in an array for a single task, or the status reply `not_found`.
abbrev found : Text → List (Text × Text) → Option Text → Value
found id fields none = other
found id fields (some data_bytes) = array (
    cons (array (cons (bulk_string data_bytes) nil))
      (cons (array (cons (array (cons (bulk_string id) (flat fields))) nil)) nil))

-- `tasks.into_iter().take(1).next()`
abbrev first : List CompactTask → Option RedisTask
first [] = none
first (t ∷ ts) = some (into_full_compact t)

abbrev received_tasks :
    {D : Type 0} → Result DecodeError (List CompactTask) → Query D (Option RedisTask)
received_tasks (ok tasks) = pure (first tasks)
received_tasks (err e) = raise (error (database invalid_data))

-- The cases of the reply.
pub task_of : {D : Type 0} → Core → Value → Query D (Option RedisTask)
task_of core server_error = raise (error (database replied))
task_of core (array vs) = received_tasks (deserialize_with_meta core (elements vs))
task_of core (bulk_string s) = pure none
task_of core other = pure none

module _ (R : Redis) where
  open R use {Db, keyspace}

  pub fetch_by_id_lua : Text → Text → Text → Lua Db Value
  fetch_by_id_lua data_hash meta id = do
    data_bytes ← reads (λ d. R.hget d data_hash id)
    fields ← reads (λ d. R.hgetall d (meta_key meta id))
    pure (found id fields data_bytes)

  pub fetch_by_id : Core → Config → Text → Query Db (Option RedisTask)
  fetch_by_id core c id = do
    reply ← invoke (fetch_by_id_lua (job_data_hash c) (job_meta_hash c) id)
    task_of core reply

  -- Asking for a task changes nothing, and one without data is not found.
  pub fetch_by_id-missing :
      (core : Core) (c : Config) (id : Text) (d : Db)
      → lookup id ((keyspace d).hash (job_data_hash c)) ≡ none
      → fetch_by_id core c id d ≡ (ok none, d)
  unfolding fetch_by_id fetch_by_id_lua task_of
  fetch_by_id-missing core c id d e = rw (R.hget_lem d (job_data_hash c) id ∙ e)

  -- A task that is stored with well-formed fields is found with its data, its id, its status and its
  -- counters, and with every field that has no place of its own; nothing changes.
  pub fetch_by_id-found :
      (core : Core) (c : Config) (payload id tid a x s status k : Text) (attempts max_attempts : ℕ)
      (d : Db)
      → lookup id ((keyspace d).hash (job_data_hash c)) ≡ some payload
      → is_utf8 id ≡ true
      → core.task_id_from_str id ≡ some tid
      → All IsText (R.hgetall d (meta_key (job_meta_hash c) id))
      → IsMap (R.hgetall d (meta_key (job_meta_hash c) id))
      → lookup (bytes "attempts") (R.hgetall d (meta_key (job_meta_hash c) id)) ≡ some a
      → parse_below (2 ^ 32) a ≡ some attempts
      → lookup (bytes "max_attempts") (R.hgetall d (meta_key (job_meta_hash c) id)) ≡ some x
      → parse_below (2 ^ 32) x ≡ some max_attempts
      → lookup (bytes "status") (R.hgetall d (meta_key (job_meta_hash c) id)) ≡ some s
      → core.status_from_str s ≡ some status
      → (t : RedisTask) × (fetch_by_id core c id d ≡ (ok (some t), d))
        × (t.args ≡ payload)
        × (t.task_id ≡ some tid)
        × (t.status ≡ status)
        × (t.attempt ≡ attempts)
        × (t.max_attempts ≡ some max_attempts)
        × (lookup k t.metadata ≡ (
            if contains k reserved
            then none
            else lookup k (R.hgetall d (meta_key (job_meta_hash c) id))))
  unfolding fetch_by_id fetch_by_id_lua task_of elements into_full_compact
  fetch_by_id-found core c payload id tid a x s status k attempts max_attempts d stored u e h im ha
        pa hx px hs ps =
      let all =
        decode-reply core payload id tid a x s status k attempts max_attempts
          (R.hgetall d (meta_key (job_meta_hash c) id)) u e h im ha pa hx px hs ps in
      (
        into_full_compact all.0,
        rw (
          R.hget_lem d (job_data_hash c) id ∙ stored,
          deserialize_with_meta-one core _ _ all.0 all.1,
        ),
        all.2,
        ap some all.3,
        all.6,
        all.4,
        ap some all.5,
        all.10,
      )

  -- What was found by its id was decoded of the task's data and metadata.
  pub fetch_by_id-decode :
      (core : Core) (c : Config) (id : Text) (t : RedisTask) (d : Db)
      → fetch_by_id core c id d ≡ (ok (some t), d)
      → (payload : Text) × (task : CompactTask) × (R.hget d (job_data_hash c) id ≡ some payload)
        × (decode core
              (bulk_string payload)
              (array (cons (bulk_string id) (flat (R.hgetall d (meta_key (job_meta_hash c) id)))))
            ≡ ok task)
        × (into_full_compact task ≡ t)
  unfolding fetch_by_id fetch_by_id_lua task_of elements deserialize_with_meta decode_all entries
  fetch_by_id-decode core c id t d h = elim (Option-cases (R.hget d (job_data_hash c) id)) [
    | inl e ↦ cc (rw e at h)
    | inr (payload, e) ↦
        let m =
          array (cons (bulk_string id) (flat (R.hgetall d (meta_key (job_meta_hash c) id)))) in
        elim (Result-cases (decode core (bulk_string payload) m)) [
          | inr (x, f) ↦ cc (rw (e, f) at h)
          | inl (task, f) ↦ (payload, task, e, f, cc (rw (e, f) at h))
        ]
  ]
