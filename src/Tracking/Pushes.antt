-- ===== src/Tracking/Pushes.antt =====
-- A push: a task whose data is new gets its place in the same script.
use apalis_redis.Prelude.{
  ℕ, zero, suc, refl, Option-cases, inl, inr, Bool, true, false, ltb, ◌==◌, List, [], ◌∷◌, Text,
  bytes,
}
use apalis_redis.Prelude.Assoc.{lookup}
use apalis_redis.Redis.{Redis}
use apalis_redis.Script.{error, json, ScriptError, writes}
use apalis_redis.Config.{
  Config, active_jobs_list, signal_list, scheduled_jobs_set, job_meta_hash, job_data_hash,
  idempotency_key_set,
}
use apalis_redis.Task.{RedisTask}
use apalis_redis.Lease.{meta_key, channel}
use apalis_redis.Push.{
  Codec, Entry, entries, ttl_secs, claim, enqueue, insert_new, store, push_entries, batch_push_lua,
  push_tasks,
}
use apalis_redis.Tracking.Kit.{Kit}
use apalis_redis.Tracking.Keeps.{Keeps, after, when-Keeps, found-Keeps, invoke-Keeps}
use apalis_redis.Tracking.Frame.{Alike-of_fields, hset-Framed, setnx-Framed, expire-Framed}
use apalis_redis.Tracking.Scripts.{
  meta-IsAside, idempotency-IsAside, framed, signal_if-Kept, published-Kept,
}

module _ (R : Redis) (c : Config) (K : Kit R c) where
  open R use {Db, keyspace}
  open K use {P}

  claim-Kept : (ttl : ℕ) (name id : Text) → Keeps P (claim R (idempotency_key_set c) ttl name id)
  unfolding claim
  claim-Kept ttl [] id = record { keep = λ d p. p }
  claim-Kept ttl (b ∷ name) id = record {
    keep = λ d p.
        after P _ (when-Keeps P _ (expired (b ∷ name) ttl))
          (framed R c K (setnx-Framed R c _ id d) p) λ _ d p. p;
  }
    where
      expired :
          (n : Text) (ttl : ℕ)
          → Keeps P (writes {E = ScriptError} (R.expire (meta_key (idempotency_key_set c) n) ttl))
      expired n ttl = record {
        keep = λ d p. framed R c K (expire-Framed R c _ (idempotency-IsAside c n) d ttl) p;
      }

  enqueued :
      (emit : Bool) (id : Text) (time : ℕ) (counts : ℕ × ℕ) (d : Db)
      → K.Loose id d
      → P (enqueue R (active_jobs_list c) (scheduled_jobs_set c) emit id time counts d).1
  unfolding enqueue
  enqueued emit id zero (m, n) d h =
      after P _ (published-Kept R c K emit (channel (active_jobs_list c) (bytes ":available")) id)
        (K.enqueue id d h) λ _ d p. p
  enqueued emit id (suc t) (m, n) d h = K.schedule (suc t) id d h

  -- A task whose data is stored already is left alone; another one is stored and gets its place.
  stored :
      (codec : Codec) (emit : Bool) (e : Entry) (counts : ℕ × ℕ) (d : Db)
      → P d
      → (let (reply, d') = R.hsetnx (job_data_hash c) e.task_id e.task_data d in
          P
            (insert_new R codec
              (active_jobs_list c)
              (job_meta_hash c)
              (scheduled_jobs_set c)
              emit
              e
              (reply == 1)
              counts
              d').1)
  unfolding insert_new
  stored codec emit e counts d p =
      elim (Option-cases (lookup e.task_id ((keyspace d).hash (job_data_hash c)))) [
        | inl new ↦
            rw (R.hsetnx_reply (job_data_hash c) e.task_id e.task_data d, new)
              (enqueued emit e.task_id e.schedule_time counts _ (
                K.frame_loose e.task_id _ _ (hset-Framed R c _ (meta-IsAside c e.task_id) _ _)
                  (K.store e.task_id e.task_data d new p)))
        | inr (v, old) ↦
            rw (R.hsetnx_reply (job_data_hash c) e.task_id e.task_data d, old)
              (framed R c K
                (rw (R.keyspace-hsetnx (job_data_hash c) e.task_id e.task_data d, old)
                  (Alike-of_fields c refl refl refl refl))
                p)
      ]

  store-Kept :
      (codec : Codec) (emit : Bool) (e : Entry) (allowed : Bool) (counts : ℕ × ℕ)
      → Keeps P (
          store R codec
            (job_data_hash c)
            (active_jobs_list c)
            (job_meta_hash c)
            (scheduled_jobs_set c)
            emit
            e
            allowed
            counts)
  unfolding store
  store-Kept codec emit e false counts = record { keep = λ d p. p }
  store-Kept codec emit e true counts = record { keep = λ d p. stored codec emit e counts d p }

  push_entries-Kept :
      (codec : Codec) (ttl : ℕ) (emit : Bool) (es : List Entry) (counts : ℕ × ℕ)
      → Keeps P (
          push_entries R codec ttl
            (job_data_hash c)
            (active_jobs_list c)
            (job_meta_hash c)
            (scheduled_jobs_set c)
            (idempotency_key_set c)
            emit
            es
            counts)
  unfolding push_entries
  push_entries-Kept codec ttl emit [] counts = record { keep = λ d p. p }
  push_entries-Kept codec ttl emit (e ∷ es) counts = record {
    keep = λ d p. after P _ (claim-Kept ttl e.idempotency_key e.task_id) p λ allowed d p.
        after P _ (store-Kept codec emit e allowed counts) p
          λ counts'. (push_entries-Kept codec ttl emit es counts').keep;
  }

  batch_push_lua-Kept :
      (codec : Codec) (ttl : ℕ) (emit : Bool) (es : List Entry)
      → Keeps P (
          batch_push_lua R codec
            (job_data_hash c)
            (active_jobs_list c)
            (signal_list c)
            (job_meta_hash c)
            (scheduled_jobs_set c)
            (idempotency_key_set c)
            ttl
            emit
            es)
  unfolding batch_push_lua
  batch_push_lua-Kept codec ttl emit es = record {
    keep = λ d p.
        after P _ (push_entries-Kept codec ttl emit es (0, 0)) p
          λ counts d p. after P _ (signal_if-Kept R c K (ltb 0 counts.0)) p λ _ d p. p;
  }

  pub push_tasks-Kept :
      (codec : Codec) (now : ℕ) (tasks : List RedisTask) → Keeps P (push_tasks R codec c now tasks)
  unfolding push_tasks
  push_tasks-Kept codec now tasks = record {
    keep = λ d p. after P _ (found-Keeps P (entries codec now 0 tasks) (error json)) p λ es.
        (invoke-Keeps P
          (batch_push_lua-Kept codec (ttl_secs c.idempotency_ttl) c.emit_events es)).keep;
  }
