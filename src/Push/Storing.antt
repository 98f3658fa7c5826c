-- ===== src/Push/Storing.antt =====
-- What storing one task of a push does.
use apalis_redis.Prelude.{
  ℕ, zero, suc, ◌<◌, ◌≡◌, refl, inl, inr, ap, Bool, true, false, none, some, List, [], ◌∷◌, Text,
  text_dec, ite, All, Option-cases, arith,
}
use apalis_redis.Prelude.Assoc.{lookup, insert_all, lookup-insert}
use apalis_redis.Redis.{Redis, put-ne, put_self}
use apalis_redis.Redis.Laws.{effects}
use apalis_redis.Script.{Lua, ok}
use apalis_redis.Config.{Config, active_jobs_list, job_data_hash, job_meta_hash, scheduled_jobs_set}
use apalis_redis.Config.Keys.{data-ne-meta, meta-ne-data}
use apalis_redis.Task.{RedisTask}
use apalis_redis.Lease.{meta_key}
use apalis_redis.Push.{Codec, Entry, entry, entries, meta_fields, enqueue, insert_new, store}

-- Every task has a time to run at.
abbrev pub Timed : List Entry → Type 0
Timed = All (λ e. 0 < e.schedule_time)

pub entries-Timed :
    (codec : Codec) (now place : ℕ) (ts : List RedisTask) (es : List Entry)
    → 0 < now
    → entries codec now place ts ≡ some es
    → Timed es
unfolding entries entry
entries-Timed codec now place [] es pos h = let e : es ≡ [] = cc in rw e tt
entries-Timed codec now place (t ∷ ts) es pos h =
    elim (Option-cases (codec.metadata_to_string t.metadata)) [
      | inl e ↦ cc (rw (entries, e) at h)
      | inr (meta, e) ↦ elim (Option-cases (entries codec now (suc place) ts)) [
        | inl f ↦ cc (rw (entries, e, f) at h)
        | inr (rest, f) ↦
            let same : es ≡ entry codec now place t meta ∷ rest = cc (rw (entries, e, f) at h) in
            rw same (ground arith, entries-Timed codec now (suc place) ts rest pos f)
      ]
    ]

module _ (R : Redis) (codec : Codec) (c : Config) where
  open R use {Db, keyspace}

  abbrev pub storing : Entry → Bool → ℕ × ℕ → Lua Db (ℕ × ℕ)
  storing e allowed counts d =
      store R codec (job_data_hash c) (active_jobs_list c) (job_meta_hash c) (scheduled_jobs_set c)
        c.emit_events e allowed counts d

  -- The state once a new task is stored and scheduled.
  abbrev pub inserted : Entry → Db → Db
  inserted e d = R.zadd (scheduled_jobs_set c) e.schedule_time e.task_id (
      R.hset (meta_key (job_meta_hash c) e.task_id) (meta_fields codec e)
        (R.hsetnx (job_data_hash c) e.task_id e.task_data d).1)

  enqueue-scheduled :
      (emit : Bool) (id : Text) (time : ℕ) (counts : ℕ × ℕ) (d : Db)
      → 0 < time
      → enqueue R (active_jobs_list c) (scheduled_jobs_set c) emit id time counts d
        ≡ (ok (counts.0, suc counts.1), R.zadd (scheduled_jobs_set c) time id d)
  unfolding enqueue
  enqueue-scheduled emit id zero counts d h = absurd (omega arith)
  enqueue-scheduled emit id (suc time) counts d h = refl

  pub store-new :
      (e : Entry) (counts : ℕ × ℕ) (d : Db)
      → 0 < e.schedule_time
      → lookup e.task_id ((keyspace d).hash (job_data_hash c)) ≡ none
      → storing e true counts d ≡ (ok (counts.0, suc counts.1), inserted e d)
  unfolding store insert_new
  store-new e counts d h new =
      rw (R.hsetnx_reply (job_data_hash c) e.task_id e.task_data d, new)
        (enqueue-scheduled c.emit_events e.task_id e.schedule_time counts _ h)

  pub store-refused :
      (e : Entry) (counts : ℕ × ℕ) (d : Db) → storing e false counts d ≡ (ok counts, d)
  unfolding store
  store-refused e counts d = refl

  pub store-known :
      (e : Entry) (counts : ℕ × ℕ) (d : Db) {v : Text}
      → lookup e.task_id ((keyspace d).hash (job_data_hash c)) ≡ some v
      → storing e true counts d
        ≡ (ok counts, (R.hsetnx (job_data_hash c) e.task_id e.task_data d).1)
  unfolding store insert_new
  store-known e counts d known =
      rw (R.hsetnx_reply (job_data_hash c) e.task_id e.task_data d, known)

  pub inserted-data :
      (e : Entry) (d : Db) (j : Text)
      → lookup e.task_id ((keyspace d).hash (job_data_hash c)) ≡ none
      → lookup j ((keyspace (inserted e d)).hash (job_data_hash c))
        ≡ ite
            (text_dec e.task_id j)
            (some e.task_data)
            (lookup j ((keyspace d).hash (job_data_hash c)))
  inserted-data e d j new = simp effects (
      rw
        (
          put-ne _ (meta_key (job_meta_hash c) e.task_id) _ (job_data_hash c)
              (meta-ne-data c e.task_id),
          new,
        )
        (rw (put_self (keyspace d).hash (job_data_hash c) _)
          (lookup-insert j e.task_id e.task_data _)))

  pub inserted-times :
      (e : Entry) (d : Db) (j : Text)
      → lookup e.task_id ((keyspace d).hash (job_data_hash c)) ≡ none
      → lookup j ((keyspace (inserted e d)).zset (scheduled_jobs_set c))
        ≡ ite
            (text_dec e.task_id j)
            (some e.schedule_time)
            (lookup j ((keyspace d).zset (scheduled_jobs_set c)))
  inserted-times e d j new = simp effects (rw new (lookup-insert j e.task_id e.schedule_time _))

  pub inserted-meta :
      (e : Entry) (d : Db)
      → lookup e.task_id ((keyspace d).hash (job_data_hash c)) ≡ none
      → (keyspace (inserted e d)).hash (meta_key (job_meta_hash c) e.task_id)
        ≡ insert_all
            (meta_fields codec e)
            ((keyspace d).hash (meta_key (job_meta_hash c) e.task_id))
  inserted-meta e d new = simp effects (
      rw new (
        ap (insert_all (meta_fields codec e))
          (put-ne (keyspace d).hash (job_data_hash c) _ _ (data-ne-meta c e.task_id))))
