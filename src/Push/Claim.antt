-- ===== src/Push/Claim.antt =====
-- Idempotency keys, and a new task's way into the queue.
use apalis_redis.Prelude.{
  ℕ, ◌<◌, ◌≡◌, refl, ◌≢◌, inl, inr, ◌∙◌, ap, Bool, true, false, none, some, List, [], ◌∷◌, Text,
  text_dec, ite, Option-cases,
}
use apalis_redis.Prelude.Assoc.{lookup, insert_all}
use apalis_redis.Redis.{Redis, put-ne, put_self}
use apalis_redis.Redis.Laws.{effects}
use apalis_redis.Script.{ok}
use apalis_redis.Config.{
  Config, signal_list, job_data_hash, job_meta_hash, scheduled_jobs_set, idempotency_key_set,
}
use apalis_redis.Config.Keys.{idempotency-ne-data, idempotency-ne-scheduled, idempotency-ne-meta}
use apalis_redis.Task.{RedisTask}
use apalis_redis.Lease.{meta_key}
use apalis_redis.Signal.{signal_if-idle}
use apalis_redis.Push.{
  batch_push_lua, Codec, Entry, entries, meta_fields, ttl_secs, claim, push_entries, push_tasks,
}
use apalis_redis.Push.Steps.{free, claimed, claim-run, claimed-rest}
use apalis_redis.Push.Storing.{
  Timed, entries-Timed, storing, inserted, store-new, store-refused, store-known, inserted-data,
  inserted-times, inserted-meta,
}
use apalis_redis.Push.Enqueue.{push-run, pushing, claim_of, store-Keeps}

module _ (R : Redis) (codec : Codec) (c : Config) where
  open R use {Db, keyspace}

  -- With a time to live of 0 a key is free again as soon as it is claimed.
  claimed-zero :
      (key id k : Text) (d : Db)
      → (keyspace d).string k ≡ none
      → (keyspace (claimed R (idempotency_key_set c) 0 key id d)).string k ≡ none
  unfolding claim
  claimed-zero [] id k d h = h
  claimed-zero (b ∷ key) id k d h =
      let full = meta_key (idempotency_key_set c) (b ∷ key) in
      elim (Option-cases ((keyspace d).string full)) [
        | inr (v, e) ↦ rw (claimed, claim, R.setnx_reply full id d, e) (simp effects (rw e h))
        | inl e ↦
            rw (claimed, claim, R.setnx_reply full id d, e)
              (simp effects (
                rw e (elim (text_dec full k) [
                  | yes q ↦ rw (← q) (put_self _ full none)
                  | no n ↦ put-ne _ full none k n ∙ put-ne _ full _ k n ∙ h
                ])))
      ]

  pub storing-string :
      (e : Entry) (allowed : Bool) (counts : ℕ × ℕ) (d : Db)
      → 0 < e.schedule_time
      → (keyspace (storing R codec c e allowed counts d).1).string ≡ (keyspace d).string
  storing-string e false counts d h = rw (store-refused R codec c e counts d)
  storing-string e true counts d h =
      elim (Option-cases (lookup e.task_id ((keyspace d).hash (job_data_hash c)))) [
        | inl new ↦ rw (store-new R codec c e counts d h new) (simp effects (rw new refl))
        | inr (v, known) ↦
            rw (store-known R codec c e counts d known) (simp effects (rw known refl))
      ]

  pushing-zero :
      (es : List Entry) (counts : ℕ × ℕ) (d : Db) (k : Text)
      → ttl_secs c.idempotency_ttl ≡ 0
      → Timed es
      → (keyspace d).string k ≡ none
      → (keyspace (pushing R codec c es counts d).1).string k ≡ none
  unfolding push_entries
  pushing-zero [] counts d k z t h = h
  pushing-zero (e ∷ es) counts d k z t h =
      let prefix = idempotency_key_set c in
      let ttl = ttl_secs c.idempotency_ttl in
      let allowed = free prefix e.idempotency_key (keyspace d) in
      let d1 = claim_of R codec c e d in
      let d2 = (storing R codec c e allowed counts d1).1 in
      let stored = store-Keeps R codec c e allowed counts d1 k t.0 in
      let run : storing R codec c e allowed counts d1 ≡ (ok (counts.0, stored.0.0), d2) =
        ap (λ r. (r, d2)) stored.0.1 in
      let first : (keyspace d1).string k ≡ none =
        ap (λ n. (keyspace (claimed R prefix n e.idempotency_key e.task_id d)).string k) z
        ∙ claimed-zero e.idempotency_key e.task_id k d h in
      let second : (keyspace d2).string k ≡ none =
        ap (λ s. s k) (storing-string e allowed counts d1 t.0) ∙ first in
      rw (claim-run R prefix ttl e.idempotency_key e.task_id d, run)
        (pushing-zero es (counts.0, stored.0.0) d2 k z t.1 second)

  -- Where no time to live is set and the metadata can be serialized, no push at a time after 0 leaves
  -- an idempotency key claimed that was free before it: the same key can be used again at once.
  pub push_tasks-forgets :
      (now : ℕ) (ts : List RedisTask) (es : List Entry) (d : Db) (k : Text)
      → entries codec now 0 ts ≡ some es
      → 0 < now
      → c.idempotency_ttl ≡ none
      → (keyspace d).string k ≡ none
      → (keyspace (push_tasks R codec c now ts d).1).string k ≡ none
  push_tasks-forgets now ts es d k h pos none_set unclaimed =
      let run = push-run R codec c now ts es d h pos in
      rw run.1 (
        pushing-zero es (0, 0) d k (ap ttl_secs none_set) (entries-Timed codec now 0 ts es pos h)
          unclaimed)

  -- A push of a single task: its key is claimed, and then it is stored.
  push-only :
      (now : ℕ) (t : RedisTask) (e : Entry) (d d' : Db) (n : ℕ)
      → entries codec now 0 (t ∷ []) ≡ some (e ∷ [])
      → storing R codec c e
          (free (idempotency_key_set c) e.idempotency_key (keyspace d))
          (0, 0)
          (claim_of R codec c e d)
        ≡ (ok (0, n), d')
      → push_tasks R codec c now (t ∷ []) d ≡ (ok (0, n), d')
  unfolding push_tasks batch_push_lua push_entries
  push-only now t e d d' n h s = rw (
    h,
    claim-run R (idempotency_key_set c) (ttl_secs c.idempotency_ttl) e.idempotency_key e.task_id d,
    s,
    signal_if-idle R (signal_list c) d',
  )

  -- A single task whose idempotency key is free and whose id is new is stored with its data and its
  -- metadata and scheduled at its time; no other task's data or schedule changes. Its metadata can be
  -- serialized, and the push is at a time after 0.
  pub push_tasks-stores :
      (now : ℕ) (t : RedisTask) (e : Entry) (d : Db) (j : Text)
      → entries codec now 0 (t ∷ []) ≡ some (e ∷ [])
      → 0 < now
      → free (idempotency_key_set c) e.idempotency_key (keyspace d) ≡ true
      → lookup e.task_id ((keyspace d).hash (job_data_hash c)) ≡ none
      → let (r, d') = push_tasks R codec c now (t ∷ []) d in
        (r ≡ ok (0, 1))
        × (lookup j ((keyspace d').hash (job_data_hash c))
            ≡ ite
                (text_dec e.task_id j)
                (some e.task_data)
                (lookup j ((keyspace d).hash (job_data_hash c))))
        × (lookup j ((keyspace d').zset (scheduled_jobs_set c))
            ≡ ite
                (text_dec e.task_id j)
                (some e.schedule_time)
                (lookup j ((keyspace d).zset (scheduled_jobs_set c))))
        × ((keyspace d').hash (meta_key (job_meta_hash c) e.task_id)
            ≡ insert_all
                (meta_fields codec e)
                ((keyspace d).hash (meta_key (job_meta_hash c) e.task_id)))
  push_tasks-stores now t e d j h pos open_key new =
      let prefix = idempotency_key_set c in
      let ttl = ttl_secs c.idempotency_ttl in
      let d1 = claim_of R codec c e d in
      let meta = meta_key (job_meta_hash c) e.task_id in
      let rest = λ (k : Text) (ne : meta_key prefix e.idempotency_key ≢ k).
        claimed-rest R prefix ttl e.idempotency_key e.task_id k d ne in
      let same_data = (rest (job_data_hash c) (idempotency-ne-data c e.idempotency_key)).2 in
      let same_times =
        (rest (scheduled_jobs_set c) (idempotency-ne-scheduled c e.idempotency_key)).1 in
      let same_meta = (rest meta (idempotency-ne-meta c e.idempotency_key e.task_id)).2 in
      let still_new : lookup e.task_id ((keyspace d1).hash (job_data_hash c)) ≡ none =
        ap (lookup e.task_id) same_data ∙ new in
      let timed = (entries-Timed codec now 0 (t ∷ []) (e ∷ []) pos h).0 in
      let run = push-only now t e d (inserted R codec c e d1) 1 h (
        ap (λ o. storing R codec c e o (0, 0) d1) open_key
        ∙ store-new R codec c e (0, 0) d1 timed still_new) in
      rw run (
        refl,
        inserted-data R codec c e d1 j still_new
            ∙ ap (λ m. ite (text_dec e.task_id j) (some e.task_data) (lookup j m)) same_data,
        inserted-times R codec c e d1 j still_new
            ∙ ap (λ m. ite (text_dec e.task_id j) (some e.schedule_time) (lookup j m)) same_times,
        inserted-meta R codec c e d1 still_new ∙ ap (insert_all (meta_fields codec e)) same_meta,
      )
