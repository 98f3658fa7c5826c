-- ===== src/Push/Refused.antt =====
-- Tasks whose idempotency key is taken.
use apalis_redis.Prelude.{
  ℕ, ◌<◌, All, Option, Bool-cases, ◌==◌, if_neg, ◌≡◌, refl, ◌≢◌, inl, inr, ◌∙◌, ap, Bool, true,
  false, some, List, [], ◌∷◌, Text, text_dec, Option-cases,
}
use apalis_redis.Prelude.Assoc.{lookup}
use apalis_redis.Redis.{Redis, put-ne}
use apalis_redis.Redis.Laws.{effects}
use apalis_redis.Script.{ok}
use apalis_redis.Config.{Config, job_data_hash, scheduled_jobs_set, idempotency_key_set}
use apalis_redis.Config.Keys.{idempotency-ne-data, idempotency-ne-scheduled}
use apalis_redis.Task.{RedisTask}
use apalis_redis.Lease.{meta_key}
use apalis_redis.Push.{Codec, Entry, entries, ttl_secs, claim, push_entries, push_tasks}
use apalis_redis.Push.Steps.{free, claimed, claim-run, claimed-rest}
use apalis_redis.Push.Storing.{
  Timed, entries-Timed, storing, store-new, store-refused, store-known, inserted-data,
  inserted-times,
}
use apalis_redis.Push.Enqueue.{push-run, pushing, claim_of, store-Keeps}
use apalis_redis.Push.Claim.{storing-string}

All-map :
    {P Q : Entry → Type 0} → ((e : Entry) → P e → Q e) → (es : List Entry) → All P es → All Q es
All-map f [] h = tt
All-map f (e ∷ es) h = (f e h.0, All-map f es h.1)

module _ (R : Redis) (codec : Codec) (c : Config) where
  open R use {Db, keyspace}

  -- A key that is claimed stays claimed while others are.
  claimed-string :
      (ttl : ℕ) (key id k v : Text) (d : Db)
      → (keyspace d).string k ≡ some v
      → (keyspace (claimed R (idempotency_key_set c) ttl key id d)).string k ≡ some v
  unfolding claim
  claimed-string ttl [] id k v d h = h
  claimed-string ttl (b ∷ key) id k v d h =
      let full = meta_key (idempotency_key_set c) (b ∷ key) in
      elim (Option-cases ((keyspace d).string full)) [
        | inr (u, e) ↦ rw (claimed, claim, R.setnx_reply full id d, e) (simp effects (rw e h))
        | inl e ↦
            let ne : full ≢ k = λ q. cc (q, e, h) in
            rw (claimed, claim, R.setnx_reply full id d, e)
              (elim (Bool-cases (ttl == 0)) [
                | inl z ↦ simp effects (rw (z, e) (put-ne _ full _ k ne ∙ put-ne _ full _ k ne ∙ h))
                | inr z ↦ simp effects (rw (z, e) (put-ne _ full _ k ne ∙ h))
              ])
      ]

  -- That an idempotency key is taken on the server.
  abbrev pub Taken : Db → Text → Type 0
  Taken d key = free (idempotency_key_set c) key (keyspace d) ≡ false

  Taken-kept :
      (key : Text) (d d' : Db)
      → ((k v : Text) → (keyspace d).string k ≡ some v → (keyspace d').string k ≡ some v)
      → Taken d key
      → Taken d' key
  unfolding free
  Taken-kept [] d d' h t = cc (t)
  Taken-kept (b ∷ key) d d' h t =
      let full = meta_key (idempotency_key_set c) (b ∷ key) in
      elim (Option-cases ((keyspace d).string full)) [
        | inl e ↦ cc (rw (free, e) at t)
        | inr (v, e) ↦ rw (free, h full v e)
      ]

  -- A task's data, and when it is due.
  abbrev pub stored_as : Text → Db → Option Text × Option ℕ
  stored_as j d = (
    lookup j ((keyspace d).hash (job_data_hash c)),
    lookup j ((keyspace d).zset (scheduled_jobs_set c)),
  )

  -- Storing a task changes no other.
  storing-other :
      (e : Entry) (allowed : Bool) (counts : ℕ × ℕ) (d : Db) (j : Text)
      → 0 < e.schedule_time
      → e.task_id ≢ j
      → stored_as j (storing R codec c e allowed counts d).1 ≡ stored_as j d
  storing-other e false counts d j h ne = rw (store-refused R codec c e counts d)
  storing-other e true counts d j h ne =
      elim (Option-cases (lookup e.task_id ((keyspace d).hash (job_data_hash c)))) [
        | inl new ↦ rw (store-new R codec c e counts d h new) (
            let same_data =
              inserted-data R codec c e d j new ∙ if_neg (text_dec e.task_id j) ne _ _ in
            let times = inserted-times R codec c e d j new ∙ if_neg (text_dec e.task_id j) ne _ _ in
            cc (same_data, times))
        | inr (v, known) ↦
            rw (store-known R codec c e counts d known) (simp effects (rw known refl))
      ]

  claim-other :
      (e : Entry) (d : Db) (j : Text) → stored_as j (claim_of R codec c e d) ≡ stored_as j d
  claim-other e d j =
      let rest = λ (k : Text) (ne : meta_key (idempotency_key_set c) e.idempotency_key ≢ k).
        claimed-rest R (idempotency_key_set c) (ttl_secs c.idempotency_ttl) e.idempotency_key
          e.task_id k d ne in
      let same_data = (rest (job_data_hash c) (idempotency-ne-data c e.idempotency_key)).2 in
      let same_times =
        (rest (scheduled_jobs_set c) (idempotency-ne-scheduled c e.idempotency_key)).1 in
      cc (same_data, same_times)

  -- One round: the task is refused if its key is taken, and another task is left alone.
  round-other :
      (e : Entry) (counts : ℕ × ℕ) (d : Db) (j : Text)
      → 0 < e.schedule_time
      → (e.task_id ≡ j → Taken d e.idempotency_key)
      → let allowed = free (idempotency_key_set c) e.idempotency_key (keyspace d) in
        stored_as j (storing R codec c e allowed counts (claim_of R codec c e d)).1 ≡ stored_as j d
  round-other e counts d j h taken =
      let allowed = free (idempotency_key_set c) e.idempotency_key (keyspace d) in
      let d1 = claim_of R codec c e d in
      elim (text_dec e.task_id j) [
        | yes same ↦
            ap (λ o. stored_as j (storing R codec c e o counts d1).1) (taken same)
            ∙ ap (λ r. stored_as j r.1) (store-refused R codec c e counts d1)
            ∙ claim-other e d j
        | no ne ↦ storing-other e allowed counts d1 j h ne ∙ claim-other e d j
      ]

  pushing-other :
      (es : List Entry) (counts : ℕ × ℕ) (d : Db) (j : Text)
      → Timed es
      → All (λ e. e.task_id ≡ j → Taken d e.idempotency_key) es
      → stored_as j (pushing R codec c es counts d).1 ≡ stored_as j d
  unfolding push_entries
  pushing-other [] counts d j t h = refl
  pushing-other (e ∷ es) counts d j t h =
      let prefix = idempotency_key_set c in
      let ttl = ttl_secs c.idempotency_ttl in
      let allowed = free prefix e.idempotency_key (keyspace d) in
      let d1 = claim_of R codec c e d in
      let d2 = (storing R codec c e allowed counts d1).1 in
      let stored = store-Keeps R codec c e allowed counts d1 j t.0 in
      let run : storing R codec c e allowed counts d1 ≡ (ok (counts.0, stored.0.0), d2) =
        ap (λ r. (r, d2)) stored.0.1 in
      let strings = λ (k v : Text) (q : (keyspace d).string k ≡ some v).
        ap (λ s. s k) (storing-string R codec c e allowed counts d1 t.0)
        ∙ claimed-string ttl e.idempotency_key e.task_id k v d q in
      let later =
        All-map (λ a taken same. Taken-kept a.idempotency_key d d2 strings (taken same)) es h.1 in
      rw (claim-run R prefix ttl e.idempotency_key e.task_id d, run)
        (pushing-other es (counts.0, stored.0.0) d2 j t.1 later ∙ round-other e counts d j t.0 h.0)

  -- A push does not let in a task whose idempotency key is taken, whatever else is in the batch: if
  -- every task of the batch with a given id has an idempotency key that was taken before, the data
  -- stored under that id and the time at which it is due are after the push what they were. The
  -- metadata of the batch can be serialized, and the push is at a time after 0.
  pub push_tasks-refuses :
      (now : ℕ) (ts : List RedisTask) (es : List Entry) (d : Db) (j : Text)
      → entries codec now 0 ts ≡ some es
      → 0 < now
      → All
          (λ e. e.task_id ≡ j → free (idempotency_key_set c) e.idempotency_key (keyspace d) ≡ false)
          es
      → let d' = (push_tasks R codec c now ts d).1 in
        (lookup j ((keyspace d').hash (job_data_hash c))
          ≡ lookup j ((keyspace d).hash (job_data_hash c)))
        × (lookup j ((keyspace d').zset (scheduled_jobs_set c))
            ≡ lookup j ((keyspace d).zset (scheduled_jobs_set c)))
  push_tasks-refuses now ts es d j h pos taken =
      let run = push-run R codec c now ts es d h pos in
      let same = pushing-other es (0, 0) d j (entries-Timed codec now 0 ts es pos h) taken in
      rw run.1 (ap (λ p. p.0) same, ap (λ p. p.1) same)
