-- ===== src/Push/Enqueue.antt =====
-- What a push changes, and what it leaves alone.
use apalis_redis.Prelude.{
  ℕ, suc, ◌<◌, ◌≡◌, refl, ◌≢◌, inl, inr, sym, ◌∙◌, ap, Bool, true, false, none, some, List, [], ◌∷◌,
  Text, text_dec, if_neg, Option-cases,
}
use apalis_redis.Prelude.Assoc.{lookup}
use apalis_redis.Redis.{Redis}
use apalis_redis.Redis.Laws.{effects}
use apalis_redis.Script.{Lua, Result, ScriptError, ok}
use apalis_redis.Config.{
  Config, active_jobs_list, signal_list, job_data_hash, job_meta_hash, scheduled_jobs_set,
  idempotency_key_set,
}
use apalis_redis.Config.Keys.{idempotency-ne-active, idempotency-ne-data}
use apalis_redis.Task.{RedisTask}
use apalis_redis.Signal.{signal_if-idle}
use apalis_redis.Push.{Codec, Entry, entries, ttl_secs, push_entries, batch_push_lua, push_tasks}
use apalis_redis.Push.Storing.{
  Timed, entries-Timed, storing, store-new, store-refused, store-known, inserted-data,
}
use apalis_redis.Push.Steps.{free, claimed, claim-run, claimed-rest}

module _ (R : Redis) (codec : Codec) (c : Config) where
  open R use {Db, keyspace}

  -- What storing a task always leaves alone.
  abbrev pub Keeps : ℕ × ℕ → Db → Result ScriptError (ℕ × ℕ) × Db → Text → Type 0
  Keeps counts d (r, d') j =
      ((n : ℕ) × (r ≡ ok (counts.0, n)))
      × ((keyspace d').list (active_jobs_list c) ≡ (keyspace d).list (active_jobs_list c))
      × (lookup j ((keyspace d).hash (job_data_hash c)) ≢ none
          → lookup j ((keyspace d').hash (job_data_hash c))
            ≡ lookup j ((keyspace d).hash (job_data_hash c)))

  pub store-Keeps :
      (e : Entry) (allowed : Bool) (counts : ℕ × ℕ) (d : Db) (j : Text)
      → 0 < e.schedule_time
      → Keeps counts d (storing R codec c e allowed counts d) j
  store-Keeps e false counts d j h =
      rw (store-refused R codec c e counts d) ((counts.1, refl), refl, λ _. refl)
  store-Keeps e true counts d j h =
      elim (Option-cases (lookup e.task_id ((keyspace d).hash (job_data_hash c)))) [
        | inl new ↦ rw (store-new R codec c e counts d h new) (
          (suc counts.1, refl),
          simp effects (rw new refl),
          λ known. inserted-data R codec c e d j new ∙ elim (text_dec e.task_id j) [
            | yes same ↦
                absurd (
                  known (ap (λ i. lookup i ((keyspace d).hash (job_data_hash c))) (sym same) ∙ new))
            | no n ↦ if_neg (text_dec e.task_id j) n _ _
          ],
        )
        | inr (v, known) ↦
            rw (store-known R codec c e counts d known)
              ((counts.1, refl), simp effects (rw known refl), λ _. simp effects (rw known refl))
      ]

  abbrev pub pushing : List Entry → ℕ × ℕ → Lua Db (ℕ × ℕ)
  pushing es counts d =
      push_entries R codec (ttl_secs c.idempotency_ttl) (job_data_hash c) (active_jobs_list c)
        (job_meta_hash c) (scheduled_jobs_set c) (idempotency_key_set c) c.emit_events es counts d

  abbrev pub claim_of : Entry → Db → Db
  claim_of e d =
      claimed R (idempotency_key_set c) (ttl_secs c.idempotency_ttl) e.idempotency_key e.task_id d

  push_entries-Keeps :
      (es : List Entry) (counts : ℕ × ℕ) (d : Db) (j : Text)
      → Timed es
      → Keeps counts d (pushing es counts d) j
  unfolding push_entries
  push_entries-Keeps [] counts d j h = ((counts.1, refl), refl, λ _. refl)
  push_entries-Keeps (e ∷ es) counts d j h =
      let prefix = idempotency_key_set c in
      let ttl = ttl_secs c.idempotency_ttl in
      let allowed = free prefix e.idempotency_key (keyspace d) in
      let d1 = claim_of e d in
      let d2 = (storing R codec c e allowed counts d1).1 in
      let stored = store-Keeps e allowed counts d1 j h.0 in
      let run : storing R codec c e allowed counts d1 ≡ (ok (counts.0, stored.0.0), d2) =
        ap (λ r. (r, d2)) stored.0.1 in
      let later = push_entries-Keeps es (counts.0, stored.0.0) d2 j h.1 in
      let active =
        claimed-rest R prefix ttl e.idempotency_key e.task_id (active_jobs_list c) d
          (idempotency-ne-active c e.idempotency_key) in
      let stored_data =
        claimed-rest R prefix ttl e.idempotency_key e.task_id (job_data_hash c) d
          (idempotency-ne-data c e.idempotency_key) in
      rw (claim-run R prefix ttl e.idempotency_key e.task_id d, run)
        (
          later.0,
          later.1 ∙ stored.1 ∙ active.0,
          λ known.
              let before : lookup j ((keyspace d1).hash (job_data_hash c))
                  ≡ lookup j ((keyspace d).hash (job_data_hash c)) =
                ap (lookup j) stored_data.2 in
              let there = stored.2 (λ q. known (sym before ∙ q)) in
              later.2 (λ q. known (sym before ∙ sym there ∙ q)) ∙ there ∙ before,
        )

  pub push-run :
      (now : ℕ) (ts : List RedisTask) (es : List Entry) (d : Db)
      → entries codec now 0 ts ≡ some es
      → 0 < now
      → (n : ℕ) × (push_tasks R codec c now ts d ≡ (ok (0, n), (pushing es (0, 0) d).1))
  unfolding push_tasks batch_push_lua
  push-run now ts es d h pos =
      let kept = push_entries-Keeps es (0, 0) d [] (entries-Timed codec now 0 ts es pos h) in
      let run : pushing es (0, 0) d ≡ (ok (0, kept.0.0), (pushing es (0, 0) d).1) =
        ap (λ r. (r, (pushing es (0, 0) d).1)) kept.0.1 in
      (kept.0.0, rw (h, run, signal_if-idle R (signal_list c) (pushing es (0, 0) d).1))

  -- A push, at a time after 0 and of tasks whose metadata can be serialized, never changes the data
  -- of a task that is stored already.
  pub push_tasks-keeps :
      (now : ℕ) (ts : List RedisTask) (es : List Entry) (d : Db) (j : Text)
      → entries codec now 0 ts ≡ some es
      → 0 < now
      → lookup j ((keyspace d).hash (job_data_hash c)) ≢ none
      → lookup j ((keyspace (push_tasks R codec c now ts d).1).hash (job_data_hash c))
        ≡ lookup j ((keyspace d).hash (job_data_hash c))
  push_tasks-keeps now ts es d j h pos known =
      let run = push-run now ts es d h pos in
      rw run.1 ((push_entries-Keeps es (0, 0) d j (entries-Timed codec now 0 ts es pos h)).2 known)
