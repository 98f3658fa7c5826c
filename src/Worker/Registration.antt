-- ===== src/Worker/Registration.antt =====
-- Registering and heartbeats.
use apalis_redis.Prelude.{
  ℕ, ◌≡◌, refl, ◌≢◌, ◌⊎◌, inl, inr, sym, ◌∙◌, true, false, none, some, Text, text_dec, Bool-cases,
  Option-cases, ite,
}
use apalis_redis.Prelude.Assoc.{lookup, lookup-insert}
use apalis_redis.Redis.{Redis, put-ne, put_self}
use apalis_redis.Redis.Laws.{effects}
use apalis_redis.Script.{ok, err, error, database, raised, worker_not_registered, still_active}
use apalis_redis.Config.{Config, Duration, workers_set, orphaned_duration}
use apalis_redis.Config.Keys.{workers-ne-queues}
use apalis_redis.Task.{WorkerContext}
use apalis_redis.Worker.{
  seen_within, register_worker_lua, keep_alive_lua, register_worker, keep_alive,
}

module _ (R : Redis) where
  open R use {Db, keyspace}

  -- A heartbeat of a registered worker sets its score to the current time and keeps that of every
  -- other worker; one of a worker that is not registered fails and changes nothing.
  pub keep_alive_lem :
      (w : WorkerContext) (c : Config) (now : ℕ) (d : Db) (j : Text)
      → let (r, d') = keep_alive R w c now d in
        let before = (keyspace d).zset (workers_set c) in
        let after = (keyspace d').zset (workers_set c) in
        ((lookup w.name before ≡ none)
          × (r ≡ err (error (database (raised worker_not_registered))))
          × (d' ≡ d))
        ⊎ ((lookup w.name before ≢ none)
            × (r ≡ ok tt)
            × (lookup j after ≡ ite (text_dec w.name j) (some now) (lookup j before)))
  unfolding keep_alive keep_alive_lua
  keep_alive_lem w c now d j = elim (Option-cases (R.zscore d (workers_set c) w.name)) [
    | inl e ↦ inl (sym (R.zscore_lem d (workers_set c) w.name) ∙ e, rw e, rw e)
    | inr (s, e) ↦ inr (
      λ q. cc (q, R.zscore_lem d (workers_set c) w.name, e),
      rw e,
      rw e (simp effects (lookup-insert j w.name now _)),
    )
  ]

  -- Where the allowed silence can be computed, a worker that was heard of less than that ago cannot be
  -- registered again, and nothing changes; any other is registered as heard of now, and no other
  -- worker's score changes.
  pub register_worker_lem :
      (w : WorkerContext) (c : Config) (now : ℕ) (d : Db) (t : Duration) (j : Text)
      → orphaned_duration c ≡ some t
      → let (r, d') = register_worker R w c now d in
        let before = (keyspace d).zset (workers_set c) in
        let after = (keyspace d').zset (workers_set c) in
        ((seen_within now t.secs (lookup w.name before) ≡ true)
          × (r ≡ err (error (database (raised still_active))))
          × (d' ≡ d))
        ⊎ ((seen_within now t.secs (lookup w.name before) ≡ false)
            × (r ≡ ok tt)
            × (lookup j after ≡ ite (text_dec w.name j) (some now) (lookup j before)))
  unfolding register_worker register_worker_lua
  register_worker_lem w c now d t j e =
      rw (e, ← R.zscore_lem d (workers_set c) w.name)
        (elim (Bool-cases (seen_within now t.secs (R.zscore d (workers_set c) w.name))) [
          | inl h ↦ inl (h, rw h, rw h)
          | inr h ↦ inr (
            h,
            rw h,
            rw h (
                simp effects (
                  rw (put-ne _ _ _ _ (λ q. workers-ne-queues c (sym q)))
                    (rw put_self (lookup-insert j w.name now _)))),
          )
        ])

  -- Registering moves no task.
  pub register_worker-tasks :
      (w : WorkerContext) (c : Config) (now : ℕ) (d : Db) (t : Duration)
      → orphaned_duration c ≡ some t
      → ((keyspace (register_worker R w c now d).1).list ≡ (keyspace d).list)
        × ((keyspace (register_worker R w c now d).1).set ≡ (keyspace d).set)
  unfolding register_worker register_worker_lua
  register_worker-tasks w c now d t e =
      rw e (elim (Bool-cases (seen_within now t.secs (R.zscore d (workers_set c) w.name))) [
        | inl h ↦ rw h (refl, refl)
        | inr h ↦ rw h (simp effects, simp effects)
      ])

  -- A heartbeat moves no task either.
  pub keep_alive-set :
      (w : WorkerContext) (c : Config) (now : ℕ) (d : Db)
      → (keyspace (keep_alive R w c now d).1).set ≡ (keyspace d).set
  unfolding keep_alive keep_alive_lua
  keep_alive-set w c now d = elim (Option-cases (R.zscore d (workers_set c) w.name)) [
    | inl e ↦ rw e
    | inr (s, e) ↦ rw e (simp effects)
  ]
