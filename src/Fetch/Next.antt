-- ===== src/Fetch/Next.antt =====
-- What one fetch takes and leaves.
use apalis_redis.Prelude.{
  ℕ, ◌≤◌, ◌<◌, ◌≡◌, refl, ◌≢◌, inl, inr, sym, ◌∙◌, ap, ◌||◌, none, List, [], ◌++◌, Text, length,
  drop, length-append, if◌then◌else◌, ltb, arith, Option-cases, ◌+◌,
}
use apalis_redis.Prelude.Assoc.{lookup, contains, add_all, lookup-erase_all}
use apalis_redis.Redis.{Redis, range}
use apalis_redis.Script.{Result, ok, err, worker_not_registered, error, database, raised}
use apalis_redis.Config.{
  Config, job_data_hash, job_meta_hash, workers_set, active_jobs_list, inflight_set_for,
  signal_list, scheduled_jobs_set,
}
use apalis_redis.Config.Keys.{signal-ne-active, signal-ne-inflight, signal-ne-scheduled}
use apalis_redis.Task.{WorkerContext}
use apalis_redis.Reply.{Core, CompactTask, DecodeError}
use apalis_redis.Fetch.{
  decoded, reply_of, batch_end, promote, mark_inflight, fetch_next_lua, fetch_next,
}
use apalis_redis.Fetch.Batch.{
  batch-drop, batch-le, contains-add_all, promote-ok, promote-list, promote-set, promote-zset,
  mark-ok, mark-list, mark-set, mark-zset, cleared, cleared-ok, cleared-list, cleared-set,
  cleared-zset,
}

decoded-state :
    {D : Type 0} (r : Result DecodeError (List CompactTask)) (d : D) → (decoded r d).1 ≡ d
decoded-state (ok ts) d = refl
decoded-state (err e) d = refl

module _ (R : Redis) (c : Config) (w : WorkerContext) (now : ℕ) where
  open R use {Db, keyspace}

  -- The scheduled tasks that are due, the queue with them at its end, and the batch at its front.
  abbrev pub due : Db → List Text
  due d = R.zrangebyscore d (scheduled_jobs_set c) now

  abbrev pub ready : Db → List Text
  ready d = (keyspace d).list (active_jobs_list c) ++ due d

  abbrev pub batch : Db → List Text
  batch d = range (batch_end c.batch_size) (ready d)

  abbrev pub promoted : Db → Db
  promoted d = (promote R (scheduled_jobs_set c) (active_jobs_list c) (signal_list c) (due d) d).1

  abbrev pub marked : Db → Db
  marked d =
      (mark_inflight R (inflight_set_for c w.name) (active_jobs_list c) (batch d) (promoted d)).1

  abbrev pub after : Db → Db
  after d = cleared R (ltb (length (batch d)) c.batch_size) (signal_list c) (marked d)

  promoted-list : (d : Db) → (keyspace (promoted d)).list (active_jobs_list c) ≡ ready d
  promoted-list d =
      promote-list R (active_jobs_list c) (inflight_set_for c w.name) (scheduled_jobs_set c)
        (signal_list c) (signal-ne-active c) (due d) d

  fetch-run :
      (d : Db)
      → lookup w.name ((keyspace d).zset (workers_set c)) ≢ none
      → fetch_next_lua R
          (workers_set c)
          (active_jobs_list c)
          (inflight_set_for c w.name)
          (job_data_hash c)
          (signal_list c)
          (job_meta_hash c)
          (scheduled_jobs_set c)
          now
          c.batch_size
          w.name
          d
        ≡ (ok (reply_of R (job_data_hash c) (job_meta_hash c) (batch d) (marked d)), after d)
  unfolding fetch_next_lua
  fetch-run d reg = elim (Option-cases (R.zscore d (workers_set c) w.name)) [
    | inl e ↦ absurd (reg (sym (R.zscore_lem d (workers_set c) w.name) ∙ e))
    | inr (s, e) ↦
        let active = active_jobs_list c in
        let inflight = inflight_set_for c w.name in
        let scheduled = scheduled_jobs_set c in
        let signal = signal_list c in
        rw (
          e,
          promote-ok R active inflight scheduled signal (due d) d,
          R.lrange_lem (promoted d) active (batch_end c.batch_size)
              ∙ ap (range (batch_end c.batch_size)) (promoted-list d),
          mark-ok R active inflight scheduled signal (batch d) (promoted d),
          cleared-ok R (ltb (length (batch d)) c.batch_size) signal (marked d),
        )
  ]

  module _ (core : Core) (d : Db)
      (reg : lookup w.name ((keyspace d).zset (workers_set c)) ≢ none) where
    pub fetch_next-state : (fetch_next R core w c now d).1 ≡ after d
    unfolding fetch_next
    fetch_next-state = rw (fetch-run d reg) (decoded-state _ (after d))

    -- A fetch by a registered worker adds the scheduled tasks that are due to the end of the queue and
    -- unschedules just these; then the batch at the front of the queue joins the worker's inflight
    -- set, and the rest of the queue stays in its order.
    pub fetch_next-takes :
        (j : Text)
        → let d' = (fetch_next R core w c now d).1 in
          (batch d ++ (keyspace d').list (active_jobs_list c) ≡ ready d)
          × (contains j ((keyspace d').set (inflight_set_for c w.name))
              ≡ (contains j (batch d) || contains j ((keyspace d).set (inflight_set_for c w.name))))
          × (lookup j ((keyspace d').zset (scheduled_jobs_set c)) ≡ (
              if contains j (due d)
              then none
              else lookup j ((keyspace d).zset (scheduled_jobs_set c))))
    fetch_next-takes j =
        let active = active_jobs_list c in
        let inflight = inflight_set_for c w.name in
        let scheduled = scheduled_jobs_set c in
        let signal = signal_list c in
        let short = ltb (length (batch d)) c.batch_size in
        rw fetch_next-state (
          ap (λ l. batch d ++ l)
                (cleared-list R short signal active (marked d) (signal-ne-active c)
                  ∙ mark-list R active inflight scheduled signal (batch d) (promoted d)
                  ∙ ap (drop (length (batch d))) (promoted-list d))
              ∙ batch-drop c.batch_size (ready d),
          ap (contains j) (
                cleared-set R short signal inflight (marked d) (signal-ne-inflight c w.name)
                ∙ mark-set R active inflight scheduled signal (batch d) (promoted d)
                ∙ ap (add_all (batch d)) (
                    promote-set R active inflight scheduled signal (due d) d
                      (signal-ne-inflight c w.name)))
              ∙ contains-add_all j (batch d) ((keyspace d).set inflight),
          ap (lookup j) (
                cleared-zset R short signal scheduled (marked d) (signal-ne-scheduled c)
                ∙ ap (λ z. z scheduled)
                    (mark-zset R active inflight scheduled signal (batch d) (promoted d))
                ∙ promote-zset R active inflight scheduled signal (due d) d (signal-ne-scheduled c))
              ∙ lookup-erase_all j (due d) ((keyspace d).zset scheduled),
        )

    -- A fetch with a positive batch size takes at most that many tasks off the queue.
    pub fetch_next-bounded :
        0 < c.batch_size
        → length (ready d)
          ≤ length ((keyspace (fetch_next R core w c now d).1).list (active_jobs_list c))
            + c.batch_size
    fetch_next-bounded pos = omega (
      arith,
      batch-le c.batch_size (ready d) pos,
      ap length (fetch_next-takes []).0,
      length-append (batch d)
          ((keyspace (fetch_next R core w c now d).1).list (active_jobs_list c)),
    )

  -- A worker that is not registered gets an error, and nothing changes.
  pub fetch_next-unregistered :
      (core : Core) (d : Db)
      → lookup w.name ((keyspace d).zset (workers_set c)) ≡ none
      → fetch_next R core w c now d ≡ (err (error (database (raised worker_not_registered))), d)
  unfolding fetch_next fetch_next_lua
  fetch_next-unregistered core d e = rw (R.zscore_lem d (workers_set c) w.name ∙ e)
