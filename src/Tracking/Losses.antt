-- ===== src/Tracking/Losses.antt =====
-- Commands that take a task from a place: what they take, and that the rest stays.
use apalis_redis.Prelude.{
  ℕ, ◌≡◌, ◌≢◌, ◌⊎◌, inl, inr, sym, ◌∙◌, ap, true, none, some, List, [], ◌∷◌, ◌++◌, Text, text_dec,
  if_neg, Bool-cases, Option-cases, drop, arith,
}
use apalis_redis.Prelude.Assoc.{
  lookup, contains, contains-append, lookup-insert, lookup-erase, lookup-erase_all, erase_all,
}
use apalis_redis.Redis.{Redis, put-ne, put_self}
use apalis_redis.Redis.Laws.{effects}
use apalis_redis.Config.{
  Config, active_jobs_list, inflight_set_for, scheduled_jobs_set, job_data_hash, workers_set,
}
use apalis_redis.Config.Keys.{
  inflight-injective, inflight-ne-done, inflight-ne-dead, inflight-ne-active, inflight-ne-scheduled,
  inflight-ne-data, scheduled-ne-workers,
}
use apalis_redis.Tracking.{Accounted, unstored, waiting, scheduled, held, done, dead}
use apalis_redis.Tracking.Moves.{contains-remove_first}

module _ (R : Redis) (c : Config) (j : Text) (d : R.Db) where
  open R use {Db, keyspace}

  abbrev Before : Type 0
  Before = Accounted c j (keyspace d)

  abbrev After : Db → Type 0
  After d' = Accounted c j (keyspace d')

  pub lrem-Accounted :
      (id : Text) → Before → (id ≡ j) ⊎ After (R.lrem_first (active_jobs_list c) id d)
  lrem-Accounted id (unstored h) = inr (unstored (simp effects h))
  lrem-Accounted id (waiting h) = elim (contains-remove_first j id _ h) [
    | inl e ↦ inl e
    | inr q ↦ inr (waiting (simp effects q))
  ]
  lrem-Accounted id (scheduled h) = inr (scheduled (simp effects h))
  lrem-Accounted id (held w h) = inr (held w (simp effects h))
  lrem-Accounted id (done h) = inr (done (simp effects h))
  lrem-Accounted id (dead h) = inr (dead (simp effects h))

  pub ltrim-Accounted :
      (ids : List Text) (n : ℕ)
      → ids ++ drop n ((keyspace d).list (active_jobs_list c))
        ≡ (keyspace d).list (active_jobs_list c)
      → Before
      → (contains j ids ≡ true) ⊎ After (R.ltrim (active_jobs_list c) n d)
  ltrim-Accounted ids n e (unstored h) = inr (unstored (simp effects h))
  ltrim-Accounted ids n e (waiting h) = elim (Bool-cases (contains j ids)) [
    | inl q ↦ inl q
    | inr q ↦ inr (
        waiting (
          simp effects (
            ground (
              arith,
              q,
              h,
              ap (contains j) e,
              contains-append j ids (drop n ((keyspace d).list (active_jobs_list c))),
            ))))
  ]
  ltrim-Accounted ids n e (scheduled h) = inr (scheduled (simp effects h))
  ltrim-Accounted ids n e (held w h) = inr (held w (simp effects h))
  ltrim-Accounted ids n e (done h) = inr (done (simp effects h))
  ltrim-Accounted ids n e (dead h) = inr (dead (simp effects h))

  pub zrem-Accounted :
      (ids : List Text)
      → Before
      → (contains j ids ≡ true) ⊎ After (R.zrem (scheduled_jobs_set c) ids d)
  zrem-Accounted ids (unstored h) = inr (unstored (simp effects h))
  zrem-Accounted ids (waiting h) = inr (waiting (simp effects h))
  zrem-Accounted ids (scheduled h) = elim (Bool-cases (contains j ids)) [
    | inl q ↦ inl q
    | inr q ↦ inr (scheduled (simp effects λ e. h (sym (lookup-erase_all j ids _ ∙ rw q) ∙ e)))
  ]
  zrem-Accounted ids (held w h) = inr (held w (simp effects h))
  zrem-Accounted ids (done h) = inr (done (simp effects h))
  zrem-Accounted ids (dead h) = inr (dead (simp effects h))

  -- A worker's inflight set is deleted.
  pub del-Accounted :
      (w : Text)
      → Before
      → (contains j ((keyspace d).set (inflight_set_for c w)) ≡ true)
        ⊎ After (R.del (inflight_set_for c w) d)
  del-Accounted w (unstored h) =
      inr (unstored (simp effects (rw (put-ne _ _ _ _ (inflight-ne-data c w)) h)))
  del-Accounted w (waiting h) =
      inr (waiting (simp effects (rw (put-ne _ _ _ _ (inflight-ne-active c w)) h)))
  del-Accounted w (scheduled h) =
      inr (scheduled (simp effects (rw (put-ne _ _ _ _ (inflight-ne-scheduled c w)) h)))
  del-Accounted w (held v h) = elim (text_dec w v) [
    | yes e ↦ inl (rw e h)
    | no n ↦ inr (
        held v (
          simp effects (
            rw
              (put-ne _ (inflight_set_for c w) _ (inflight_set_for c v)
                (λ e. n (inflight-injective c w v e)))
              h)))
  ]
  del-Accounted w (done h) =
      inr (done (simp effects (rw (put-ne _ _ _ _ (inflight-ne-done c w)) h)))
  del-Accounted w (dead h) =
      inr (dead (simp effects (rw (put-ne _ _ _ _ (inflight-ne-dead c w)) h)))

  pub hdel-Accounted : (id : Text) → Before → After (R.hdel (job_data_hash c) (id ∷ []) d)
  unfolding erase_all
  hdel-Accounted id (unstored h) =
      unstored (simp effects (lookup-erase j id _ ∙ rw h (ground arith)))
  hdel-Accounted id (waiting h) = waiting (simp effects h)
  hdel-Accounted id (scheduled h) = scheduled (simp effects h)
  hdel-Accounted id (held w h) = held w (simp effects h)
  hdel-Accounted id (done h) = done (simp effects h)
  hdel-Accounted id (dead h) = dead (simp effects h)

  -- A task's data is stored: only a task that is new loses its account.
  pub hsetnx-Accounted :
      (id v : Text) → Before → (id ≡ j) ⊎ After (R.hsetnx (job_data_hash c) id v d).1
  hsetnx-Accounted id v p = elim (Option-cases (lookup id ((keyspace d).hash (job_data_hash c)))) [
    | inr (u, e) ↦ inr (rw (R.keyspace-hsetnx (job_data_hash c) id v d, e) p)
    | inl e ↦ inserted p e
  ]
    where
      inserted :
          Before
          → lookup id ((keyspace d).hash (job_data_hash c)) ≡ none
          → (id ≡ j) ⊎ After (R.hsetnx (job_data_hash c) id v d).1
      inserted (unstored h) e = elim (text_dec id j) [
        | yes q ↦ inl q
        | no n ↦ inr (
            unstored (
              rw (R.keyspace-hsetnx (job_data_hash c) id v d, e, put_self)
                (lookup-insert j id v _ ∙ if_neg (text_dec id j) n (some v) _ ∙ h)))
      ]
      inserted (waiting h) e = inr (waiting (rw (R.keyspace-hsetnx (job_data_hash c) id v d, e) h))
      inserted (scheduled h) e =
          inr (scheduled (rw (R.keyspace-hsetnx (job_data_hash c) id v d, e) h))
      inserted (held w h) e = inr (held w (rw (R.keyspace-hsetnx (job_data_hash c) id v d, e) h))
      inserted (done h) e = inr (done (rw (R.keyspace-hsetnx (job_data_hash c) id v d, e) h))
      inserted (dead h) e = inr (dead (rw (R.keyspace-hsetnx (job_data_hash c) id v d, e) h))

  -- The set of workers places no task.
  workers-ne-scheduled : workers_set c ≢ scheduled_jobs_set c
  workers-ne-scheduled e = scheduled-ne-workers c (sym e)

  pub hear-Accounted : (now : ℕ) (w : Text) → Before → After (R.zadd (workers_set c) now w d)
  hear-Accounted now w (unstored h) = unstored (simp effects h)
  hear-Accounted now w (waiting h) = waiting (simp effects h)
  hear-Accounted now w (scheduled h) =
      scheduled (simp effects (rw (put-ne _ (workers_set c) _ _ workers-ne-scheduled) h))
  hear-Accounted now w (held v h) = held v (simp effects h)
  hear-Accounted now w (done h) = done (simp effects h)
  hear-Accounted now w (dead h) = dead (simp effects h)

  pub retire-Accounted : (w : Text) → Before → After (R.zrem (workers_set c) (w ∷ []) d)
  retire-Accounted w (unstored h) = unstored (simp effects h)
  retire-Accounted w (waiting h) = waiting (simp effects h)
  retire-Accounted w (scheduled h) =
      scheduled (simp effects (rw (put-ne _ (workers_set c) _ _ workers-ne-scheduled) h))
  retire-Accounted w (held v h) = held v (simp effects h)
  retire-Accounted w (done h) = done (simp effects h)
  retire-Accounted w (dead h) = dead (simp effects h)
