-- ===== src/Tracking/Counts.antt =====
-- How often a task is on the active list, in the schedule and with each worker, and what the commands
-- do to these numbers.
use apalis_redis.Prelude.{
  ℕ, ◌+◌, ◌≤◌, ◌≡◌, true, ◌≢◌, ap, sym, subst, ◌∙◌, List, [], ◌∷◌, Text, text_dec, ite, if_pos,
  if_neg, if◌then◌else◌, drop, arith,
}
use apalis_redis.Prelude.Assoc.{contains, remove, add, add_all}
use apalis_redis.Prelude.Counting.{
  count, count-append, count-remove, count-remove_first, count-add_all, count_keys,
  count_keys-insert, count_keys-erase_all, add-present,
}
use apalis_redis.Redis.{Redis, Keyspace, put, put-ne, put_self}
use apalis_redis.Redis.Laws.{effects}
use apalis_redis.Config.{
  Config, active_jobs_list, inflight_set_for, scheduled_jobs_set, workers_set,
}
use apalis_redis.Config.Keys.{
  inflight-injective, inflight-ne-active, inflight-ne-scheduled, scheduled-ne-workers,
}

module _ (c : Config) (j : Text) where
  unfoldable pub queued : Keyspace → ℕ
  queued k = count j (k.list (active_jobs_list c))

  unfoldable pub delayed : Keyspace → ℕ
  delayed k = count_keys j (k.zset (scheduled_jobs_set c))

  unfoldable pub with_worker : Keyspace → Text → ℕ
  with_worker k w = count j (k.set (inflight_set_for c w))

-- What is read of a worker's set after a change to another's, or its own.
pub at_worker {ℓ} :
    {A : Type ℓ} (c : Config) (g : List Text → A) (f : Text → List Text) (s : List Text)
    (w v : Text)
    → g (put f (inflight_set_for c w) s (inflight_set_for c v))
      ≡ ite (text_dec w v) (g s) (g (f (inflight_set_for c v)))
at_worker c g f s w v = elim (text_dec w v) [
  | yes e ↦
      subst (λ u. g (put f (inflight_set_for c w) s (inflight_set_for c u)) ≡ g s) e
        (ap g (put_self f (inflight_set_for c w) s))
      ∙ sym (if_pos (text_dec w v) e (g s) _)
  | no n ↦
      ap g (put-ne f (inflight_set_for c w) s _ (λ e. n (inflight-injective c w v e)))
      ∙ sym (if_neg (text_dec w v) n (g s) _)
]

module _ (R : Redis) (c : Config) (j : Text) (d : R.Db) where
  open R use {Db, keyspace}

  abbrev Q : Db → ℕ
  Q e = queued c j (keyspace e)

  abbrev S : Db → ℕ
  S e = delayed c j (keyspace e)

  abbrev H : Db → Text → ℕ
  H e w = with_worker c j (keyspace e) w

  module _ (xs : List Text) where
    pub queued-rpush : Q (R.rpush (active_jobs_list c) xs d) ≡ Q d + count j xs
    unfolding queued
    queued-rpush = simp effects (count-append j ((keyspace d).list (active_jobs_list c)) xs)

    pub delayed-rpush : S (R.rpush (active_jobs_list c) xs d) ≡ S d
    unfolding delayed
    delayed-rpush = simp effects

    pub with-rpush : (w : Text) → H (R.rpush (active_jobs_list c) xs d) w ≡ H d w
    unfolding with_worker
    with-rpush w = simp effects

    pub queued-zrem : Q (R.zrem (scheduled_jobs_set c) xs d) ≡ Q d
    unfolding queued
    queued-zrem = simp effects

    pub delayed-zrem : S (R.zrem (scheduled_jobs_set c) xs d) ≡ (if contains j xs then 0 else S d)
    unfolding delayed
    delayed-zrem = simp effects (count_keys-erase_all j xs _)

    pub with-zrem : (w : Text) → H (R.zrem (scheduled_jobs_set c) xs d) w ≡ H d w
    unfolding with_worker
    with-zrem w = simp effects

    pub queued-sadd : (x : Text) → Q (R.sadd x xs d) ≡ Q d
    unfolding queued
    queued-sadd x = simp effects

    pub delayed-sadd : (x : Text) → S (R.sadd x xs d) ≡ S d
    unfolding delayed
    delayed-sadd x = simp effects

    pub with-sadd :
        (w v : Text)
        → H (R.sadd (inflight_set_for c w) xs d) v ≤ ite (text_dec w v) (H d w + count j xs) (H d v)
    unfolding with_worker
    with-sadd w v =
        let same =
          at_worker c (count j) (keyspace d).set
            (add_all xs ((keyspace d).set (inflight_set_for c w))) w v in
        simp effects
          (ground (arith, same, count-add_all j xs ((keyspace d).set (inflight_set_for c w))))

  module _ (n : ℕ) where
    pub queued-ltrim :
        Q (R.ltrim (active_jobs_list c) n d)
        ≡ count j (drop n ((keyspace d).list (active_jobs_list c)))
    unfolding queued
    queued-ltrim = simp effects

    pub delayed-ltrim : S (R.ltrim (active_jobs_list c) n d) ≡ S d
    unfolding delayed
    delayed-ltrim = simp effects

    pub with-ltrim : (w : Text) → H (R.ltrim (active_jobs_list c) n d) w ≡ H d w
    unfolding with_worker
    with-ltrim w = simp effects

  module _ (id : Text) where
    pub queued-lrem : Q (R.lrem_first (active_jobs_list c) id d) ≤ Q d
    unfolding queued
    queued-lrem = simp effects (count-remove_first j id ((keyspace d).list (active_jobs_list c)))

    pub delayed-lrem : S (R.lrem_first (active_jobs_list c) id d) ≡ S d
    unfolding delayed
    delayed-lrem = simp effects

    pub with-lrem : (w : Text) → H (R.lrem_first (active_jobs_list c) id d) w ≡ H d w
    unfolding with_worker
    with-lrem w = simp effects

    pub queued-srem : (x : Text) → Q (R.srem x id d).1 ≡ Q d
    unfolding queued
    queued-srem x = simp effects

    pub delayed-srem : (x : Text) → S (R.srem x id d).1 ≡ S d
    unfolding delayed
    delayed-srem x = simp effects

    pub with-srem :
        (w v : Text)
        → H (R.srem (inflight_set_for c w) id d).1 v
          ≡ ite (text_dec w v) (ite (text_dec id j) 0 (H d w)) (H d v)
    unfolding with_worker
    with-srem w v =
        let x = inflight_set_for c w in
        let same = at_worker c (count j) (keyspace d).set (remove id ((keyspace d).set x)) w v in
        simp effects (ground (arith, same, count-remove j id ((keyspace d).set x)))

    pub queued-zadd : (x : Text) (n : ℕ) → Q (R.zadd x n id d) ≡ Q d
    unfolding queued
    queued-zadd x n = simp effects

    pub with-zadd : (x : Text) (n : ℕ) (w : Text) → H (R.zadd x n id d) w ≡ H d w
    unfolding with_worker
    with-zadd x n w = simp effects

    pub delayed-zadd : (n : ℕ) → S (R.zadd (scheduled_jobs_set c) n id d) ≤ S d + count j (id ∷ [])
    unfolding delayed
    delayed-zadd n =
        simp effects (count_keys-insert j id n ((keyspace d).zset (scheduled_jobs_set c)))

  module _ (w : Text) where
    pub queued-del : Q (R.del (inflight_set_for c w) d) ≡ Q d
    unfolding queued
    queued-del = simp effects (ap (count j) (put-ne _ _ _ _ (inflight-ne-active c w)))

    pub delayed-del : S (R.del (inflight_set_for c w) d) ≡ S d
    unfolding delayed
    delayed-del = simp effects (ap (count_keys j) (put-ne _ _ _ _ (inflight-ne-scheduled c w)))

    pub with-del : (v : Text) → H (R.del (inflight_set_for c w) d) v ≡ ite (text_dec w v) 0 (H d v)
    unfolding with_worker count
    with-del v = simp effects (at_worker c (count j) (keyspace d).set [] w v)

  -- A worker that gets what it has is left as it is.
  pub with-sadd_present :
      (w id v : Text)
      → contains id ((keyspace d).set (inflight_set_for c w)) ≡ true
      → H (R.sadd (inflight_set_for c w) (id ∷ []) d) v ≡ H d v
  unfolding with_worker add_all
  with-sadd_present w id v h =
      let s = (keyspace d).set (inflight_set_for c w) in
      simp effects
        (ground (arith, at_worker c (count j) (keyspace d).set (add id s) w v, add-present id s h))

  pub with-sadd_aside :
      (x : Text) (xs : List Text) (w : Text)
      → x ≢ inflight_set_for c w
      → H (R.sadd x xs d) w ≡ H d w
  unfolding with_worker
  with-sadd_aside x xs w ne = simp effects (ap (count j) (put-ne _ x _ _ ne))

  -- The set of workers counts no task.
  module _ (w : Text) where
    delayed_aside :
        (z : List (Text × ℕ))
        → count_keys j (put (keyspace d).zset (workers_set c) z (scheduled_jobs_set c))
          ≡ count_keys j ((keyspace d).zset (scheduled_jobs_set c))
    delayed_aside z = ap (count_keys j) (put-ne _ _ _ _ (λ e. scheduled-ne-workers c (sym e)))

    pub delayed-hear : (now : ℕ) → S (R.zadd (workers_set c) now w d) ≡ S d
    unfolding delayed
    delayed-hear now = simp effects (delayed_aside _)

    pub queued-retire : Q (R.zrem (workers_set c) (w ∷ []) d) ≡ Q d
    unfolding queued
    queued-retire = simp effects

    pub delayed-retire : S (R.zrem (workers_set c) (w ∷ []) d) ≡ S d
    unfolding delayed
    delayed-retire = simp effects (delayed_aside _)

    pub with-retire : (v : Text) → H (R.zrem (workers_set c) (w ∷ []) d) v ≡ H d v
    unfolding with_worker
    with-retire v = simp effects
