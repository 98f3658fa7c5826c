-- ===== src/Tracking/Registered.antt =====
-- That only registered workers hold tasks survives every move.
use apalis_redis.Prelude.{
  ℕ, ◌≡◌, ◌≢◌, sym, ap, subst, ◌∙◌, true, none, List, [], ◌∷◌, ◌++◌, drop, Perm, Text, text_dec,
  if_neg, ite, arith,
}
use apalis_redis.Prelude.Assoc.{
  lookup, contains, remove, add_all, contains-remove, contains-add, lookup-insert, lookup-erase,
  erase_all, add,
}
use apalis_redis.Redis.{Redis, Keyspace, below, put, put-ne}
use apalis_redis.Redis.Laws.{effects}
use apalis_redis.Config.{
  Config, active_jobs_list, inflight_set_for, done_jobs_set, dead_jobs_set, scheduled_jobs_set,
  job_data_hash, workers_set,
}
use apalis_redis.Config.Keys.{
  inflight-ne-done, inflight-ne-dead, inflight-ne-workers, scheduled-ne-workers,
}
use apalis_redis.Tracking.Frame.{Alike}
use apalis_redis.Tracking.Counts.{at_worker}
use apalis_redis.Tracking.Kit.{Kit}

-- Every worker that holds the task is registered.
pub record Registered (c : Config) (j : Text) (k : Keyspace) : Type 0 where
  pub known :
      (w : Text)
      → contains j (k.set (inflight_set_for c w)) ≡ true
      → lookup w (k.zset (workers_set c)) ≢ none

pub Alike-Registered :
    (c : Config) (j : Text) {k k' : Keyspace} → Alike c k k' → Registered c j k → Registered c j k'
Alike-Registered c j a p = record {
  known = λ w h. rw (a.same_workers) (p.known w (rw (a.same_inflight w) at h));
}

module _ (R : Redis) (c : Config) (j : Text) where
  open R use {Db, keyspace}

  abbrev pub P : Db → Type 0
  P d = Registered c j (keyspace d)

  abbrev pub Loose : Text → Db → Type 0
  Loose id d = P d

  -- No worker holds the task that did not, and the same workers are registered.
  fewer :
      (d e : Db)
      → ((w : Text)
          → contains j ((keyspace e).set (inflight_set_for c w)) ≡ true
          → contains j ((keyspace d).set (inflight_set_for c w)) ≡ true)
      → (keyspace e).zset (workers_set c) ≡ (keyspace d).zset (workers_set c)
      → P d
      → P e
  fewer d e sub same p = record { known = λ w h. rw same (p.known w (sub w h)) }

  at :
      (w v : Text) (s : List Text) (d : Db)
      → contains j (put (keyspace d).set (inflight_set_for c w) s (inflight_set_for c v))
        ≡ ite (text_dec w v) (contains j s) (contains j ((keyspace d).set (inflight_set_for c v)))
  at w v s d = at_worker c (contains j) (keyspace d).set s w v

  pub promote-Registered :
      (now : ℕ) (ids : List Text) (d : Db)
      → Perm ids (below now ((keyspace d).zset (scheduled_jobs_set c)))
      → P d
      → P (R.zrem (scheduled_jobs_set c) ids (R.rpush (active_jobs_list c) ids d))
  promote-Registered now ids d q p =
      fewer d (R.zrem (scheduled_jobs_set c) ids (R.rpush (active_jobs_list c) ids d))
        (λ w h. simp effects at h) (simp effects (put-ne _ _ _ _ (scheduled-ne-workers c))) p

  pub mark-Registered :
      (w : Text) (ids : List Text) (n : ℕ) (d : Db)
      → lookup w ((keyspace d).zset (workers_set c)) ≢ none
      → ids ++ drop n ((keyspace d).list (active_jobs_list c))
        ≡ (keyspace d).list (active_jobs_list c)
      → P d
      → P (R.ltrim (active_jobs_list c) n (R.sadd (inflight_set_for c w) ids d))
  mark-Registered w ids n d r e p = record {
    known = λ v h. simp effects (elim (text_dec w v) [
      | yes q ↦ subst (λ u. lookup u ((keyspace d).zset (workers_set c)) ≢ none) q r
      | no q ↦ p.known v (sym (at w v _ d ∙ if_neg (text_dec w v) q _ _) ∙ (simp effects at h))
    ]);
  }

  pub lock-Registered :
      (w id : Text) (d : Db)
      → contains id ((keyspace d).set (inflight_set_for c w)) ≡ true
      → P d
      → P (R.sadd (inflight_set_for c w) (id ∷ []) (R.lrem_first (active_jobs_list c) id d))
  unfolding add_all
  lock-Registered w id d there p =
      fewer d (R.sadd (inflight_set_for c w) (id ∷ []) (R.lrem_first (active_jobs_list c) id d))
        (λ v h.
          let s = (keyspace d).set (inflight_set_for c w) in
          let h' = simp effects at h in
          ground (arith, at w v (add id s) d, contains-add j id s, there, h'))
        (simp effects) p

  pub give_back-Registered :
      (w : Text) (jobs : List Text) (d : Db)
      → Perm jobs ((keyspace d).set (inflight_set_for c w))
      → P d
      → P (R.del (inflight_set_for c w) (R.rpush (active_jobs_list c) jobs d))
  unfolding contains
  give_back-Registered w jobs d q p =
      fewer d (R.del (inflight_set_for c w) (R.rpush (active_jobs_list c) jobs d))
        (λ v h. let h' = simp effects at h in ground (arith, at w v [] d, h'))
        (simp effects (put-ne _ _ _ _ (inflight-ne-workers c w))) p

  pub removed-Registered : (w id : Text) (d : Db) → P d → P (R.srem (inflight_set_for c w) id d).1
  removed-Registered w id d p =
      fewer d (R.srem (inflight_set_for c w) id d).1
        (λ v h.
          let s = (keyspace d).set (inflight_set_for c w) in
          let h' = simp effects at h in
          ground (arith, at w v (remove id s) d, contains-remove j id s, h'))
        (simp effects) p

  pub store-Registered :
      (id v : Text) (d : Db)
      → lookup id ((keyspace d).hash (job_data_hash c)) ≡ none
      → P d
      → P (R.hsetnx (job_data_hash c) id v d).1
  store-Registered id v d new p =
      rw (R.keyspace-hsetnx (job_data_hash c) id v d, new) (record { known = p.known })

  pub schedule-Registered :
      (n : ℕ) (id : Text) (d : Db) → P d → P (R.zadd (scheduled_jobs_set c) n id d)
  schedule-Registered n id d p =
      fewer d (R.zadd (scheduled_jobs_set c) n id d) (λ v h. simp effects at h)
        (simp effects (put-ne _ _ _ _ (scheduled-ne-workers c))) p

  pub enqueue-Registered : (id : Text) (d : Db) → P d → P (R.rpush (active_jobs_list c) (id ∷ []) d)
  enqueue-Registered id d p =
      fewer d (R.rpush (active_jobs_list c) (id ∷ []) d) (λ v h. simp effects at h) (simp effects) p

  over-Registered :
      (x id : Text) (d : Db)
      → ((w : Text) → x ≢ inflight_set_for c w)
      → P d
      → P (R.sadd x (id ∷ []) d)
  over-Registered x id d ne p =
      fewer d (R.sadd x (id ∷ []) d)
        (λ v h. ap (contains j) (sym (put-ne _ x _ _ (ne v))) ∙ (simp effects at h)) (simp effects)
        p

  pub finish-Registered : (id : Text) (d : Db) → P d → P (R.sadd (done_jobs_set c) (id ∷ []) d)
  finish-Registered id d p =
      over-Registered (done_jobs_set c) id d (λ w e. inflight-ne-done c w (sym e)) p

  pub bury-Registered : (id : Text) (d : Db) → P d → P (R.sadd (dead_jobs_set c) (id ∷ []) d)
  bury-Registered id d p =
      over-Registered (dead_jobs_set c) id d (λ w e. inflight-ne-dead c w (sym e)) p

  pub hear-Registered : (now : ℕ) (w : Text) (d : Db) → P d → P (R.zadd (workers_set c) now w d)
  hear-Registered now w d p = record {
    known = λ v h. simp effects λ e.
        p.known v (simp effects at h)
          (ground (arith, lookup-insert v w now ((keyspace d).zset (workers_set c)), e));
  }

  pub retire-Registered :
      (w : Text) (d : Db)
      → (keyspace d).set (inflight_set_for c w) ≡ []
      → P d
      → P (R.zrem (workers_set c) (w ∷ []) d)
  unfolding contains erase_all
  retire-Registered w d none_held p = record {
    known = λ v h. simp effects λ e.
        let h' = simp effects at h in
        p.known v h'
          (ground (arith, lookup-erase v w ((keyspace d).zset (workers_set c)), e, none_held, h'));
  }

  abbrev pub registration : Kit R c
  registration = record {
    P = P;
    Loose = Loose;
    frame = λ d e a p. Alike-Registered c j a p;
    frame_loose = λ id d e a p. Alike-Registered c j a p;
    promote = promote-Registered;
    mark = mark-Registered;
    lock = lock-Registered;
    give_back = give_back-Registered;
    take = λ w id d h p. removed-Registered w id d p;
    miss = λ w id d h p. removed-Registered w id d p;
    store = store-Registered;
    enqueue = enqueue-Registered;
    schedule = schedule-Registered;
    finish = finish-Registered;
    bury = bury-Registered;
    hear = hear-Registered;
    retire = retire-Registered;
  }

  pub forget : (id : Text) (d : Db) → P d → P (R.hdel (job_data_hash c) (id ∷ []) d)
  forget id d p =
      fewer d (R.hdel (job_data_hash c) (id ∷ []) d) (λ v h. simp effects at h) (simp effects) p
