-- ===== src/Tracking/Exclusive/Settling.antt =====
-- A task that is taken from a worker, or is new, gets one place.
use apalis_redis.Prelude.{
  ℕ, ◌+◌, ◌≤◌, ◌<◌, ◌≡◌, ◌≢◌, sym, ap, subst, ◌∙◌, true, none, [], ◌∷◌, Text, text_dec, arith,
}
use apalis_redis.Prelude.Assoc.{lookup, contains, lookup-insert}
use apalis_redis.Prelude.Counting.{count, count-present}
use apalis_redis.Redis.{Redis, put_self}
use apalis_redis.Redis.Laws.{effects}
use apalis_redis.Config.{
  Config, active_jobs_list, inflight_set_for, done_jobs_set, dead_jobs_set, scheduled_jobs_set,
  job_data_hash, workers_set,
}
use apalis_redis.Config.Keys.{inflight-ne-done, inflight-ne-dead}
use apalis_redis.Tracking.Frame.{Alike}
use apalis_redis.Tracking.Kit.{Kit}
use apalis_redis.Tracking.Counts.{
  queued, delayed, with_worker, queued-rpush, delayed-rpush, with-rpush, queued-sadd, delayed-sadd,
  queued-srem, delayed-srem, with-srem, queued-zadd, with-zadd, delayed-zadd, with-sadd_aside,
  delayed-hear, queued-retire, delayed-retire, with-retire,
}
use apalis_redis.Tracking.Exclusive.{
  Nowhere, Exclusive, Alike-Exclusive, other-ne, rest, load, unstored, less,
}
use apalis_redis.Tracking.Exclusive.Transfers.{
  promote-Exclusive, mark-Exclusive, lock-Exclusive, give_back-Exclusive,
}

module _ (R : Redis) (c : Config) (j : Text) where
  open R use {Db, keyspace}

  abbrev pub P : Db → Type 0
  P d = Exclusive c j (keyspace d)

  abbrev pub Loose : Text → Db → Type 0
  Loose id d =
      P d
      × (id ≡ j
          → Nowhere c j (keyspace d) × (lookup j ((keyspace d).hash (job_data_hash c)) ≢ none))

  present :
      (w id : Text) (d : Db)
      → contains id ((keyspace d).set (inflight_set_for c w)) ≡ true
      → id ≡ j
      → 0 < load R c j d w
  unfolding with_worker
  present w id d h e =
      count-present j ((keyspace d).set (inflight_set_for c w))
        (subst (λ i. contains i ((keyspace d).set (inflight_set_for c w)) ≡ true) e h)

  pub removed-Exclusive : (w id : Text) (d : Db) → P d → P (R.srem (inflight_set_for c w) id d).1
  removed-Exclusive w id d p =
      let x = inflight_set_for c w in
      less R c j d (R.srem x id d).1 (simp effects)
        (omega (arith, queued-srem R c j d id x, delayed-srem R c j d id x))
        (λ u. ground (arith, with-srem R c j d id w u)) p

  pub take-Exclusive :
      (w id : Text) (d : Db)
      → contains id ((keyspace d).set (inflight_set_for c w)) ≡ true
      → P d
      → Loose id (R.srem (inflight_set_for c w) id d).1
  take-Exclusive w id d h p = (
    removed-Exclusive w id d p,
    λ e.
        let x = inflight_set_for c w in
        let held = present w id d h e in
        (
          λ u. ground (
            arith,
            held,
            queued-srem R c j d id x,
            delayed-srem R c j d id x,
            with-srem R c j d id w u,
            p.alone w u,
            p.alone w (0 ∷ w) (λ q. other-ne w (sym q)),
          ),
          λ q. absurd (
              omega (arith, held, p.fresh (unstored R c j d (R.srem x id d).1 (simp effects) q) w)),
        ),
  )

  pub store-Exclusive :
      (id v : Text) (d : Db)
      → lookup id ((keyspace d).hash (job_data_hash c)) ≡ none
      → P d
      → Loose id (R.hsetnx (job_data_hash c) id v d).1
  unfolding queued delayed with_worker
  store-Exclusive id v d new p =
      rw (R.keyspace-hsetnx (job_data_hash c) id v d, new, put_self)
        (
          record {
            alone = p.alone;
            fresh = λ q. p.fresh (
                ground (
                  arith,
                  lookup-insert j id v ((keyspace d).hash (job_data_hash c)),
                  (rw put_self at q),
                ));
          },
          λ e. (
            p.fresh (subst (λ i. lookup i ((keyspace d).hash (job_data_hash c)) ≡ none) e new),
            λ q. ground (arith, lookup-insert j id v ((keyspace d).hash (job_data_hash c)), q, e),
          ),
        )

  -- A loose task gets a place.
  placed :
      (id : Text) (d e : Db)
      → (keyspace e).hash ≡ (keyspace d).hash
      → rest R c j e ≤ rest R c j d + count j (id ∷ [])
      → ((w : Text) → load R c j e w ≤ load R c j d w)
      → Loose id d
      → P e
  unfolding count
  placed id d e same r l (p, loose) = elim (text_dec id j) [
    | no n ↦ less R c j d e same (ground arith) l p
    | yes q ↦ record {
      alone = λ v w n. ground (arith, r, l v, l w, (loose q).0 v, (loose q).0 w);
      fresh = λ h. absurd ((loose q).1 (unstored R c j d e same h));
    }
  ]

  pub enqueue-Exclusive :
      (id : Text) (d : Db) → Loose id d → P (R.rpush (active_jobs_list c) (id ∷ []) d)
  enqueue-Exclusive id d h =
      placed id d (R.rpush (active_jobs_list c) (id ∷ []) d) (simp effects)
        (omega (arith, queued-rpush R c j d (id ∷ []), delayed-rpush R c j d (id ∷ [])))
        (λ w. omega (arith, with-rpush R c j d (id ∷ []) w)) h

  pub schedule-Exclusive :
      (n : ℕ) (id : Text) (d : Db) → Loose id d → P (R.zadd (scheduled_jobs_set c) n id d)
  schedule-Exclusive n id d h =
      placed id d (R.zadd (scheduled_jobs_set c) n id d) (simp effects)
        (omega (arith, queued-zadd R c j d id (scheduled_jobs_set c) n, delayed-zadd R c j d id n))
        (λ w. omega (arith, with-zadd R c j d id (scheduled_jobs_set c) n w)) h

  -- What goes to a set that is no worker's.
  over-Exclusive :
      (x id : Text) (d : Db)
      → ((w : Text) → x ≢ inflight_set_for c w)
      → P d
      → P (R.sadd x (id ∷ []) d)
  over-Exclusive x id d ne p =
      less R c j d (R.sadd x (id ∷ []) d) (simp effects)
        (omega (arith, queued-sadd R c j d (id ∷ []) x, delayed-sadd R c j d (id ∷ []) x))
        (λ w. omega (arith, with-sadd_aside R c j d x (id ∷ []) w (ne w))) p

  pub finish-Exclusive :
      (id : Text) (d : Db) → Loose id d → P (R.sadd (done_jobs_set c) (id ∷ []) d)
  finish-Exclusive id d h =
      over-Exclusive (done_jobs_set c) id d (λ w e. inflight-ne-done c w (sym e)) h.0

  pub bury-Exclusive : (id : Text) (d : Db) → Loose id d → P (R.sadd (dead_jobs_set c) (id ∷ []) d)
  bury-Exclusive id d h =
      over-Exclusive (dead_jobs_set c) id d (λ w e. inflight-ne-dead c w (sym e)) h.0

  pub hear-Exclusive : (now : ℕ) (w : Text) (d : Db) → P d → P (R.zadd (workers_set c) now w d)
  hear-Exclusive now w d p =
      less R c j d (R.zadd (workers_set c) now w d) (simp effects)
        (omega (arith, queued-zadd R c j d w (workers_set c) now, delayed-hear R c j d w now))
        (λ v. omega (arith, with-zadd R c j d w (workers_set c) now v)) p

  pub retire-Exclusive : (w : Text) (d : Db) → P d → P (R.zrem (workers_set c) (w ∷ []) d)
  retire-Exclusive w d p =
      less R c j d (R.zrem (workers_set c) (w ∷ []) d) (simp effects)
        (omega (arith, queued-retire R c j d w, delayed-retire R c j d w))
        (λ v. omega (arith, with-retire R c j d w v)) p

  pub frame_loose-Exclusive :
      (id : Text) (d e : Db) → Alike c (keyspace d) (keyspace e) → Loose id d → Loose id e
  unfolding queued delayed with_worker
  frame_loose-Exclusive id d e a (p, loose) = (
    Alike-Exclusive c j a p,
    λ q. (
      λ w. rw (a.same_active, a.same_scheduled, a.same_inflight w) ((loose q).0 w),
      λ h. (loose q).1 (sym (ap (lookup j) a.same_data) ∙ h),
    ),
  )

  abbrev pub exclusion : Kit R c
  exclusion = record {
    P = P;
    Loose = Loose;
    frame = λ d e a p. Alike-Exclusive c j a p;
    frame_loose = frame_loose-Exclusive;
    promote = promote-Exclusive R c j;
    mark = mark-Exclusive R c j;
    lock = lock-Exclusive R c j;
    give_back = give_back-Exclusive R c j;
    take = take-Exclusive;
    miss = λ w id d h p. removed-Exclusive w id d p;
    store = store-Exclusive;
    enqueue = enqueue-Exclusive;
    schedule = schedule-Exclusive;
    finish = finish-Exclusive;
    bury = bury-Exclusive;
    hear = hear-Exclusive;
    retire = λ w d e p. retire-Exclusive w d p;
  }
