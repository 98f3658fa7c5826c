-- ===== src/Tracking/Exclusive/Transfers.antt =====
-- Moves of many tasks, and of the tasks that a worker holds, keep a task in one place.
use apalis_redis.Prelude.{
  ℕ, ◌+◌, ◌≤◌, ◌≡◌, ◌≢◌, sym, ap, ◌∙◌, true, none, List, [], ◌∷◌, ◌++◌, drop, Perm, Text, arith,
}
use apalis_redis.Prelude.Assoc.{lookup, contains}
use apalis_redis.Prelude.Counting.{count, count-append, count-perm, count-absent}
use apalis_redis.Redis.{Redis, below, count-below, put-ne}
use apalis_redis.Redis.Laws.{effects}
use apalis_redis.Config.{
  Config, active_jobs_list, inflight_set_for, scheduled_jobs_set, workers_set,
}
use apalis_redis.Config.Keys.{inflight-ne-data}
use apalis_redis.Tracking.Counts.{
  queued, delayed, with_worker, queued-rpush, delayed-rpush, with-rpush, queued-zrem, delayed-zrem,
  with-zrem, queued-sadd, delayed-sadd, with-sadd, queued-ltrim, delayed-ltrim, with-ltrim,
  queued-lrem, delayed-lrem, with-lrem, queued-del, delayed-del, with-del, with-sadd_present,
}
use apalis_redis.Tracking.Exclusive.{Exclusive, rest, load, unstored, rebuilt, less}

module _ (R : Redis) (c : Config) (j : Text) where
  open R use {Db, keyspace}

  abbrev P : Db → Type 0
  P d = Exclusive c j (keyspace d)

  due-le :
      (now : ℕ) (ids : List Text) (d : Db)
      → Perm ids (below now ((keyspace d).zset (scheduled_jobs_set c)))
      → count j ids ≤ delayed c j (keyspace d)
  unfolding delayed
  due-le now ids d q =
      omega (arith, count-perm j q, count-below j now ((keyspace d).zset (scheduled_jobs_set c)))

  front :
      (ids : List Text) (n : ℕ) (d : Db)
      → ids ++ drop n ((keyspace d).list (active_jobs_list c))
        ≡ (keyspace d).list (active_jobs_list c)
      → count j ids + count j (drop n ((keyspace d).list (active_jobs_list c)))
        ≡ queued c j (keyspace d)
  unfolding queued
  front ids n d e =
      sym (count-append j ids (drop n ((keyspace d).list (active_jobs_list c)))) ∙ ap (count j) e

  pub promote-Exclusive :
      (now : ℕ) (ids : List Text) (d : Db)
      → Perm ids (below now ((keyspace d).zset (scheduled_jobs_set c)))
      → P d
      → P (R.zrem (scheduled_jobs_set c) ids (R.rpush (active_jobs_list c) ids d))
  promote-Exclusive now ids d q p =
      let d' = R.rpush (active_jobs_list c) ids d in
      less R c j d (R.zrem (scheduled_jobs_set c) ids d') (simp effects)
        (ground (
          arith,
          queued-rpush R c j d ids,
          delayed-rpush R c j d ids,
          queued-zrem R c j d' ids,
          delayed-zrem R c j d' ids,
          due-le now ids d q,
          count-absent j ids,
        ))
        (λ w. omega (arith, with-rpush R c j d ids w, with-zrem R c j d' ids w)) p

  pub mark-Exclusive :
      (w : Text) (ids : List Text) (n : ℕ) (d : Db)
      → lookup w ((keyspace d).zset (workers_set c)) ≢ none
      → ids ++ drop n ((keyspace d).list (active_jobs_list c))
        ≡ (keyspace d).list (active_jobs_list c)
      → P d
      → P (R.ltrim (active_jobs_list c) n (R.sadd (inflight_set_for c w) ids d))
  mark-Exclusive w ids n d r e p =
      let d' = R.sadd (inflight_set_for c w) ids d in
      let moved = front ids n d e in
      let left : drop n ((keyspace d').list (active_jobs_list c))
          ≡ drop n ((keyspace d).list (active_jobs_list c)) =
        simp effects in
      let counted = queued-ltrim R c j d' n ∙ ap (count j) left in
      rebuilt R c j d (R.ltrim (active_jobs_list c) n d')
        (unstored R c j d (R.ltrim (active_jobs_list c) n d') (simp effects))
        (λ u v ne. ground (
          arith,
          counted,
          moved,
          delayed-ltrim R c j d' n,
          with-ltrim R c j d' n u,
          with-ltrim R c j d' n v,
          delayed-sadd R c j d ids (inflight_set_for c w),
          with-sadd R c j d ids w u,
          with-sadd R c j d ids w v,
          p.alone u v ne,
        ))
        (λ h u. ground (
          arith,
          counted,
          moved,
          delayed-ltrim R c j d' n,
          with-ltrim R c j d' n u,
          delayed-sadd R c j d ids (inflight_set_for c w),
          with-sadd R c j d ids w u,
          h u,
          h w,
        ))
        p

  pub lock-Exclusive :
      (w id : Text) (d : Db)
      → contains id ((keyspace d).set (inflight_set_for c w)) ≡ true
      → P d
      → P (R.sadd (inflight_set_for c w) (id ∷ []) (R.lrem_first (active_jobs_list c) id d))
  lock-Exclusive w id d h p =
      let d' = R.lrem_first (active_jobs_list c) id d in
      less R c j d (R.sadd (inflight_set_for c w) (id ∷ []) d') (simp effects)
        (omega (
          arith,
          queued-lrem R c j d id,
          delayed-lrem R c j d id,
          queued-sadd R c j d' (id ∷ []) (inflight_set_for c w),
          delayed-sadd R c j d' (id ∷ []) (inflight_set_for c w),
        ))
        (λ u.
          let there : contains id ((keyspace d').set (inflight_set_for c w)) ≡ true =
            simp effects h in
          omega (arith, with-lrem R c j d id u, with-sadd_present R c j d' w id u there))
        p

  held_all :
      (w : Text) (jobs : List Text) (d : Db)
      → Perm jobs ((keyspace d).set (inflight_set_for c w))
      → count j jobs ≡ load R c j d w
  unfolding with_worker
  held_all w jobs d q = count-perm j q

  back :
      (w : Text) (jobs : List Text) (d : Db)
      → Perm jobs ((keyspace d).set (inflight_set_for c w))
      → rest R c j (R.del (inflight_set_for c w) (R.rpush (active_jobs_list c) jobs d))
        ≡ rest R c j d + load R c j d w
  back w jobs d q =
      let d' = R.rpush (active_jobs_list c) jobs d in
      omega (
        arith,
        queued-rpush R c j d jobs,
        delayed-rpush R c j d jobs,
        queued-del R c j d' w,
        delayed-del R c j d' w,
        held_all w jobs d q,
      )

  pub give_back-Exclusive :
      (w : Text) (jobs : List Text) (d : Db)
      → Perm jobs ((keyspace d).set (inflight_set_for c w))
      → P d
      → P (R.del (inflight_set_for c w) (R.rpush (active_jobs_list c) jobs d))
  give_back-Exclusive w jobs d q p =
      let d' = R.rpush (active_jobs_list c) jobs d in
      let e = R.del (inflight_set_for c w) d' in
      rebuilt R c j d e
        (λ h. ap (lookup j) (sym (simp effects (put-ne _ _ _ _ (inflight-ne-data c w)))) ∙ h)
        (λ u v ne. ground (
          arith,
          back w jobs d q,
          with-rpush R c j d jobs u,
          with-rpush R c j d jobs v,
          with-del R c j d' w u,
          with-del R c j d' w v,
          p.alone u v ne,
          p.alone w u,
          p.alone w v,
        ))
        (λ h u.
          ground
            (arith, back w jobs d q, with-rpush R c j d jobs u, with-del R c j d' w u, h u, h w))
        p
