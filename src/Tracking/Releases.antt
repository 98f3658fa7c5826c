-- ===== src/Tracking/Releases.antt =====
-- Releasing leases.
use apalis_redis.Prelude.{
  ℕ, inl, inr, Bool, true, false, suc, ltb, length, ◌==◌, List, [], ◌∷◌, Perm, Text, bytes,
  if◌then◌else◌,
}
use apalis_redis.Redis.{Redis}
use apalis_redis.Script.{Lua, writes, when, ◌>>◌}
use apalis_redis.Config.{Config, active_jobs_list, inflight_set_for, signal_list, job_meta_hash}
use apalis_redis.Task.{WorkerContext, RedisTask}
use apalis_redis.Lease.{
  channel, reset, reset_all, release_each, release_everything, release_jobs, release_leases_lua,
  release_leases, task_ids,
}
use apalis_redis.Tracking.Kit.{Kit}
use apalis_redis.Tracking.Keeps.{Keeps, next-keep, after, unwrap-Keeps, invoke-Keeps}
use apalis_redis.Tracking.Frame.{hdel-Framed}
use apalis_redis.Tracking.Scripts.{
  meta-IsAside, framed, signal_if-Kept, published-Kept, hset_meta, taken,
}

module _ (R : Redis) (c : Config) (K : Kit R c) where
  open R use {Db, keyspace}
  open K use {P}

  reset-Kept :
      (emit : Bool) (id : Text) → Keeps P (reset R (active_jobs_list c) (job_meta_hash c) emit id)
  unfolding reset
  reset-Kept emit id = record {
    keep = λ d p.
        (published-Kept R c K emit (channel (active_jobs_list c) (bytes ":available")) id).keep _
          (framed R c K (hdel-Framed R c _ (meta-IsAside c id) _ _) (hset_meta R c K id _ d p));
  }

  reset_all-Kept :
      (emit : Bool) (ids : List Text)
      → Keeps P (reset_all R (active_jobs_list c) (job_meta_hash c) emit ids)
  unfolding reset_all
  reset_all-Kept emit [] = record { keep = λ d p. p }
  reset_all-Kept emit (id ∷ ids) = record {
    keep = λ d p. after P _ (reset-Kept emit id) p λ _. (reset_all-Kept emit ids).keep;
  }

  abbrev requeue : Bool → Bool → Text → Lua Db (Unit {0})
  requeue emit b id = when b (
      writes (R.rpush (active_jobs_list c) (id ∷ []))
      >> reset R (active_jobs_list c) (job_meta_hash c) emit id)

  requeued :
      (w : Text) (emit : Bool) (id : Text) (d : Db)
      → P d
      → (let (removed, d') = R.srem (inflight_set_for c w) id d in
          P (requeue emit (removed == 1) id d').1)
  requeued w emit id d p = elim (taken R c K w id d p) [
    | inl (e, loose) ↦ rw e ((reset-Kept emit id).keep _ (K.enqueue id _ loose))
    | inr (e, p') ↦ rw e p'
  ]

  release_each-Kept :
      (w : Text) (emit : Bool) (ids : List Text) (n : ℕ)
      → Keeps P
          (release_each R (inflight_set_for c w) (active_jobs_list c) (job_meta_hash c) emit ids n)
  unfolding release_each
  release_each-Kept w emit [] n = record { keep = λ d p. p }
  release_each-Kept w emit (id ∷ ids) n = record {
    keep = λ d p.
        let (removed, d') = R.srem (inflight_set_for c w) id d in
        next-keep P (requeue emit (removed == 1) id d') _ (requeued w emit id d p)
          λ _. (release_each-Kept w emit ids (if removed == 1 then suc n else n)).keep;
  }

  abbrev give_back : Text → Bool → Bool → List Text → Lua Db (Unit {0})
  give_back w emit b jobs = when b (
      writes (R.rpush (active_jobs_list c) jobs)
      >> (writes (R.del (inflight_set_for c w))
          >> reset_all R (active_jobs_list c) (job_meta_hash c) emit jobs))

  gave_back :
      (w : Text) (emit b : Bool) (jobs : List Text) (d : Db)
      → Perm jobs ((keyspace d).set (inflight_set_for c w))
      → P d
      → P (give_back w emit b jobs d).1
  gave_back w emit false jobs d q p = p
  gave_back w emit true jobs d q p = (reset_all-Kept emit jobs).keep _ (K.give_back w jobs d q p)

  release_everything-Kept :
      (w : Text) (emit : Bool)
      → Keeps P
          (release_everything R (inflight_set_for c w) (active_jobs_list c) (job_meta_hash c) emit)
  unfolding release_everything
  release_everything-Kept w emit = record {
    keep = λ d p.
        let all = R.smembers d (inflight_set_for c w) in
        next-keep P (give_back w emit (ltb 0 (length all)) all d) _
          (gave_back w emit _ all d (R.smembers-perm d (inflight_set_for c w)) p) λ _ d p. p;
  }

  release_leases_lua-Kept :
      (w : Text) (emit : Bool) (ids : List Text)
      → Keeps P (
          release_leases_lua R
            (inflight_set_for c w)
            (active_jobs_list c)
            (signal_list c)
            (job_meta_hash c)
            emit
            ids)
  unfolding release_leases_lua release_jobs
  release_leases_lua-Kept w emit [] = record {
    keep = λ d p.
        after P _ (release_everything-Kept w emit) p
          λ n d p. after P _ (signal_if-Kept R c K (ltb 0 n)) p λ _ d p. p;
  }
  release_leases_lua-Kept w emit (id ∷ ids) = record {
    keep = λ d p.
        after P _ (release_each-Kept w emit (id ∷ ids) 0) p
          λ n d p. after P _ (signal_if-Kept R c K (ltb 0 n)) p λ _ d p. p;
  }

  pub release_leases-Kept :
      (w : WorkerContext) (tasks : List RedisTask) → Keeps P (release_leases R c w tasks)
  unfolding release_leases
  release_leases-Kept w tasks = record {
    keep = λ d p.
        after P _ (unwrap-Keeps P (task_ids tasks)) p
          λ ids d p. (invoke-Keeps P (release_leases_lua-Kept w.name c.emit_events ids)).keep d p;
  }
