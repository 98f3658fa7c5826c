-- ===== src/Tracking/Fetches.antt =====
-- A fetch: what is promoted waits, and what leaves the active list is held.
use apalis_redis.Prelude.{
  ℕ, ◌≡◌, ◌≢◌, inl, inr, Bool, true, none, ltb, length, List, [], ◌∷◌, ◌++◌, drop, Perm, Text,
  Option-cases,
}
use apalis_redis.Prelude.Assoc.{lookup}
use apalis_redis.Redis.{Redis, below}
use apalis_redis.Script.{Result, ok, err, ScriptError, writes, when}
use apalis_redis.Config.{
  Config, active_jobs_list, inflight_set_for, signal_list, job_meta_hash, job_data_hash,
  workers_set, scheduled_jobs_set,
}
use apalis_redis.Config.Keys.{signal-ne-workers, scheduled-ne-workers}
use apalis_redis.Task.{WorkerContext}
use apalis_redis.Reply.{Core, CompactTask, DecodeError, deserialize_with_meta}
use apalis_redis.Fetch.{promote, batch_end, mark_inflight, fetch_next_lua, fetch_next, decoded}
use apalis_redis.Fetch.Batch.{batch-drop, promote-zset_other}
use apalis_redis.Tracking.Kit.{Kit}
use apalis_redis.Tracking.Keeps.{Keeps, next-keep, next-through, after, when-Keeps, invoke-Keeps}
use apalis_redis.Tracking.Frame.{del-Framed}
use apalis_redis.Tracking.Scripts.{signal-IsAside, framed, signal_if-Kept}

module _ (R : Redis) (c : Config) (K : Kit R c) where
  open R use {Db, keyspace}
  open K use {P}

  promote-Kept :
      (now : ℕ) (ids : List Text) (d : Db)
      → Perm ids (below now ((keyspace d).zset (scheduled_jobs_set c)))
      → P d
      → P (promote R (scheduled_jobs_set c) (active_jobs_list c) (signal_list c) ids d).1
  unfolding promote
  promote-Kept now [] d q p = p
  promote-Kept now (id ∷ ids) d q p =
      (signal_if-Kept R c K true).keep _ (K.promote now (id ∷ ids) d q p)

  promote-workers :
      (ids : List Text) (d : Db)
      → (keyspace
            (promote R (scheduled_jobs_set c) (active_jobs_list c) (signal_list c) ids d).1).zset
          (workers_set c)
        ≡ (keyspace d).zset (workers_set c)
  promote-workers ids d =
      promote-zset_other R (active_jobs_list c) [] (scheduled_jobs_set c) (signal_list c)
        (workers_set c) ids d (signal-ne-workers c) (scheduled-ne-workers c)

  mark_inflight-Kept :
      (w : Text) (ids : List Text) (d : Db)
      → lookup w ((keyspace d).zset (workers_set c)) ≢ none
      → ids ++ drop (length ids) ((keyspace d).list (active_jobs_list c))
        ≡ (keyspace d).list (active_jobs_list c)
      → P d
      → P (mark_inflight R (inflight_set_for c w) (active_jobs_list c) ids d).1
  unfolding mark_inflight
  mark_inflight-Kept w [] d r e p = p
  mark_inflight-Kept w (id ∷ ids) d r e p = K.mark w (id ∷ ids) (length (id ∷ ids)) d r e p

  batch-front :
      (b : ℕ) (d : Db)
      → (let ids = R.lrange d (active_jobs_list c) (batch_end b) in
          ids ++ drop (length ids) ((keyspace d).list (active_jobs_list c))
          ≡ (keyspace d).list (active_jobs_list c))
  batch-front b d = rw (R.lrange_lem d (active_jobs_list c) (batch_end b)) (batch-drop b _)

  cleared-Kept : (b : Bool) → Keeps P (when b (writes {E = ScriptError} (R.del (signal_list c))))
  cleared-Kept b =
      when-Keeps P b
        (record { keep = λ d p. framed R c K (del-Framed R c _ (signal-IsAside c) d) p })

  fetch_next_lua-Kept :
      (w : Text) (now b : ℕ)
      → Keeps P (
          fetch_next_lua R
            (workers_set c)
            (active_jobs_list c)
            (inflight_set_for c w)
            (job_data_hash c)
            (signal_list c)
            (job_meta_hash c)
            (scheduled_jobs_set c)
            now
            b
            w)
  unfolding fetch_next_lua
  fetch_next_lua-Kept w now b = record {
    keep = λ d p. elim (Option-cases (R.zscore d (workers_set c) w)) [
      | inl e ↦ rw e p
      | inr (s, e) ↦
          let registered : lookup w ((keyspace d).zset (workers_set c)) ≢ none =
            λ q. cc (q, R.zscore_lem d (workers_set c) w, e) in
          let due = R.zrangebyscore d (scheduled_jobs_set c) now in
          rw e (
            next-through P (λ e. P e × (lookup w ((keyspace e).zset (workers_set c)) ≢ none))
              (promote R (scheduled_jobs_set c) (active_jobs_list c) (signal_list c) due d) _
              (λ _ q. q.0)
              (
                promote-Kept now due d (R.zrangebyscore-perm d (scheduled_jobs_set c) now) p,
                rw (promote-workers due d) registered,
              )
              λ _ d q.
                next-keep P (mark_inflight R _ _ (R.lrange d (active_jobs_list c) (batch_end b)) d)
                  _ (mark_inflight-Kept w _ d q.1 (batch-front b d) q.0)
                  λ _ d p. after P _ (cleared-Kept (ltb (length _) b)) p λ _ d p. p)
    ];
  }

  decoded-Kept : (r : Result DecodeError (List CompactTask)) → Keeps P (decoded r)
  decoded-Kept (ok tasks) = record { keep = λ d p. p }
  decoded-Kept (err e) = record { keep = λ d p. p }

  pub fetch_next-Kept :
      (core : Core) (w : WorkerContext) (now : ℕ) → Keeps P (fetch_next R core w c now)
  unfolding fetch_next
  fetch_next-Kept core w now = record {
    keep = λ d p.
        after P _ (invoke-Keeps P (fetch_next_lua-Kept w.name now c.batch_size)) p
          λ reply. (decoded-Kept (deserialize_with_meta core reply)).keep;
  }
