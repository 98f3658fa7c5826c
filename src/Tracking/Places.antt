-- ===== src/Tracking/Places.antt =====
-- That a task has a place survives every move.
use apalis_redis.Prelude.{
  ℕ, ◌≡◌, ◌≢◌, ◌⊎◌, inl, inr, sym, ◌∙◌, true, none, List, [], ◌∷◌, ◌++◌, drop, Perm, Text,
}
use apalis_redis.Prelude.Assoc.{lookup, contains, contains-perm}
use apalis_redis.Redis.{Redis, Keyspace, below, put-ne, put_self}
use apalis_redis.Redis.Laws.{effects}
use apalis_redis.Config.{
  Config, active_jobs_list, inflight_set_for, done_jobs_set, dead_jobs_set, scheduled_jobs_set,
  job_data_hash, workers_set,
}
use apalis_redis.Config.Keys.{inflight-ne-active}
use apalis_redis.Tracking.{Accounted, unstored, waiting, scheduled, held, done, dead}
use apalis_redis.Tracking.Frame.{Alike}
use apalis_redis.Tracking.Kit.{Kit}
use apalis_redis.Tracking.Moves.{
  rpush-Accounted, rpush-waiting, sadd-Accounted, sadd-held, sadd-done, sadd-dead, zadd-Accounted,
  zadd-scheduled, srem-Accounted, srem-absent, contains_one, contains-append_right,
  contains-add_all_self,
}
use apalis_redis.Tracking.Losses.{
  lrem-Accounted, ltrim-Accounted, zrem-Accounted, del-Accounted, hsetnx-Accounted, hdel-Accounted,
  hear-Accounted, retire-Accounted,
}

pub Alike-Accounted :
    (c : Config) (j : Text) {k k' : Keyspace} → Alike c k k' → Accounted c j k → Accounted c j k'
Alike-Accounted c j a (unstored h) = unstored (rw a.same_data h)
Alike-Accounted c j a (waiting h) = waiting (rw a.same_active h)
Alike-Accounted c j a (scheduled h) = scheduled (rw a.same_scheduled h)
Alike-Accounted c j a (held w h) = held w (rw (a.same_inflight w) h)
Alike-Accounted c j a (done h) = done (rw a.same_done h)
Alike-Accounted c j a (dead h) = dead (rw a.same_dead h)

module _ (R : Redis) (c : Config) (j : Text) where
  open R use {Db, keyspace}

  abbrev pub P : Db → Type 0
  P d = Accounted c j (keyspace d)

  -- Between two places, the task itself may have none.
  abbrev pub Loose : Text → Db → Type 0
  Loose id d = (id ≡ j) ⊎ P d

  pub frame_loose-Accounted :
      (id : Text) (d e : Db) → Alike c (keyspace d) (keyspace e) → Loose id d → Loose id e
  frame_loose-Accounted id d e a (inl q) = inl q
  frame_loose-Accounted id d e a (inr p) = inr (Alike-Accounted c j a p)

  pub promote-Accounted :
      (now : ℕ) (ids : List Text) (d : Db)
      → Perm ids (below now ((keyspace d).zset (scheduled_jobs_set c)))
      → P d
      → P (R.zrem (scheduled_jobs_set c) ids (R.rpush (active_jobs_list c) ids d))
  promote-Accounted now ids d q p =
      elim (zrem-Accounted R c j (R.rpush (active_jobs_list c) ids d) ids
        (rpush-Accounted R c j d ids p)) [
          | inr k ↦ k
          | inl h ↦ waiting (simp effects (contains-append_right j _ ids h))
        ]

  pub mark-Accounted :
      (w : Text) (ids : List Text) (n : ℕ) (d : Db)
      → lookup w ((keyspace d).zset (workers_set c)) ≢ none
      → ids ++ drop n ((keyspace d).list (active_jobs_list c))
        ≡ (keyspace d).list (active_jobs_list c)
      → P d
      → P (R.ltrim (active_jobs_list c) n (R.sadd (inflight_set_for c w) ids d))
  mark-Accounted w ids n d r e p =
      elim (ltrim-Accounted R c j (R.sadd (inflight_set_for c w) ids d) ids n (simp effects e)
        (sadd-Accounted R c j d (inflight_set_for c w) ids p)) [
          | inr k ↦ k
          | inl h ↦ held w (simp effects (contains-add_all_self j ids _ h))
        ]

  pub lock-Accounted :
      (w id : Text) (d : Db)
      → contains id ((keyspace d).set (inflight_set_for c w)) ≡ true
      → P d
      → P (R.sadd (inflight_set_for c w) (id ∷ []) (R.lrem_first (active_jobs_list c) id d))
  lock-Accounted w id d h p = elim (lrem-Accounted R c j d id p) [
    | inl e ↦ sadd-held R c j _ w (id ∷ []) (contains_one id j e)
    | inr q ↦ sadd-Accounted R c j _ (inflight_set_for c w) (id ∷ []) q
  ]

  pub give_back-Accounted :
      (w : Text) (jobs : List Text) (d : Db)
      → Perm jobs ((keyspace d).set (inflight_set_for c w))
      → P d
      → P (R.del (inflight_set_for c w) (R.rpush (active_jobs_list c) jobs d))
  give_back-Accounted w jobs d q p =
      elim (del-Accounted R c j (R.rpush (active_jobs_list c) jobs d) w
        (rpush-Accounted R c j d jobs p)) [
          | inr k ↦ k
          | inl h ↦ waiting (
              simp effects (
                rw (put-ne _ (inflight_set_for c w) _ _ (inflight-ne-active c w)) (
                  rw put_self
                    (contains-append_right j _ jobs (contains-perm j q ∙ sym (simp effects) ∙ h)))))
        ]

  pub enqueue-Accounted :
      (id : Text) (d : Db) → Loose id d → P (R.rpush (active_jobs_list c) (id ∷ []) d)
  enqueue-Accounted id d (inl e) = rpush-waiting R c j d (id ∷ []) (contains_one id j e)
  enqueue-Accounted id d (inr p) = rpush-Accounted R c j d (id ∷ []) p

  pub schedule-Accounted :
      (n : ℕ) (id : Text) (d : Db) → Loose id d → P (R.zadd (scheduled_jobs_set c) n id d)
  schedule-Accounted n id d (inl e) = zadd-scheduled R c j d n id e
  schedule-Accounted n id d (inr p) = zadd-Accounted R c j d n id p

  pub finish-Accounted :
      (id : Text) (d : Db) → Loose id d → P (R.sadd (done_jobs_set c) (id ∷ []) d)
  finish-Accounted id d (inl e) = sadd-done R c j d (id ∷ []) (contains_one id j e)
  finish-Accounted id d (inr p) = sadd-Accounted R c j d (done_jobs_set c) (id ∷ []) p

  pub bury-Accounted : (id : Text) (d : Db) → Loose id d → P (R.sadd (dead_jobs_set c) (id ∷ []) d)
  bury-Accounted id d (inl e) = sadd-dead R c j d (id ∷ []) (contains_one id j e)
  bury-Accounted id d (inr p) = sadd-Accounted R c j d (dead_jobs_set c) (id ∷ []) p

  abbrev pub accounts : Kit R c
  accounts = record {
    P = P;
    Loose = Loose;
    frame = λ d e a p. Alike-Accounted c j a p;
    frame_loose = frame_loose-Accounted;
    promote = promote-Accounted;
    mark = mark-Accounted;
    lock = lock-Accounted;
    give_back = give_back-Accounted;
    take = λ w id d h p. srem-Accounted R c j d (inflight_set_for c w) id p;
    miss = λ w id d h p. srem-absent R c j d (inflight_set_for c w) id h p;
    store = λ id v d new p. hsetnx-Accounted R c j d id v p;
    enqueue = enqueue-Accounted;
    schedule = schedule-Accounted;
    finish = finish-Accounted;
    bury = bury-Accounted;
    hear = λ now w d p. hear-Accounted R c j d now w p;
    retire = λ w d e p. retire-Accounted R c j d w p;
  }

  pub forget : (id : Text) (d : Db) → P d → P (R.hdel (job_data_hash c) (id ∷ []) d)
  forget id d p = hdel-Accounted R c j d id p
