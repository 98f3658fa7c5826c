-- ===== src/Tracking/Scripts.antt =====
-- The steps that the scripts share, as an invariant sees them.
use apalis_redis.Prelude.{◌≡◌, refl, ◌⊎◌, inl, inr, Bool, Bool-cases, List, Text}
use apalis_redis.Prelude.Assoc.{contains}
use apalis_redis.Redis.{Redis}
use apalis_redis.Script.{ScriptError, writes, when}
use apalis_redis.Signal.{signal_if, signal_if-list, signal_if-set, signal_if-zset, signal_if-hash}
use apalis_redis.Config.{
  Config, inflight_set_for, signal_list, job_meta_hash, worker_metadata_key, idempotency_key_set,
}
use apalis_redis.Config.Keys.{Role, key}
use apalis_redis.Lease.{meta_key}
use apalis_redis.Tracking.Keeps.{Keeps, when-Keeps}
use apalis_redis.Tracking.Frame.{IsAside, key-IsAside, Framed, publish-Framed, hset-Framed}
use apalis_redis.Tracking.Kit.{Kit}

module _ (c : Config) where
  pub signal-IsAside : IsAside c (signal_list c)
  unfolding key
  signal-IsAside = key-IsAside c Role.signal refl

  pub metadata-IsAside : (w : Text) → IsAside c (worker_metadata_key c w)
  unfolding key
  metadata-IsAside w = key-IsAside c (Role.metadata w) refl

  pub meta-IsAside : (id : Text) → IsAside c (meta_key (job_meta_hash c) id)
  unfolding key
  meta-IsAside id = key-IsAside c (Role.meta id) refl

  pub idempotency-IsAside : (n : Text) → IsAside c (meta_key (idempotency_key_set c) n)
  unfolding key
  idempotency-IsAside n = key-IsAside c (Role.idempotency n) refl

module _ (R : Redis) (c : Config) (K : Kit R c) where
  open R use {Db, keyspace}
  open K use {P}

  pub framed : {d e : Db} → Framed R c d e → P d → P e
  framed {d} {e} h p = K.frame d e h p

  signal_if-Framed : (b : Bool) (d : Db) → Framed R c d (signal_if R (signal_list c) b d).1
  signal_if-Framed b d =
      let a = signal-IsAside c in
      record {
        same_active = signal_if-list R (signal_list c) b _ d a.ne_active;
        same_inflight = λ w. signal_if-set R (signal_list c) b _ d (a.ne_inflight w);
        same_done = signal_if-set R (signal_list c) b _ d a.ne_done;
        same_dead = signal_if-set R (signal_list c) b _ d a.ne_dead;
        same_scheduled = signal_if-zset R (signal_list c) b _ d a.ne_scheduled;
        same_data = signal_if-hash R (signal_list c) b _ d a.ne_data;
        same_workers = signal_if-zset R (signal_list c) b _ d a.ne_workers;
      }

  pub signal_if-Kept : (b : Bool) → Keeps P (signal_if R (signal_list c) b)
  signal_if-Kept b = record { keep = λ d p. framed (signal_if-Framed b d) p }

  pub published-Kept :
      (emit : Bool) (ch m : Text) → Keeps P (when emit (writes {E = ScriptError} (R.publish ch m)))
  published-Kept emit ch m =
      when-Keeps P emit (record { keep = λ d p. framed (publish-Framed R c ch m d) p })

  pub hset_meta :
      (id : Text) (fs : List (Text × Text)) (d : Db)
      → P d
      → P (R.hset (meta_key (job_meta_hash c) id) fs d)
  hset_meta id fs d p = framed (hset-Framed R c _ (meta-IsAside c id) d fs) p

  -- What a worker is asked for is taken from it, or is not with it.
  pub taken :
      (w id : Text) (d : Db)
      → P d
      → (((R.srem (inflight_set_for c w) id d).0 ≡ 1)
          × K.Loose id (R.srem (inflight_set_for c w) id d).1)
        ⊎ (((R.srem (inflight_set_for c w) id d).0 ≡ 0) × P (R.srem (inflight_set_for c w) id d).1)
  taken w id d p = elim (Bool-cases (contains id ((keyspace d).set (inflight_set_for c w)))) [
    | inl e ↦ inl (rw (R.srem_reply (inflight_set_for c w) id d, e) refl, K.take w id d e p)
    | inr e ↦ inr (rw (R.srem_reply (inflight_set_for c w) id d, e) refl, K.miss w id d e p)
  ]
