-- ===== src/Tracking/Frame.antt =====
-- Commands on keys that say nothing of where a task is.
use apalis_redis.Prelude.{
  ℕ, ◌≡◌, refl, ◌≢◌, inl, inr, ap, Bool, true, false, ◌==◌, List, Text, [], Bool-cases,
  Option-cases,
}
use apalis_redis.Redis.{Redis, Keyspace, put-ne, erased}
use apalis_redis.Config.{
  Config, active_jobs_list, inflight_set_for, done_jobs_set, dead_jobs_set, scheduled_jobs_set,
  job_data_hash, workers_set,
}
use apalis_redis.Config.Keys.{Role, key, key-injective}

-- The roles whose keys place no task.
abbrev pub is_aside : Role → Bool
is_aside Role.active = false
is_aside Role.workers = false
is_aside Role.dead = false
is_aside Role.done = false
is_aside Role.failed = true
is_aside Role.data_hash = false
is_aside Role.scheduled = false
is_aside Role.signal = true
is_aside Role.inflight_prefix = true
is_aside (Role.inflight w) = false
is_aside (Role.metadata w) = true
is_aside (Role.meta id) = true
is_aside (Role.idempotency n) = true

module _ (c : Config) where
  -- A key that is none of those that place a task.
  pub record IsAside (k : Text) : Type 0 where
    pub ne_active : k ≢ active_jobs_list c
    pub ne_inflight : (w : Text) → k ≢ inflight_set_for c w
    pub ne_done : k ≢ done_jobs_set c
    pub ne_dead : k ≢ dead_jobs_set c
    pub ne_scheduled : k ≢ scheduled_jobs_set c
    pub ne_data : k ≢ job_data_hash c
    pub ne_workers : k ≢ workers_set c

  key-ne : (r s : Role) → is_aside r ≡ true → is_aside s ≡ false → key c r ≢ key c s
  key-ne r s h g e = cc (h, g, ap is_aside (key-injective c r s e))

  pub key-IsAside : (r : Role) → is_aside r ≡ true → IsAside (key c r)
  unfolding key
  key-IsAside r h = record {
    ne_active = key-ne r Role.active h refl;
    ne_inflight = λ w. key-ne r (Role.inflight w) h refl;
    ne_done = key-ne r Role.done h refl;
    ne_dead = key-ne r Role.dead h refl;
    ne_scheduled = key-ne r Role.scheduled h refl;
    ne_data = key-ne r Role.data_hash h refl;
    ne_workers = key-ne r Role.workers h refl;
  }

  -- Two states that place every task alike.
  pub record Alike (k k' : Keyspace) : Type 0 where
    pub same_active : k'.list (active_jobs_list c) ≡ k.list (active_jobs_list c)
    pub same_inflight : (w : Text) → k'.set (inflight_set_for c w) ≡ k.set (inflight_set_for c w)
    pub same_done : k'.set (done_jobs_set c) ≡ k.set (done_jobs_set c)
    pub same_dead : k'.set (dead_jobs_set c) ≡ k.set (dead_jobs_set c)
    pub same_scheduled : k'.zset (scheduled_jobs_set c) ≡ k.zset (scheduled_jobs_set c)
    pub same_data : k'.hash (job_data_hash c) ≡ k.hash (job_data_hash c)
    pub same_workers : k'.zset (workers_set c) ≡ k.zset (workers_set c)

  pub Alike-of_fields :
      {k k' : Keyspace}
      → k'.list ≡ k.list
      → k'.set ≡ k.set
      → k'.zset ≡ k.zset
      → k'.hash ≡ k.hash
      → Alike k k'
  Alike-of_fields l s z h = record {
    same_active = ap (λ f. f (active_jobs_list c)) l;
    same_inflight = λ w. ap (λ f. f (inflight_set_for c w)) s;
    same_done = ap (λ f. f (done_jobs_set c)) s;
    same_dead = ap (λ f. f (dead_jobs_set c)) s;
    same_scheduled = ap (λ f. f (scheduled_jobs_set c)) z;
    same_data = ap (λ f. f (job_data_hash c)) h;
    same_workers = ap (λ f. f (workers_set c)) z;
  }

  pub Alike-erased : (x : Text) (k : Keyspace) → IsAside x → Alike k (erased x k)
  Alike-erased x k a = record {
    same_active = put-ne k.list x [] _ a.ne_active;
    same_inflight = λ w. put-ne k.set x [] _ (a.ne_inflight w);
    same_done = put-ne k.set x [] _ a.ne_done;
    same_dead = put-ne k.set x [] _ a.ne_dead;
    same_scheduled = put-ne k.zset x [] _ a.ne_scheduled;
    same_data = put-ne k.hash x [] _ a.ne_data;
    same_workers = put-ne k.zset x [] _ a.ne_workers;
  }

module _ (R : Redis) (c : Config) where
  open R use {Db, keyspace}

  -- A state after a command that places every task as the state before it.
  abbrev pub Framed : Db → Db → Type 0
  Framed d d' = Alike c (keyspace d) (keyspace d')

  module _ (x : Text) (a : IsAside c x) (d : Db) where
    pub del-Framed : Framed d (R.del x d)
    del-Framed = rw (R.keyspace-del x d) (Alike-erased c x (keyspace d) a)

    pub lpush-Framed : (v : Text) → Framed d (R.lpush x v d)
    lpush-Framed v = rw (R.keyspace-lpush x v d) (record {
      same_active = put-ne (keyspace d).list x _ _ a.ne_active;
      same_inflight = λ w. refl;
      same_done = refl;
      same_dead = refl;
      same_scheduled = refl;
      same_data = refl;
      same_workers = refl;
    })

    pub hset-Framed : (fs : List (Text × Text)) → Framed d (R.hset x fs d)
    hset-Framed fs = rw (R.keyspace-hset x fs d) (record {
      same_active = refl;
      same_inflight = λ w. refl;
      same_done = refl;
      same_dead = refl;
      same_scheduled = refl;
      same_data = put-ne (keyspace d).hash x _ _ a.ne_data;
      same_workers = refl;
    })

    pub hdel-Framed : (fs : List Text) → Framed d (R.hdel x fs d)
    hdel-Framed fs = rw (R.keyspace-hdel x fs d) (record {
      same_active = refl;
      same_inflight = λ w. refl;
      same_done = refl;
      same_dead = refl;
      same_scheduled = refl;
      same_data = put-ne (keyspace d).hash x _ _ a.ne_data;
      same_workers = refl;
    })

    pub expire-Framed : (secs : ℕ) → Framed d (R.expire x secs d)
    expire-Framed secs = elim (Bool-cases (secs == 0)) [
      | inl e ↦ rw (R.keyspace-expire x secs d, e) (Alike-erased c x (keyspace d) a)
      | inr e ↦ rw (R.keyspace-expire x secs d, e) (Alike-of_fields c refl refl refl refl)
    ]

  pub setnx-Framed : (x v : Text) (d : Db) → Framed d (R.setnx x v d).1
  setnx-Framed x v d = elim (Option-cases ((keyspace d).string x)) [
    | inl e ↦ rw (R.keyspace-setnx x v d, e) (Alike-of_fields c refl refl refl refl)
    | inr (s, e) ↦ rw (R.keyspace-setnx x v d, e) (Alike-of_fields c refl refl refl refl)
  ]

  pub publish-Framed : (ch m : Text) (d : Db) → Framed d (R.publish ch m d)
  publish-Framed ch m d = rw (R.keyspace-publish ch m d) (Alike-of_fields c refl refl refl refl)

  pub zadd_gt-Framed :
      (x : Text) (n : ℕ) (m : Text) (d : Db)
      → x ≢ scheduled_jobs_set c
      → x ≢ workers_set c
      → Framed d (R.zadd_gt x n m d)
  zadd_gt-Framed x n m d h g = rw (R.keyspace-zadd_gt x n m d) (record {
    same_active = refl;
    same_inflight = λ w. refl;
    same_done = refl;
    same_dead = refl;
    same_scheduled = put-ne (keyspace d).zset x _ _ h;
    same_data = refl;
    same_workers = put-ne (keyspace d).zset x _ _ g;
  })
