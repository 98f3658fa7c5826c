-- ===== src/Tracking/Exclusive.antt =====
-- That a task has one place at most.
mod Transfers
pub mod Settling
use apalis_redis.Prelude.{
  ℕ, ◌+◌, ◌≤◌, ◌<◌, ◌≡◌, ◌≢◌, sym, ap, subst, ◌∙◌, true, none, List, [], ◌∷◌, ◌++◌, drop, Perm,
  Text, text_dec, length, arith,
}
use apalis_redis.Prelude.Assoc.{lookup, contains, lookup-insert}
use apalis_redis.Prelude.Counting.{count, count-append, count-perm, count-absent, count-present}
use apalis_redis.Redis.{Redis, Keyspace, below, count-below, put-ne, put_self}
use apalis_redis.Redis.Laws.{effects}
use apalis_redis.Config.{
  Config, active_jobs_list, inflight_set_for, done_jobs_set, dead_jobs_set, scheduled_jobs_set,
  job_data_hash, workers_set,
}
use apalis_redis.Config.Keys.{inflight-ne-data, inflight-ne-done, inflight-ne-dead}
use apalis_redis.Tracking.Frame.{Alike}
use apalis_redis.Tracking.Kit.{Kit}
use apalis_redis.Tracking.Counts.{
  queued, delayed, with_worker, queued-rpush, delayed-rpush, with-rpush, queued-zrem, delayed-zrem,
  with-zrem, queued-sadd, delayed-sadd, with-sadd, queued-ltrim, delayed-ltrim, with-ltrim,
  queued-lrem, delayed-lrem, with-lrem, queued-srem, delayed-srem, with-srem, queued-zadd,
  with-zadd, delayed-zadd, queued-del, delayed-del, with-del, with-sadd_aside, with-sadd_present,
  delayed-hear, queued-retire, delayed-retire, with-retire,
}

-- The task is in no place from which it could be run.
abbrev pub Nowhere : Config → Text → Keyspace → Type 0
Nowhere c j k = (w : Text) → queued c j k + delayed c j k + with_worker c j k w ≡ 0

-- The task stands at most once on the active list, in the schedule and with any two workers taken
-- together, and nowhere if its data is not stored.
pub record Exclusive (c : Config) (j : Text) (k : Keyspace) : Type 0 where
  pub alone :
      (v w : Text)
      → v ≢ w
      → queued c j k + delayed c j k + with_worker c j k v + with_worker c j k w ≤ 1
  pub fresh : lookup j (k.hash (job_data_hash c)) ≡ none → Nowhere c j k

pub Alike-Exclusive :
    (c : Config) (j : Text) {k k' : Keyspace} → Alike c k k' → Exclusive c j k → Exclusive c j k'
unfolding queued delayed with_worker
Alike-Exclusive c j a p = record {
  alone = λ v w n.
      rw (a.same_active, a.same_scheduled, a.same_inflight v, a.same_inflight w) (p.alone v w n);
  fresh = λ e w.
      rw (a.same_active, a.same_scheduled, a.same_inflight w)
        (p.fresh (sym (ap (lookup j) a.same_data) ∙ e) w);
}

-- There is always another worker's name.
pub other-ne : (w : Text) → 0 ∷ w ≢ w
other-ne w e = let sizes = ap length e in absurd (omega (arith, sizes))

module _ (R : Redis) (c : Config) (j : Text) where
  open R use {Db, keyspace}

  abbrev pub P : Db → Type 0
  P d = Exclusive c j (keyspace d)

  -- The counts of a state in short.
  abbrev pub rest : Db → ℕ
  rest d = queued c j (keyspace d) + delayed c j (keyspace d)

  abbrev pub load : Db → Text → ℕ
  load d w = with_worker c j (keyspace d) w

  pub unstored :
      (d e : Db)
      → (keyspace e).hash ≡ (keyspace d).hash
      → lookup j ((keyspace e).hash (job_data_hash c)) ≡ none
      → lookup j ((keyspace d).hash (job_data_hash c)) ≡ none
  unstored d e same h = sym (ap (λ f. lookup j (f (job_data_hash c))) same) ∙ h

  pub rebuilt :
      (d e : Db)
      → (lookup j ((keyspace e).hash (job_data_hash c)) ≡ none
          → lookup j ((keyspace d).hash (job_data_hash c)) ≡ none)
      → ((v w : Text) → v ≢ w → rest e + load e v + load e w ≤ 1)
      → (Nowhere c j (keyspace d) → Nowhere c j (keyspace e))
      → P d
      → P e
  rebuilt d e same alone nowhere p = record {
    alone = alone;
    fresh = λ h. nowhere (p.fresh (same h));
  }

  -- Nothing was added.
  pub less :
      (d e : Db)
      → (keyspace e).hash ≡ (keyspace d).hash
      → rest e ≤ rest d
      → ((w : Text) → load e w ≤ load d w)
      → P d
      → P e
  less d e same r l p =
      rebuilt d e (unstored d e same) (λ v w n. omega (arith, r, l v, l w, p.alone v w n))
        (λ h w. omega (arith, r, l w, h w)) p
