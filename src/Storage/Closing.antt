-- ===== src/Storage/Closing.antt =====
-- What closing a storage does to the set of workers.
use apalis_redis.Prelude.{
  ℕ, ◌≡◌, ◌≢◌, refl, ◌∙◌, ap, arith, Bool, true, false, Option, none, some, [], ◌∷◌, ◌++◌, Text,
  bytes, length, length-append, text_dec, if_neg, if◌then◌else◌,
}
use apalis_redis.Prelude.Assoc.{lookup, erase_all, lookup-erase}
use apalis_redis.Redis.{Redis}
use apalis_redis.Redis.Laws.{effects}
use apalis_redis.Script.{ok, err}
use apalis_redis.Config.{Config, workers_set, inflight_set_for, inflight_jobs_set}
use apalis_redis.Task.{WorkerContext}
use apalis_redis.Storage.{
  Cleanup, unsent, returned, RedisStorage, Polled, pending, ready, poll_cleanup, poll_close,
}

-- A worker is not called as its inflight set.
inflight-ne_worker : (c : Config) (w : Text) → inflight_set_for c w ≢ w
unfolding inflight_set_for
inflight-ne_worker c w e =
    omega (arith, ap length e, length-append (inflight_jobs_set c) (bytes ":" ++ w))

module _ (R : Redis) (w : WorkerContext) (replied : Bool) where
  open R use {Db, keyspace}

  -- When the worker was last heard of.
  abbrev pub score : Config → Db → Option ℕ
  score c d = lookup w.name ((keyspace d).zset (workers_set c))

  zrem-score :
      (c : Config) (d : Db)
      → score c (R.zrem (workers_set c) (inflight_set_for c w.name ∷ []) d) ≡ score c d
  unfolding erase_all
  zrem-score c d = simp effects (
      lookup-erase w.name (inflight_set_for c w.name) ((keyspace d).zset (workers_set c))
      ∙ if_neg (text_dec (inflight_set_for c w.name) w.name) (inflight-ne_worker c w.name) _ _)

  either :
      (b : Bool) (c : Config) (x y : Polled × RedisStorage × Db) (n : Option ℕ)
      → score c x.2 ≡ n
      → score c y.2 ≡ n
      → score c (if b then x else y).2 ≡ n
  either true c x y n h k = h
  either false c x y n h k = k

  poll_cleanup-score :
      (f : Cleanup) (s : RedisStorage) (d : Db)
      → score s.config (poll_cleanup R w replied f s d).2 ≡ score s.config d
  unfolding poll_cleanup
  poll_cleanup-score returned s d = refl
  poll_cleanup-score unsent s d = either replied s.config _ _ _ (zrem-score s.config d) refl

  closed-score :
      (o : Option Cleanup) (p : Polled) (c : Config) (d : Db)
      → score c (poll_close R w p replied (record { config = c; cleanup = o }) d).2 ≡ score c d
  unfolding poll_close
  closed-score (some f) p c d = poll_cleanup-score f _ d
  closed-score none pending c d = refl
  closed-score none (ready (err e)) c d = refl
  closed-score none (ready (ok u)) c d = poll_cleanup-score unsent _ d

  -- Closing a storage does not take its worker from the set of workers, at any poll and whatever the
  -- tasks' own closing returns: the worker stays registered, with the time that it was last heard of.
  pub poll_close-score :
      (p : Polled) (s : RedisStorage) (d : Db)
      → score s.config (poll_close R w p replied s d).2 ≡ score s.config d
  poll_close-score p s d = closed-score s.cleanup p s.config d
