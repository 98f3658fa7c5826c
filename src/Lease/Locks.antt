-- ===== src/Lease/Locks.antt =====
-- What locking tasks changes.
use apalis_redis.Prelude.{
  ℕ, ◌≡◌, refl, Bool, true, false, some, List, [], ◌∷◌, Text, bytes, text_dec, arith, if◌then◌else◌,
}
use apalis_redis.Prelude.Assoc.{
  lookup, contains, lookup-insert, insert_all, add, add_all, contains-add,
}
use apalis_redis.Prelude.Decimal.{decimal}
use apalis_redis.Redis.{Redis, put}
use apalis_redis.Redis.Laws.{effects}
use apalis_redis.Script.{ok}
use apalis_redis.Lease.{meta_key, put-meta, lock, lock_all}
use apalis_redis.Lease.Checks.{AllIn}

-- What a lease writes to a task's metadata.
abbrev pub lease_fields : Text → ℕ → List (Text × Text)
lease_fields worker now =
    (bytes "locked_at", decimal now)
    ∷ (bytes "locked_by", worker)
    ∷ (bytes "status", bytes "Running")
    ∷ []

module _ (worker : Text) (now : ℕ) (m : List (Text × Text)) where
  pub lease_status :
      lookup (bytes "status") (insert_all (lease_fields worker now) m) ≡ some (bytes "Running")
  unfolding insert_all text_dec
  lease_status = simp lookup-insert

  pub lease_worker :
      lookup (bytes "locked_by") (insert_all (lease_fields worker now) m) ≡ some worker
  unfolding insert_all text_dec
  lease_worker = simp lookup-insert

  pub lease_time :
      lookup (bytes "locked_at") (insert_all (lease_fields worker now) m) ≡ some (decimal now)
  unfolding insert_all text_dec
  lease_time = simp lookup-insert

pub AllIn-add : (s : List Text) (k : Text) (ids : List Text) → AllIn s ids → AllIn (add k s) ids
AllIn-add s k [] h = tt
AllIn-add s k (id ∷ ids) h = (ground (arith, contains-add id k s, h.0), AllIn-add s k ids h.1)

module _ (R : Redis) where
  open R use {Db, keyspace}

  pub lock-ok :
      (inflight meta active worker : Text) (now : ℕ) (emit : Bool) (id : Text) (d : Db)
      → lock R inflight meta active worker now emit id d
        ≡ (ok tt, (lock R inflight meta active worker now emit id d).1)
  unfolding lock
  lock-ok inflight meta active worker now true id d = refl
  lock-ok inflight meta active worker now false id d = refl

  pub lock_all-ok :
      (inflight meta active worker : Text) (now : ℕ) (emit : Bool) (ids : List Text) (d : Db)
      → lock_all R inflight meta active worker now emit ids d
        ≡ (ok tt, (lock_all R inflight meta active worker now emit ids d).1)
  unfolding lock_all
  lock_all-ok inflight meta active worker now emit [] d = refl
  lock_all-ok inflight meta active worker now emit (id ∷ ids) d =
      rw (lock-ok inflight meta active worker now emit id d)
        (lock_all-ok inflight meta active worker now emit ids _)

  lock-hash :
      (inflight meta active worker : Text) (now : ℕ) (emit : Bool) (id j : Text) (d : Db)
      → (keyspace (lock R inflight meta active worker now emit id d).1).hash (meta_key meta j)
        ≡ put
            (keyspace d).hash
            (meta_key meta id)
            (insert_all (lease_fields worker now) ((keyspace d).hash (meta_key meta id)))
            (meta_key meta j)
  unfolding lock
  lock-hash inflight meta active worker now true id j d = simp effects
  lock-hash inflight meta active worker now false id j d = simp effects

  pub lock-set :
      (inflight meta active worker : Text) (now : ℕ) (emit : Bool) (id : Text) (d : Db)
      → (keyspace (lock R inflight meta active worker now emit id d).1).set inflight
        ≡ add id ((keyspace d).set inflight)
  unfolding lock add_all
  lock-set inflight meta active worker now true id d = simp effects
  lock-set inflight meta active worker now false id d = simp effects

  module _ (inflight meta active worker : Text) (now : ℕ) (emit : Bool) where
    pub lock_all-lookup :
        (f v j : Text)
        → ((m : List (Text × Text)) → lookup f (insert_all (lease_fields worker now) m) ≡ some v)
        → (ids : List Text) (d : Db)
        → lookup f (
            (keyspace (lock_all R inflight meta active worker now emit ids d).1).hash
              (meta_key meta j))
          ≡ (if contains j ids then some v else lookup f ((keyspace d).hash (meta_key meta j)))
    unfolding lock_all contains
    lock_all-lookup f v j hv [] d = refl
    lock_all-lookup f v j hv (id ∷ ids) d =
        let d' = (lock R inflight meta active worker now emit id d).1 in
        rw
          (
            lock-ok inflight meta active worker now emit id d,
            lock_all-lookup f v j hv ids d',
            lock-hash inflight meta active worker now emit id j d,
          )
          (ground (
            arith,
            put-meta (keyspace d).hash meta id j
                (insert_all (lease_fields worker now) ((keyspace d).hash (meta_key meta id))),
            hv ((keyspace d).hash (meta_key meta id)),
          ))

    pub lock_all-set :
        (j : Text) (ids : List Text) (d : Db)
        → AllIn ((keyspace d).set inflight) ids
        → contains j
            ((keyspace (lock_all R inflight meta active worker now emit ids d).1).set inflight)
          ≡ contains j ((keyspace d).set inflight)
    unfolding lock_all
    lock_all-set j [] d h = refl
    lock_all-set j (id ∷ ids) d h =
        let d' = (lock R inflight meta active worker now emit id d).1 in
        let same = lock-set inflight meta active worker now emit id d in
        rw
          (
            lock-ok inflight meta active worker now emit id d,
            lock_all-set j ids d' (rw same (AllIn-add ((keyspace d).set inflight) id ids h.1)),
            same,
          )
          (ground (arith, contains-add j id ((keyspace d).set inflight), h.0))
