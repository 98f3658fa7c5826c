-- ===== src/Results/Steps.antt =====
-- The steps of lua/handle_results.lua for one task and for the list.
use apalis_redis.Prelude.{
  ℕ, ◌+◌, ◌≡◌, refl, Bool, true, false, List, [], ◌∷◌, Text, bytes, if◌then◌else◌,
}
use apalis_redis.Prelude.Assoc.{contains, add_all, add, remove, insert}
use apalis_redis.Prelude.Decimal.{decimal}
use apalis_redis.Redis.{Redis, put}
use apalis_redis.Lease.{meta_key}
use apalis_redis.Redis.Laws.{effects}
use apalis_redis.Script.{ok, err, not_executed}
use apalis_redis.Results.{Ack, equals, retried, settle, handle_result}

-- The tasks that go to the done set, those that are scheduled again, each with its time, and those
-- that go to the dead set.
unfoldable pub done_ids : List Ack → List Text
done_ids [] = []
done_ids (a ∷ acks) =
    if equals a.status (bytes "Done") then a.task_id ∷ done_ids acks else done_ids acks

unfoldable pub retries : List Ack → List (Text × ℕ)
retries [] = []
retries (a ∷ acks) =
    if equals a.status (bytes "Done")
    then retries acks
    else if retried a
    then (a.task_id, a.timestamp + a.attempt) ∷ retries acks
    else retries acks

unfoldable pub dead_ids : List Ack → List Text
dead_ids [] = []
dead_ids (a ∷ acks) =
    if equals a.status (bytes "Done")
    then dead_ids acks
    else if retried a
    then dead_ids acks
    else a.task_id ∷ dead_ids acks

unfoldable pub remove_all : List Ack → List Text → List Text
remove_all [] s = s
remove_all (a ∷ acks) s = remove_all acks (remove a.task_id s)

-- Each task is in the set when its turn comes: the worker holds them all, and none is listed twice.
abbrev pub Held : List Text → List Ack → Type 0
Held s [] = Unit
Held s (a ∷ acks) = (contains a.task_id s ≡ true) × Held (remove a.task_id s) acks

module _ (inflight done dead : Text) where
  -- The sets once a task is settled, by the branch that it takes.
  unfoldable pub settled : Bool → Bool → Text → (Text → List Text) → Text → List Text
  settled true y id s = put s done (add id (s done))
  settled false true id s = s
  settled false false id s = put s dead (add id (s dead))

  abbrev pub settled_one : Ack → (Text → List Text) → Text → List Text
  settled_one a s =
      settled (equals a.status (bytes "Done")) (retried a) a.task_id
        (put s inflight (remove a.task_id (s inflight)))

-- The scheduled set once a task is settled.
unfoldable pub rescheduled : Bool → Bool → Ack → List (Text × ℕ) → List (Text × ℕ)
rescheduled true y a z = z
rescheduled false true a z = insert a.task_id (a.timestamp + a.attempt) z
rescheduled false false a z = z

module _ (R : Redis) (inflight done dead scheduled meta : Text) where
  open R use {Db, keyspace}

  abbrev settling : Bool → Ack → Bool → Bool → Db → Db
  settling emit a x y d = (settle R done dead scheduled emit a x y d).1

  settle-ok :
      (emit : Bool) (a : Ack) (x y : Bool) (d : Db)
      → settle R done dead scheduled emit a x y d ≡ (ok tt, settling emit a x y d)
  unfolding settle
  settle-ok true a true y d = refl
  settle-ok true a false true d = refl
  settle-ok true a false false d = refl
  settle-ok false a true y d = refl
  settle-ok false a false true d = refl
  settle-ok false a false false d = refl

  settle-set :
      (emit : Bool) (a : Ack) (x y : Bool) (d : Db)
      → (keyspace (settling emit a x y d)).set
        ≡ settled inflight done dead x y a.task_id (keyspace d).set
  unfolding settle settled add_all
  settle-set true a true y d = simp effects
  settle-set true a false true d = simp effects
  settle-set true a false false d = simp effects
  settle-set false a true y d = simp effects
  settle-set false a false true d = simp effects
  settle-set false a false false d = simp effects

  settle-zset :
      (emit : Bool) (a : Ack) (x y : Bool) (d : Db)
      → (keyspace (settling emit a x y d)).zset scheduled
        ≡ rescheduled x y a ((keyspace d).zset scheduled)
  unfolding settle rescheduled
  settle-zset true a true y d = simp effects
  settle-zset true a false true d = simp effects
  settle-zset true a false false d = simp effects
  settle-zset false a true y d = simp effects
  settle-zset false a false true d = simp effects
  settle-zset false a false false d = simp effects

  module _ (emit : Bool) where
    -- The state once a task is dealt with.
    abbrev pub one : Ack → Db → Db
    one a d =
        R.hset (meta_key meta a.task_id)
          ((bytes "result", a.result_data)
            ∷ (bytes "status", a.status)
            ∷ (bytes "attempts", decimal a.attempt)
            ∷ (bytes "done_at", decimal a.timestamp)
            ∷ [])
          (settling emit a (equals a.status (bytes "Done")) (retried a)
            (R.srem inflight a.task_id d).1)

    pub handle_result-held :
        (a : Ack) (d : Db)
        → contains a.task_id ((keyspace d).set inflight) ≡ true
        → handle_result R inflight done dead scheduled meta emit a d ≡ (ok tt, one a d)
    unfolding handle_result
    handle_result-held a d h = rw (
      R.srem_reply inflight a.task_id d,
      h,
      settle-ok emit a (equals a.status (bytes "Done")) (retried a) (R.srem inflight a.task_id d).1,
    )

    pub handle_result-not_held :
        (a : Ack) (d : Db)
        → contains a.task_id ((keyspace d).set inflight) ≡ false
        → handle_result R inflight done dead scheduled meta emit a d
          ≡ (err not_executed, (R.srem inflight a.task_id d).1)
    unfolding handle_result
    handle_result-not_held a d h = rw (R.srem_reply inflight a.task_id d, h)

    pub one-set :
        (a : Ack) (d : Db)
        → (keyspace (one a d)).set ≡ settled_one inflight done dead a (keyspace d).set
    one-set a d =
        let x = equals a.status (bytes "Done") in
        simp effects
          (rw (settle-set emit a x (retried a) (R.srem inflight a.task_id d).1) (simp effects))

    pub one-zset :
        (a : Ack) (d : Db)
        → (keyspace (one a d)).zset scheduled
          ≡ rescheduled (equals a.status (bytes "Done")) (retried a) a ((keyspace d).zset scheduled)
    one-zset a d =
        let x = equals a.status (bytes "Done") in
        simp effects
          (rw (settle-zset emit a x (retried a) (R.srem inflight a.task_id d).1) (simp effects))
