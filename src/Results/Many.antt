-- ===== src/Results/Many.antt =====
-- The loop of lua/handle_results.lua over tasks that the worker holds.
use apalis_redis.Prelude.{
  ℕ, suc, ◌+◌, ◌≡◌, refl, ◌≢◌, sym, ◌∙◌, ap, Bool, true, false, List, [], ◌∷◌, ◌++◌, Text, bytes,
  if◌then◌else◌, length, arith, Bool-cases, inl, inr,
}
use apalis_redis.Prelude.Assoc.{insert_all, add_all, add, remove}
use apalis_redis.Redis.{Redis, put, put-ne, put_self}
use apalis_redis.Results.{Ack, equals, handle_results_lua}
use apalis_redis.Results.Steps.{
  Held, remove_all, done_ids, dead_ids, retries, settled, rescheduled, one, handle_result-held,
  one-set, one-zset,
}

module _ (inflight done dead : Text) (i-d : inflight ≢ done) (i-x : inflight ≢ dead)
    (d-x : done ≢ dead) (s : Text → List Text) (r : List Text) where
  settled-inflight :
      (x y : Bool) (id : Text) → settled inflight done dead x y id (put s inflight r) inflight ≡ r
  unfolding settled
  settled-inflight true y id = put-ne _ done _ inflight (λ e. i-d (sym e)) ∙ put_self s inflight r
  settled-inflight false true id = put_self s inflight r
  settled-inflight false false id =
      put-ne _ dead _ inflight (λ e. i-x (sym e)) ∙ put_self s inflight r

  settled-done :
      (x y : Bool) (id : Text)
      → settled inflight done dead x y id (put s inflight r) done
        ≡ (if x then add id (s done) else s done)
  unfolding settled
  settled-done true y id = put_self _ done _ ∙ ap (add id) (put-ne s inflight r done i-d)
  settled-done false true id = put-ne s inflight r done i-d
  settled-done false false id =
      put-ne _ dead _ done (λ e. d-x (sym e)) ∙ put-ne s inflight r done i-d

  settled-dead :
      (x y : Bool) (id : Text)
      → settled inflight done dead x y id (put s inflight r) dead
        ≡ (if x then s dead else if y then s dead else add id (s dead))
  unfolding settled
  settled-dead true y id = put-ne _ done _ dead d-x ∙ put-ne s inflight r dead i-x
  settled-dead false true id = put-ne s inflight r dead i-x
  settled-dead false false id = put_self _ dead _ ∙ ap (add id) (put-ne s inflight r dead i-x)

module _ (R : Redis) (inflight done dead scheduled meta : Text) (emit : Bool) where
  open R use {Db, keyspace}

  abbrev step : Ack → Db → Db
  step a d = one R inflight done dead scheduled meta emit a d

  -- The state once all of some tasks are dealt with.
  abbrev pub many : List Ack → Db → Db
  many [] d = d
  many (a ∷ acks) d = many acks (step a d)

  module _ (i-d : inflight ≢ done) (i-x : inflight ≢ dead) (d-x : done ≢ dead) where
    step-inflight :
        (a : Ack) (d : Db)
        → (keyspace (step a d)).set inflight ≡ remove a.task_id ((keyspace d).set inflight)
    step-inflight a d =
        ap (λ s. s inflight) (one-set R inflight done dead scheduled meta emit a d)
        ∙ settled-inflight inflight done dead i-d i-x d-x (keyspace d).set _ _ _ a.task_id

    pub many-inflight :
        (acks : List Ack) (d : Db)
        → (keyspace (many acks d)).set inflight ≡ remove_all acks ((keyspace d).set inflight)
    unfolding remove_all
    many-inflight [] d = refl
    many-inflight (a ∷ acks) d =
        many-inflight acks (step a d) ∙ ap (remove_all acks) (step-inflight a d)

    pub many-done :
        (acks : List Ack) (d : Db)
        → (keyspace (many acks d)).set done ≡ add_all (done_ids acks) ((keyspace d).set done)
    unfolding done_ids add_all
    many-done [] d = refl
    many-done (a ∷ acks) d =
        let first =
          ap (λ s. s done) (one-set R inflight done dead scheduled meta emit a d)
          ∙ settled-done inflight done dead i-d i-x d-x (keyspace d).set _ _ _ a.task_id in
        many-done acks (step a d)
        ∙ ap (add_all (done_ids acks)) first
        ∙ elim (Bool-cases (equals a.status (bytes "Done"))) [ inl e ↦ rw e | inr e ↦ rw e ]

    pub many-dead :
        (acks : List Ack) (d : Db)
        → (keyspace (many acks d)).set dead ≡ add_all (dead_ids acks) ((keyspace d).set dead)
    unfolding dead_ids add_all
    many-dead [] d = refl
    many-dead (a ∷ acks) d =
        let first =
          ap (λ s. s dead) (one-set R inflight done dead scheduled meta emit a d)
          ∙ settled-dead inflight done dead i-d i-x d-x (keyspace d).set _ _ _ a.task_id in
        many-dead acks (step a d) ∙ ap (add_all (dead_ids acks)) first ∙ ground arith

    pub many-zset :
        (acks : List Ack) (d : Db)
        → (keyspace (many acks d)).zset scheduled
          ≡ insert_all (retries acks) ((keyspace d).zset scheduled)
    unfolding retries insert_all rescheduled
    many-zset [] d = refl
    many-zset (a ∷ acks) d =
        many-zset acks (step a d)
        ∙ ap (insert_all (retries acks)) (one-zset R inflight done dead scheduled meta emit a d)
        ∙ ground arith

    -- The loop over tasks that are held, and then over others.
    pub loop-append :
        (acks rest : List Ack) (n : ℕ) (d : Db)
        → Held ((keyspace d).set inflight) acks
        → handle_results_lua R inflight done dead scheduled meta emit (acks ++ rest) n d
          ≡ handle_results_lua R inflight done dead scheduled meta emit rest
              (n + length acks)
              (many acks d)
    unfolding handle_results_lua
    loop-append [] rest n d h =
        ap (λ k. handle_results_lua R inflight done dead scheduled meta emit rest k d) (omega arith)
    loop-append (a ∷ acks) rest n d h =
        rw (handle_result-held R inflight done dead scheduled meta emit a d h.0) (
          loop-append acks rest (suc n) (step a d) (rw (step-inflight a d) h.1)
          ∙ ap
              (λ k.
                handle_results_lua R inflight done dead scheduled meta emit rest k
                  (many acks (step a d)))
              (omega arith))
