-- ===== src/Lease/Release.antt =====
-- Releasing leases: what a worker gives up goes to the end of the active list, once each.
use apalis_redis.Prelude.{
  ℕ, suc, ◌+◌, ◌≡◌, refl, ◌≢◌, inl, inr, sym, ◌∙◌, ap, Bool, true, false, ◌&&◌, not, some, ltb,
  List, [], ◌∷◌, ◌++◌, Text, bytes, length, arith, Bool-cases, if◌then◌else◌, append_assoc,
  append-nil,
}
use apalis_redis.Prelude.Assoc.{contains, remove, contains-remove}
use apalis_redis.Redis.{Redis, put-ne}
use apalis_redis.Redis.Laws.{effects}
use apalis_redis.Script.{ok}
use apalis_redis.Config.{Config, inflight_set_for, job_meta_hash, active_jobs_list, signal_list}
use apalis_redis.Config.Keys.{signal-ne-active, signal-ne-inflight}
use apalis_redis.Signal.{signal_if, signal_if-ok, signal_if-signal, signal_if-list, signal_if-set}
use apalis_redis.Task.{RedisTask, WorkerContext}
use apalis_redis.Lease.{
  task_ids, reset, release_each, release_jobs, release_leases_lua, release_leases,
}

-- The tasks of a list that are in a set, in the list's order and each once.
pub held_of : List Text → List Text → List Text
held_of s [] = []
held_of s (id ∷ ids) =
    let rest = held_of (remove id s) ids in if contains id s then id ∷ rest else rest

module _ (R : Redis) where
  open R use {Db, keyspace}

  reset-ok :
      (active meta : Text) (emit : Bool) (id : Text) (d : Db)
      → reset R active meta emit id d ≡ (ok tt, (reset R active meta emit id d).1)
  unfolding reset
  reset-ok active meta true id d = refl
  reset-ok active meta false id d = refl

  reset-list :
      (active meta : Text) (emit : Bool) (id : Text) (d : Db)
      → (keyspace (reset R active meta emit id d).1).list ≡ (keyspace d).list
  unfolding reset
  reset-list active meta true id d = simp effects
  reset-list active meta false id d = simp effects

  reset-set :
      (active meta : Text) (emit : Bool) (id : Text) (d : Db)
      → (keyspace (reset R active meta emit id d).1).set ≡ (keyspace d).set
  unfolding reset
  reset-set active meta true id d = simp effects
  reset-set active meta false id d = simp effects

  module _ (inflight active meta : Text) (emit : Bool) where
    -- The state once one held task has been released.
    released : Text → Db → Db
    released id d =
        (reset R active meta emit id (R.rpush active (id ∷ []) (R.srem inflight id d).1)).1

    release_each-held :
        (id : Text) (ids : List Text) (n : ℕ) (d : Db)
        → contains id ((keyspace d).set inflight) ≡ true
        → release_each R inflight active meta emit (id ∷ ids) n d
          ≡ release_each R inflight active meta emit ids (suc n) (released id d)
    unfolding release_each released
    release_each-held id ids n d h =
        let one : (R.srem inflight id d).0 ≡ 1 =
          R.srem_reply inflight id d ∙ ap (λ b. if b then 1 else 0) h in
        rw (one, reset-ok active meta emit id (R.rpush active (id ∷ []) (R.srem inflight id d).1))

    release_each-missing :
        (id : Text) (ids : List Text) (n : ℕ) (d : Db)
        → contains id ((keyspace d).set inflight) ≡ false
        → release_each R inflight active meta emit (id ∷ ids) n d
          ≡ release_each R inflight active meta emit ids n (R.srem inflight id d).1
    unfolding release_each
    release_each-missing id ids n d h =
        let zero_removed : (R.srem inflight id d).0 ≡ 0 =
          R.srem_reply inflight id d ∙ ap (λ b. if b then 1 else 0) h in
        rw zero_removed

    released-list :
        (id : Text) (d : Db)
        → (keyspace (released id d)).list active ≡ (keyspace d).list active ++ id ∷ []
    unfolding released
    released-list id d =
        rw (reset-list active meta emit id (R.rpush active (id ∷ []) (R.srem inflight id d).1))
          (simp effects)

    released-set :
        (id : Text) (d : Db)
        → (keyspace (released id d)).set inflight ≡ remove id ((keyspace d).set inflight)
    unfolding released
    released-set id d =
        rw (reset-set active meta emit id (R.rpush active (id ∷ []) (R.srem inflight id d).1))
          (simp effects)

    -- What the loop over the ids returns, and where it leaves them.
    release_each_lem :
        (ids : List Text) (n : ℕ) (d : Db)
        → let (r, d') = release_each R inflight active meta emit ids n d in
          let held = held_of ((keyspace d).set inflight) ids in
          (r ≡ ok (n + length held))
          × ((keyspace d').list active ≡ (keyspace d).list active ++ held)
          × ((j : Text)
              → contains j ((keyspace d').set inflight)
                ≡ (contains j ((keyspace d).set inflight) && not (contains j ids)))
    unfolding release_each held_of contains
    release_each_lem [] n d = (ap ok (omega arith), sym (append-nil _), λ j. ground arith)
    release_each_lem (id ∷ ids) n d =
        let set = (keyspace d).set inflight in
        elim (Bool-cases (contains id set)) [
          | inl h ↦
              let ih = release_each_lem ids (suc n) (released id d) in
              let gone = released-set id d in
              rw (release_each-held id ids n d h, h)
                (
                  rw (ih.0, gone) (ap ok (omega arith)),
                  rw (ih.1, released-list id d, gone)
                      (append_assoc ((keyspace d).list active) (id ∷ [])
                        (held_of (remove id set) ids)),
                  λ j. rw (ih.2 j, gone, contains-remove j id set) (ground arith),
                )
          | inr h ↦
              let ih = release_each_lem ids n (R.srem inflight id d).1 in
              rw (release_each-missing id ids n d h, h)
                (
                  rw ih.0 (simp effects),
                  rw ih.1 (simp effects),
                  λ j. rw (ih.2 j) (simp effects (rw (contains-remove j id set) (ground arith))),
                )
        ]

  -- Another list than the active one is left alone.
  release_each-list :
      (inflight active meta k : Text) (emit : Bool)
      → active ≢ k
      → (ids : List Text) (n : ℕ) (d : Db)
      → (keyspace (release_each R inflight active meta emit ids n d).1).list k ≡ (keyspace d).list k
  unfolding release_each released
  release_each-list inflight active meta k emit ne [] n d = refl
  release_each-list inflight active meta k emit ne (id ∷ ids) n d =
      elim (Bool-cases (contains id ((keyspace d).set inflight))) [
        | inl h ↦
            rw
              (
                release_each-held inflight active meta emit id ids n d h,
                release_each-list inflight active meta k emit ne ids (suc n)
                    (released inflight active meta emit id d),
                reset-list active meta emit id (R.rpush active (id ∷ []) (R.srem inflight id d).1),
              )
              (simp effects (put-ne _ active _ k ne))
        | inr h ↦
            rw
              (
                release_each-missing inflight active meta emit id ids n d h,
                release_each-list inflight active meta k emit ne ids n (R.srem inflight id d).1,
              )
              (simp effects)
      ]

  signalled :
      (inflight active signal meta : Text) (emit : Bool) (ids : List Text) (d : Db) (n : ℕ)
      → (release_jobs R inflight active meta emit ids d).0 ≡ ok n
      → release_leases_lua R inflight active signal meta emit ids d ≡ (
        ok n,
        (signal_if R signal (ltb 0 n) (release_jobs R inflight active meta emit ids d).1).1,
      )
  unfolding release_leases_lua
  signalled inflight active signal meta emit ids d n h =
      let d' = (release_jobs R inflight active meta emit ids d).1 in
      let run : release_jobs R inflight active meta emit ids d ≡ (ok n, d') = ground arith in
      rw (run, signal_if-ok R signal (ltb 0 n) d')

  -- Releasing tasks by name moves those that the worker holds, each once and in the order of the
  -- call, from its inflight set to the end of the active list, returns their number, and raises the
  -- signal if there are any.
  pub release_leases-moves :
      (c : Config) (w : WorkerContext) (tasks : List RedisTask) (id : Text) (ids : List Text)
      (d : Db) (j : Text)
      → task_ids tasks ≡ some (id ∷ ids)
      → let (r, d') = release_leases R c w tasks d in
        let set = (keyspace d).set (inflight_set_for c w.name) in
        let held = held_of set (id ∷ ids) in
        (r ≡ ok (length held))
        × ((keyspace d').list (active_jobs_list c) ≡ (keyspace d).list (active_jobs_list c) ++ held)
        × (contains j ((keyspace d').set (inflight_set_for c w.name))
            ≡ (contains j set && not (contains j (id ∷ ids))))
        × ((keyspace d').list (signal_list c)
            ≡ (if ltb 0 (length held) then bytes "1" ∷ [] else (keyspace d).list (signal_list c)))
  unfolding release_leases release_jobs
  release_leases-moves c w tasks id ids d j e =
      let inflight = inflight_set_for c w.name in
      let active = active_jobs_list c in
      let meta = job_meta_hash c in
      let held = held_of ((keyspace d).set inflight) (id ∷ ids) in
      let moved = release_each_lem inflight active meta c.emit_events (id ∷ ids) 0 d in
      let d' = (release_each R inflight active meta c.emit_events (id ∷ ids) 0 d).1 in
      let raised = ltb 0 (length held) in
      rw
        (
          e,
          signalled inflight active (signal_list c) meta c.emit_events (id ∷ ids) d (length held)
              (moved.0 ∙ ap ok (omega arith)),
        )
        (
          refl,
          signal_if-list R (signal_list c) raised active d' (signal-ne-active c) ∙ moved.1,
          rw (signal_if-set R (signal_list c) raised inflight d' (signal-ne-inflight c w.name))
              (moved.2 j),
          signal_if-signal R (signal_list c) raised d'
              ∙ ap (λ l. if raised then bytes "1" ∷ [] else l)
                  (release_each-list inflight active meta (signal_list c) c.emit_events
                    (λ e. signal-ne-active c (sym e)) (id ∷ ids) 0 d),
        )
