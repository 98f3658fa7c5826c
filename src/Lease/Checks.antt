-- ===== src/Lease/Checks.antt =====
-- The check of an acquisition: that the worker holds the tasks.
use apalis_redis.Prelude.{
  ◌≡◌, refl, ◌⊎◌, inl, inr, sym, ◌∙◌, true, List, [], ◌∷◌, Text, All, Bool-cases,
}
use apalis_redis.Prelude.Assoc.{contains}
use apalis_redis.Redis.{Redis}
use apalis_redis.Script.{ScriptError, not_held, ok, err}
use apalis_redis.Lease.{check_held}

-- Every task of the list is in the set.
abbrev pub AllIn : List Text → List Text → Type 0
AllIn s = All (λ id. contains id s ≡ true)

module _ (R : Redis) where
  open R use {Db, keyspace}

  pub check_held-state :
      (inflight : Text) (ids : List Text) (d : Db) → (check_held R inflight ids d).1 ≡ d
  unfolding check_held
  check_held-state inflight [] d = refl
  check_held-state inflight (id ∷ ids) d = elim (Bool-cases (R.sismember d inflight id)) [
    | inl e ↦ rw e (check_held-state inflight ids d)
    | inr e ↦ rw e
  ]

  pub check_held-ok :
      (inflight : Text) (ids : List Text) (d : Db)
      → AllIn ((keyspace d).set inflight) ids
      → check_held R inflight ids d ≡ (ok tt, d)
  unfolding check_held
  check_held-ok inflight [] d h = refl
  check_held-ok inflight (id ∷ ids) d h =
      rw (R.sismember_lem d inflight id, h.0) (check_held-ok inflight ids d h.1)

  pub AllIn-check_held :
      (inflight : Text) (ids : List Text) (d : Db)
      → (check_held R inflight ids d).0 ≡ ok tt
      → AllIn ((keyspace d).set inflight) ids
  unfolding check_held
  AllIn-check_held inflight [] d h = tt
  AllIn-check_held inflight (id ∷ ids) d h = elim (Bool-cases (R.sismember d inflight id)) [
    | inl e ↦ (sym (R.sismember_lem d inflight id) ∙ e, AllIn-check_held inflight ids d (rw e at h))
    | inr e ↦ cc (rw e at h)
  ]

  -- The check passes, or it fails; it writes nothing.
  pub check_held-cases :
      (inflight : Text) (ids : List Text) (d : Db)
      → ((check_held R inflight ids d ≡ (ok tt, d)) × AllIn ((keyspace d).set inflight) ids)
        ⊎ ((e : ScriptError) × (check_held R inflight ids d ≡ (err e, d)))
  unfolding check_held
  check_held-cases inflight [] d = inl (refl, tt)
  check_held-cases inflight (id ∷ ids) d = elim (Bool-cases (R.sismember d inflight id)) [
    | inl e ↦ rw e (elim (check_held-cases inflight ids d) [
      | inl (r, h) ↦ inl (r, (sym (R.sismember_lem d inflight id) ∙ e, h))
      | inr q ↦ inr q
    ])
    | inr e ↦ rw e (inr (not_held id, refl))
  ]
