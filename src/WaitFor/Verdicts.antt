-- ===== src/WaitFor/Verdicts.antt =====
-- What the fields of a task come to.
use apalis_redis.Prelude.{
  ℕ, arith, ◌≡◌, ◌≢◌, refl, Bool, true, false, ◌&&◌, Option, none, some, List, [], ◌∷◌, Text,
  text_dec, if_pos, if◌then◌else◌,
}
use apalis_redis.Prelude.Assoc.{contains}
use apalis_redis.Script.{Result, ok, err, Failure, error, database, unparsable}
use apalis_redis.Reply.{Core, is_utf8}
use apalis_redis.WaitFor.{Reader, TaskResult, reported, completed, judged, verdict, parsed}

abbrev pub present : Option Text → Bool
present none = false
present (some t) = true

module _ {Res : Type 0} (core : Core) (reader : Reader Res) where
  -- The ids among `s` are printed task ids, which read back as themselves.
  abbrev pub Printed : List Text → Type 0
  Printed s = (id : Text) → contains id s ≡ true → core.task_id_from_str id ≡ some id

  parsed-cons :
      (t : Text) (s : List Text) (o : Option Text) (os : Option (List Text))
      → o ≡ some t
      → os ≡ some s
      → (elim o as (λ _. Option (List Text)) [
        | none ↦ none
        | some id ↦ elim os [ none ↦ none | some ids ↦ some (id ∷ ids) ]
      ])
        ≡ some (t ∷ s)
  parsed-cons t s o os e f = rw (e, f) refl

  pub parsed-Printed : (s : List Text) → Printed s → parsed core s ≡ some s
  unfolding parsed contains
  parsed-Printed [] h = refl
  parsed-Printed (t ∷ s) h =
      parsed-cons t s (core.task_id_from_str t) (parsed core s)
        (h t (if_pos (text_dec t t) refl true (contains t s)))
        (parsed-Printed s (λ id g. h id (ground arith)))

  reported-some :
      (id s : Text) (n : ℕ) (o : Option Res) (i : Option Text) (r : TaskResult Res)
      → i ≡ some id
      → reported core reader s n o i ≡ ok (some r)
      → r.task_id ≡ id
  unfolding reported
  reported-some id s n none i r p e = cc
  reported-some id s n (some a) none r p e = cc
  reported-some id s n (some a) (some i) r p e = cc

  completed-some :
      (id s : Text) (result : Option Text) (a : Result Failure ℕ) (r : TaskResult Res)
      → core.task_id_from_str id ≡ some id
      → completed core reader id s result a ≡ ok (some r)
      → (r.task_id ≡ id) × (present result ≡ true)
  unfolding completed
  completed-some id s result (err f) r p e = cc
  completed-some id s none (ok n) r p e = cc
  completed-some id s (some t) (ok n) r p e =
      (reported-some id s n (reader.from_slice t) (core.task_id_from_str id) r p e, refl)

  reported-none :
      (s : Text) (n : ℕ) (o : Option Res) (i : Option Text) → reported core reader s n o i ≢ ok none
  unfolding reported
  reported-none s n none i e = cc
  reported-none s n (some a) none e = cc
  reported-none s n (some a) (some i) e = cc

  completed-none :
      (id s : Text) (result : Option Text) (a : Result Failure ℕ)
      → completed core reader id s result a ≡ ok none
      → present result ≡ false
  unfolding completed
  completed-none id s result (err f) e = cc
  completed-none id s none (ok n) e = refl
  completed-none id s (some t) (ok n) e = absurd (reported-none s n _ _ e)

  judged-some :
      (id : Text) (b : Bool) (o result attempts : Option Text) (r : TaskResult Res)
      → core.task_id_from_str id ≡ some id
      → (if b then judged core reader id o result attempts else err (error (database unparsable)))
        ≡ ok (some r)
      → (r.task_id ≡ id) × (present result ≡ true)
  unfolding judged
  judged-some id false o result attempts r p e = cc
  judged-some id true none result attempts r p e = cc
  judged-some id true (some s) result attempts r p e = completed-some id s result _ r p e

  judged-none :
      (id : Text) (b : Bool) (o result attempts : Option Text)
      → (if b then judged core reader id o result attempts else err (error (database unparsable)))
        ≡ ok none
      → present result ≡ false
  unfolding judged
  judged-none id false o result attempts e = cc
  judged-none id true none result attempts e = cc
  judged-none id true (some s) result attempts e = completed-none id s result _ e

  pub verdict-some :
      (id : Text) (status result attempts : Option Text) (r : TaskResult Res)
      → core.task_id_from_str id ≡ some id
      → verdict core reader id status result attempts ≡ ok (some r)
      → (r.task_id ≡ id) × ((present status && present result) ≡ true)
  unfolding verdict
  verdict-some id none result attempts r p e = cc
  verdict-some id (some s) result attempts r p e =
      judged-some id (is_utf8 s) (core.status_from_str s) result attempts r p e

  pub verdict-none :
      (id : Text) (status result attempts : Option Text)
      → verdict core reader id status result attempts ≡ ok none
      → (present status && present result) ≡ false
  unfolding verdict
  verdict-none id none result attempts e = refl
  verdict-none id (some s) result attempts e =
      judged-none id (is_utf8 s) (core.status_from_str s) result attempts e
