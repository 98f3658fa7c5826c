-- ===== src/Tracking/Keeps.antt =====
-- Predicates on the server's state that a computation keeps, whether it succeeds or fails.
use apalis_redis.Prelude.{Bool, true, false, Option, none, some, if◌then◌else◌}
use apalis_redis.Script.{
  Result, ok, err, Action, Lua, ScriptError, pure, raise, next, when, fail_if, require, unwrap,
  received, invoke,
}

pub record Keeps {D E A : Type 0} (P : D → Type 0) (m : Action D E A) : Type 0 where
  pub keep : (d : D) → P d → P (m d).1

module _ {D : Type 0} (P : D → Type 0) where
  -- What follows a step that has kept the predicate.
  pub next-keep :
      {E A B : Type 0} (x : Result E A × D) (f : A → Action D E B)
      → P x.1
      → ((a : A) (d : D) → P d → P (f a d).1)
      → P (next x f).1
  next-keep (ok a, d) f p h = h a d p
  next-keep (err e, d) f p h = p

  -- What follows a step after which more is known.
  pub next-through :
      {E A B : Type 0} (Q : D → Type 0) (x : Result E A × D) (f : A → Action D E B)
      → ((d : D) → Q d → P d)
      → Q x.1
      → ((a : A) (d : D) → Q d → P (f a d).1)
      → P (next x f).1
  next-through Q (ok a, d) f sub q h = h a d q
  next-through Q (err e, d) f sub q h = sub d q

  -- What follows a step that keeps the predicate.
  pub after :
      {E A B : Type 0} {m : Action D E A} {d : D} (f : A → Action D E B)
      → Keeps P m
      → P d
      → ((a : A) (d : D) → P d → P (f a d).1)
      → P (next (m d) f).1
  after {m = m} {d = d} f hm p h = next-keep (m d) f (hm.keep d p) h

  pub when-Keeps :
      {E : Type 0} {m : Action D E (Unit {0})} (b : Bool) → Keeps P m → Keeps P (when b m)
  when-Keeps true h = record { keep = λ d p. h.keep d p }
  when-Keeps false h = record { keep = λ d p. p }

  pub fail_if-Keeps : {E : Type 0} (b : Bool) (e : E) → Keeps P (fail_if b e)
  fail_if-Keeps true e = record { keep = λ d p. p }
  fail_if-Keeps false e = record { keep = λ d p. p }

  pub require-Keeps : {A : Type 0} (o : Option A) (e : ScriptError) → Keeps P (require o e)
  require-Keeps none e = record { keep = λ d p. p }
  require-Keeps (some a) e = record { keep = λ d p. p }

  pub unwrap-Keeps : {A : Type 0} (o : Option A) → Keeps P (unwrap o)
  unwrap-Keeps none = record { keep = λ d p. p }
  unwrap-Keeps (some a) = record { keep = λ d p. p }

  received-keep : {A : Type 0} (x : Result ScriptError A × D) → P x.1 → P (received x).1
  received-keep (ok a, d) p = p
  received-keep (err e, d) p = p

  pub invoke-Keeps : {A : Type 0} {m : Lua D A} → Keeps P m → Keeps P (invoke m)
  invoke-Keeps {m = m} h = record { keep = λ d p. received-keep (m d) (h.keep d p) }

  -- A value that the code has, or its error.
  pub found-Keeps :
      {E A : Type 0} (o : Option A) (e : E)
      → Keeps P (elim o as (λ _. Action D E A) [ none ↦ raise e | some a ↦ pure a ])
  found-Keeps none e = record { keep = λ d p. p }
  found-Keeps (some a) e = record { keep = λ d p. p }

  pub if-keep : {X : Type 0} (b : Bool) (x y : X × D) → P x.1 → P y.1 → P (if b then x else y).1
  if-keep true x y p q = p
  if-keep false x y p q = q
