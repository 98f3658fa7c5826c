-- ===== src/Tracking/Moves.antt =====
-- The moves of a task from one place to another.
use apalis_redis.Prelude.{
  ℕ, ◌≡◌, refl, ◌≢◌, ◌⊎◌, inl, inr, sym, ◌∙◌, Bool, true, false, ◌||◌, none, some, List, [], ◌∷◌,
  ◌++◌, Text, text_dec, if_pos, if_neg, arith,
}
use apalis_redis.Prelude.Assoc.{
  lookup, contains, add, add_all, remove, remove_first, insert, contains-add, contains-remove,
  contains-append, lookup-insert,
}
use apalis_redis.Redis.{Redis, put, put-ne, put_self}
use apalis_redis.Redis.Laws.{effects}
use apalis_redis.Config.{
  Config, active_jobs_list, inflight_set_for, done_jobs_set, dead_jobs_set, scheduled_jobs_set,
}
use apalis_redis.Tracking.{Accounted, unstored, waiting, scheduled, held, done, dead}

true_or : (a b : Bool) → a ≡ true → (a || b) ≡ true
true_or a b h = ground arith

or_true : (a b : Bool) → b ≡ true → (a || b) ≡ true
or_true a b h = ground arith

pub contains-append_left :
    (j : Text) (s t : List Text) → contains j s ≡ true → contains j (s ++ t) ≡ true
contains-append_left j s t h = contains-append j s t ∙ true_or _ _ h

pub contains-append_right :
    (j : Text) (s t : List Text) → contains j t ≡ true → contains j (s ++ t) ≡ true
contains-append_right j s t h = contains-append j s t ∙ or_true _ _ h

contains-add_of : (j k : Text) (s : List Text) → contains j s ≡ true → contains j (add k s) ≡ true
contains-add_of j k s h = ground (arith, contains-add j k s)

contains-add_self : (k : Text) (s : List Text) → contains k (add k s) ≡ true
contains-add_self k s = contains-add k k s ∙ if_pos (text_dec k k) refl true (contains k s)

pub contains_one : (id j : Text) → id ≡ j → contains j (id ∷ []) ≡ true
unfolding contains
contains_one id j e = if_pos (text_dec id j) e true false

-- A member of a list is what is removed, or stays.
pub contains-remove_first :
    (j k : Text) (s : List Text)
    → contains j s ≡ true
    → (k ≡ j) ⊎ (contains j (remove_first k s) ≡ true)
unfolding contains remove_first
contains-remove_first j k [] h = cc
contains-remove_first j k (i ∷ s) h = elim (text_dec k j) [
  | yes e ↦ inl e
  | no n ↦ inr (ground (arith, contains-remove_first j k s))
]

contains-remove_cases :
    (j k : Text) (s : List Text) → contains j s ≡ true → (k ≡ j) ⊎ (contains j (remove k s) ≡ true)
contains-remove_cases j k s h = elim (text_dec k j) [
  | yes e ↦ inl e
  | no n ↦ inr (contains-remove j k s ∙ if_neg (text_dec k j) n _ _ ∙ h)
]

contains-add_all_of :
    (j : Text) (ks s : List Text) → contains j s ≡ true → contains j (add_all ks s) ≡ true
unfolding add_all
contains-add_all_of j [] s h = h
contains-add_all_of j (k ∷ ks) s h = contains-add_all_of j ks (add k s) (contains-add_of j k s h)

pub contains-add_all_self :
    (j : Text) (ks s : List Text) → contains j ks ≡ true → contains j (add_all ks s) ≡ true
unfolding add_all contains
contains-add_all_self j [] s h = cc
contains-add_all_self j (k ∷ ks) s h = elim (text_dec k j) [
  | yes e ↦ contains-add_all_of j ks (add k s) (rw e (contains-add_self j s))
  | no n ↦ contains-add_all_self j ks (add k s) (sym (if_neg (text_dec k j) n true _) ∙ h)
]

-- A set that has only grown at one key, or only lost a member there.
module _ (f : Text → List Text) (x j : Text) where
  grown :
      (s : List Text) (k : Text)
      → (contains j (f x) ≡ true → contains j s ≡ true)
      → contains j (f k) ≡ true
      → contains j (put f x s k) ≡ true
  grown s k more h = elim (text_dec x k) [
    | yes e ↦ rw (← e, put_self f x s) (more (rw e h))
    | no n ↦ rw (put-ne f x s k n) h
  ]

  shrunk :
      (id : Text) (k : Text)
      → contains j (f k) ≡ true
      → (id ≡ j) ⊎ (contains j (put f x (remove id (f x)) k) ≡ true)
  shrunk id k h = elim (text_dec x k) [
    | yes e ↦ rw (← e, put_self f x (remove id (f x))) (contains-remove_cases j id (f x) (rw e h))
    | no n ↦ inr (rw (put-ne f x (remove id (f x)) k n) h)
  ]

  kept :
      (id : Text)
      → contains id (f x) ≡ false
      → (k : Text) → contains j (f k) ≡ true
      → contains j (put f x (remove id (f x)) k) ≡ true
  kept id e k h = elim (text_dec x k) [
    | yes q ↦
        rw (← q, put_self f x (remove id (f x)))
          (elim (contains-remove_cases j id (f x) (rw q h)) [ inl i ↦ cc | inr i ↦ i ])
    | no n ↦ rw (put-ne f x (remove id (f x)) k n) h
  ]

insert-ne_none :
    (j k : Text) (n : ℕ) (m : List (Text × ℕ)) → lookup j m ≢ none → lookup j (insert k n m) ≢ none
insert-ne_none j k n m h e = elim (text_dec k j) [
  | yes q ↦ cc (e, lookup-insert j k n m, if_pos (text_dec k j) q (some n) (lookup j m))
  | no q ↦ h (sym (lookup-insert j k n m ∙ if_neg (text_dec k j) q (some n) (lookup j m)) ∙ e)
]

insert-ne_none_self :
    (j k : Text) (n : ℕ) (m : List (Text × ℕ)) → k ≡ j → lookup j (insert k n m) ≢ none
insert-ne_none_self j k n m q e =
    cc (e, lookup-insert j k n m, if_pos (text_dec k j) q (some n) (lookup j m))

module _ (R : Redis) (c : Config) (j : Text) (d : R.Db) where
  open R use {Db, keyspace}

  abbrev Before : Type 0
  Before = Accounted c j (keyspace d)

  abbrev After : Db → Type 0
  After d' = Accounted c j (keyspace d')

  pub rpush-Accounted : (xs : List Text) → Before → After (R.rpush (active_jobs_list c) xs d)
  rpush-Accounted xs (unstored h) = unstored (simp effects h)
  rpush-Accounted xs (waiting h) = waiting (simp effects (contains-append_left j _ xs h))
  rpush-Accounted xs (scheduled h) = scheduled (simp effects h)
  rpush-Accounted xs (held w h) = held w (simp effects h)
  rpush-Accounted xs (done h) = done (simp effects h)
  rpush-Accounted xs (dead h) = dead (simp effects h)

  pub rpush-waiting :
      (xs : List Text) → contains j xs ≡ true → After (R.rpush (active_jobs_list c) xs d)
  rpush-waiting xs h = waiting (simp effects (contains-append_right j _ xs h))

  pub sadd-Accounted : (x : Text) (ms : List Text) → Before → After (R.sadd x ms d)
  sadd-Accounted x ms (unstored h) = unstored (simp effects h)
  sadd-Accounted x ms (waiting h) = waiting (simp effects h)
  sadd-Accounted x ms (scheduled h) = scheduled (simp effects h)
  sadd-Accounted x ms (held w h) =
      held w (simp effects (grown (keyspace d).set x j _ _ (contains-add_all_of j ms _) h))
  sadd-Accounted x ms (done h) =
      done (simp effects (grown (keyspace d).set x j _ _ (contains-add_all_of j ms _) h))
  sadd-Accounted x ms (dead h) =
      dead (simp effects (grown (keyspace d).set x j _ _ (contains-add_all_of j ms _) h))

  contains-sadd :
      (x : Text) (ms : List Text)
      → contains j ms ≡ true
      → contains j ((keyspace (R.sadd x ms d)).set x) ≡ true
  contains-sadd x ms h = simp effects (contains-add_all_self j ms _ h)

  pub sadd-held :
      (w : Text) (ms : List Text)
      → contains j ms ≡ true
      → After (R.sadd (inflight_set_for c w) ms d)
  sadd-held w ms h = held w (contains-sadd (inflight_set_for c w) ms h)

  pub sadd-done : (ms : List Text) → contains j ms ≡ true → After (R.sadd (done_jobs_set c) ms d)
  sadd-done ms h = done (contains-sadd (done_jobs_set c) ms h)

  pub sadd-dead : (ms : List Text) → contains j ms ≡ true → After (R.sadd (dead_jobs_set c) ms d)
  sadd-dead ms h = dead (contains-sadd (dead_jobs_set c) ms h)

  pub zadd-Accounted : (n : ℕ) (id : Text) → Before → After (R.zadd (scheduled_jobs_set c) n id d)
  zadd-Accounted n id (unstored h) = unstored (simp effects h)
  zadd-Accounted n id (waiting h) = waiting (simp effects h)
  zadd-Accounted n id (scheduled h) = scheduled (simp effects (insert-ne_none j id n _ h))
  zadd-Accounted n id (held w h) = held w (simp effects h)
  zadd-Accounted n id (done h) = done (simp effects h)
  zadd-Accounted n id (dead h) = dead (simp effects h)

  pub zadd-scheduled : (n : ℕ) (id : Text) → id ≡ j → After (R.zadd (scheduled_jobs_set c) n id d)
  zadd-scheduled n id e = scheduled (simp effects (insert-ne_none_self j id n _ e))

  pub srem-Accounted : (x id : Text) → Before → (id ≡ j) ⊎ After (R.srem x id d).1
  srem-Accounted x id (unstored h) = inr (unstored (simp effects h))
  srem-Accounted x id (waiting h) = inr (waiting (simp effects h))
  srem-Accounted x id (scheduled h) = inr (scheduled (simp effects h))
  srem-Accounted x id (held w h) = elim (shrunk (keyspace d).set x j id _ h) [
    | inl e ↦ inl e
    | inr q ↦ inr (held w (simp effects q))
  ]
  srem-Accounted x id (done h) = elim (shrunk (keyspace d).set x j id _ h) [
    | inl e ↦ inl e
    | inr q ↦ inr (done (simp effects q))
  ]
  srem-Accounted x id (dead h) = elim (shrunk (keyspace d).set x j id _ h) [
    | inl e ↦ inl e
    | inr q ↦ inr (dead (simp effects q))
  ]

  -- Nothing is lost by removing what is not there.
  pub srem-absent :
      (x id : Text) → contains id ((keyspace d).set x) ≡ false → Before → After (R.srem x id d).1
  srem-absent x id e (unstored h) = unstored (simp effects h)
  srem-absent x id e (waiting h) = waiting (simp effects h)
  srem-absent x id e (scheduled h) = scheduled (simp effects h)
  srem-absent x id e (held w h) = held w (simp effects (kept (keyspace d).set x j id e _ h))
  srem-absent x id e (done h) = done (simp effects (kept (keyspace d).set x j id e _ h))
  srem-absent x id e (dead h) = dead (simp effects (kept (keyspace d).set x j id e _ h))
