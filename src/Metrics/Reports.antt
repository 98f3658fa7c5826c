-- ===== src/Metrics/Reports.antt =====
-- What the reports show, and when they fail.
use apalis_redis.Prelude.{
  ℕ, zero, suc, ◌+◌, ◌-◌, ◌≡◌, refl, sym, ◌∙◌, ap, inl, inr, arith, Option-cases, Option, none,
  some, List, [], ◌∷◌, ◌++◌, Text, bytes, map, length, length-map, ◌≤◌,
}
use apalis_redis.Redis.{Redis}
use apalis_redis.Script.{
  Lua, Result, ScriptError, error, database, raised, ok, err, next, nil_arithmetic, wrong_type,
  nil_argument, received, Query, pure,
}
use apalis_redis.Config.{Config}
use apalis_redis.Metrics.Commands.{Reporting}
use apalis_redis.Metrics.Json.{Doubles, rate, stats_json}
use apalis_redis.Metrics.{
  no_totals, nth, later, first_recent, ask, within, overview_by_queue_lua, tally, tally_all,
  day_rate, overview_lua, fetch_by_queue, list_queues, global, read_stats, members, without,
}

later-first : (o : Option ℕ) → later o 0 ≡ first_recent o
unfolding later first_recent
later-first none = refl
later-first (some n) = ground arith

zero_plus : (n : ℕ) → 0 + n ≡ n
zero_plus n = omega arith

module _ (R : Redis) (C : Reporting R) (N : Doubles) where
  open R use {Db, keyspace}

  -- An ending with an error that has changed nothing.
  abbrev Fails : {A : Type 0} → Result ScriptError A × Db → Db → Type 0
  Fails x d = (e : ScriptError) × (x ≡ (err e, d))

  module _ {A B : Type 0} (f : Db → Text → Option A) (m : A → Lua Db B) {d : Db} where
    ask-Fails : (k : Option Text) → ((a : A) → Fails (m a d) d) → Fails (next (ask R C N f k d) m) d
    ask-Fails none h = (nil_argument, refl)
    ask-Fails (some k) h = elim (Option-cases (f d k)) [
      | inl e ↦ (wrong_type, rw e)
      | inr (a, e) ↦ ((h a).0, rw e ((h a).1))
    ]

    -- Two computations that go on alike from the same reading.
    ask-same :
        {D : Type 0} (g : B → Lua Db D) (n : A → Lua Db D) (k : Text)
        → ((a : A) → f d k ≡ some a → next (m a d) g ≡ n a d)
        → next (next (ask R C N f (some k) d) m) g ≡ next (ask R C N f (some k) d) n
    ask-same g n k h = elim (Option-cases (f d k)) [ inl e ↦ rw e | inr (a, e) ↦ rw e (h a e) ]

  received-Fails :
      {A B : Type 0} (x : Result ScriptError A × Db) (g : A → Query Db B) (d : Db)
      → Fails x d
      → (e : ScriptError) × (next (received x) g ≡ (err (error (database (raised e))), d))
  received-Fails x g d (e, h) = (e, rw h)

  -- The report of one queue can never be fetched: whatever the server holds, the script ends with
  -- an error, which has changed nothing.
  pub fetch_by_queue-fails :
      {A : Type 0} (from_str : Text → Option (List A)) (c : Config) (d : Db)
      → (e : ScriptError) × (fetch_by_queue R C N from_str c d
          ≡ (err (error (database (raised e))), d))
  unfolding fetch_by_queue overview_by_queue_lua
  fetch_by_queue-fails from_str c d = received-Fails _ _ d (
      ask-Fails C.llen _ _ (λ a.
        ask-Fails C.zcard _ _
          (λ b. ask-Fails C.zcard _ _ (λ b. ask-Fails C.scard _ _ (λ b. (nil_arithmetic, refl))))))

  -- The report on all queues is the same whatever the server holds: the one on no queue at all.
  global-blind :
      {A : Type 0} (from_str : Text → Option (List A)) (now : ℕ) (d : Db)
      → global R C N from_str now d
        ≡ read_stats R C N (from_str (stats_json N no_totals (N.of_ℕ 0))) d
  unfolding global overview_lua tally_all day_rate
  global-blind from_str now d = refl

  nth-few : {A : Type 0} (f : A → Text) (s : List A) → length s ≤ 3 → nth (map f s) 3 ≡ none
  unfolding nth
  nth-few f [] h = refl
  nth-few f (a ∷ []) h = refl
  nth-few f (a ∷ (b ∷ [])) h = refl
  nth-few f (a ∷ (b ∷ (c ∷ []))) h = refl
  nth-few f (a ∷ (b ∷ (c ∷ (x ∷ s)))) h = absurd (omega (arith, h))

  nth-members :
      (word : Text) (z : List (Text × ℕ))
      → length z ≤ 3
      → nth (map (without word 0) (members z)) 3 ≡ none
  nth-members word z h = nth-few (without word 0) (members z) (rw (length-map (λ m. m.0) z) h)

  -- The queues cannot be listed while fewer than four are registered: the script ends with an error.
  list_queues-few :
      {A : Type 0} (from_str : Text → Option (List A)) (now : ℕ) (d : Db)
      → length (R.zrange_all d (bytes "core:apalis:queues:list")) ≤ 3
      → (e : ScriptError) × (list_queues R C N from_str now d
          ≡ (err (error (database (raised e))), d))
  unfolding list_queues overview_by_queue_lua
  list_queues-few from_str now d h = received-Fails _ _ d (
      ask-Fails C.llen _ _ (λ a. ask-Fails C.zcard _ _ (λ b. ask-Fails C.zcard _ _ (λ b. (
        nil_argument,
        rw (nth-members (bytes ":workers") (R.zrange_all d (bytes "core:apalis:queues:list")) h),
      )))))

  day_rate-one :
      (now : ℕ) (q : Text) (a b n : ℕ) (d : Db)
      → C.zcount d (q ++ bytes ":done") (now - 86400) now ≡ some a
      → C.zcount d (q ++ bytes ":dead") (now - 86400) now ≡ some b
      → n ≡ a + b
      → day_rate R C N now (q ∷ []) n d ≡ (ok (rate N a n), d)
  unfolding day_rate rate
  day_rate-one now q a b zero d e f h = refl
  day_rate-one now q a b (suc n) d e f h =
      rw e (rw f (ap (λ k. (ok (N.mul (N.div (N.of_ℕ a) (N.of_ℕ k)) (N.of_ℕ 100)), d)) (sym h)))

  next-pure :
      {A B : Type 0} (x : Result ScriptError A × Db) (g : A → Lua Db B)
      → next (next x (λ a. pure a)) g ≡ next x g
  next-pure (ok a, d) g = refl
  next-pure (err e, d) g = refl

  -- For one queue, the script that reports over any number of queues returns what the script for one
  -- queue returns of that queue's four keys, be it a report or an error.
  pub overview-one_queue :
      (keys : List Text) (now : ℕ) (q : Text) (d : Db)
      → overview_lua R C N keys now (q ∷ []) d
        ≡ overview_by_queue_lua R C N
            ((q ++ bytes ":active")
              ∷ (q ++ bytes ":done")
              ∷ (q ++ bytes ":dead")
              ∷ (q ++ bytes ":inflight")
              ∷ [])
            (some now)
            d
  unfolding overview_lua overview_by_queue_lua tally_all tally nth
  overview-one_queue keys now q d =
      next-pure (tally R C N now no_totals q d) _
      ∙ ask-same C.llen _ _ _ _ (λ active e1. ask-same C.zcard _ _ _ _ (λ done e2.
        ask-same C.zcard _ _ _ _ (λ failed e3. ask-same C.scard _ _ _ _ (λ inflight e4.
          ask-same (within R C N _ _) _ _ _ _ (λ done_1h e5.
            ask-same (within R C N _ _) _ _ _ _ (λ failed_1h e6.
              ask-same (within R C N _ _) _ _ _ _ (λ done_24h e7.
                ask-same (within R C N _ _) _ _ _ _ (λ failed_24h e8.
                  ask-same (within R C N _ _) _ _ _ _ (λ failed_7d e9.
                    ask-same C.newest _ _ _ _ (λ recent_done e10.
                      ask-same C.newest _ _ _ _ (λ recent_failed e11.
                        rw
                          (day_rate-one now q done_24h failed_24h (0 + done_24h + failed_24h) d e7
                            e8 (omega arith))
                          (simp (zero_plus, later-first)))))))))))))
