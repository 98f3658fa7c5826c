-- ===== src/Worker/Drain.antt =====
-- lua/reenqueue_orphaned.lua taking back the tasks of some workers, one worker after the other.
use mathlib.Core.Path.{fun_ext}
use mathlib.Core.List.Perm
use mathlib.Core.List.{Permᴰ}
use mathlib.Core.Logic.{∥∥₁_elim}
use native.Mathlib.Nat.{ℕ_set}
use apalis_redis.Prelude.{
  ℕ, ◌+◌, ◌≡◌, refl, ◌≢◌, if_neg, suc, ◌⊎◌, inl, inr, sym, ◌∙◌, ap, List, [], ◌∷◌, ◌++◌, Perm, Text,
  text_dec, length, length-append, arith, if◌then◌else◌, append-nil, append_assoc,
}
use apalis_redis.Prelude.Assoc.{contains, erase, erase_all}
use apalis_redis.Redis.{Redis, put, put_self, put-ne}
use apalis_redis.Redis.Laws.{effects}
use apalis_redis.Script.{ok}
use apalis_redis.Config.{Config, workers_set, active_jobs_list, inflight_jobs_set, inflight_set_for}
use apalis_redis.Config.Keys.{inflight-ne-active, inflight-ne-workers, inflight-injective}
use apalis_redis.Worker.{drain, take_back, take_back_all}

List-cases {ℓ} : {A : Type ℓ} (xs : List A) → (xs ≡ []) ⊎ ((x : A) × (r : List A) × (xs ≡ x ∷ r))
List-cases [] = inl refl
List-cases (x ∷ r) = inr (x, r, refl)

length-perm {ℓ} : {A : Type ℓ} {xs ys : List A} → Perm xs ys → length xs ≡ length ys
length-perm {A} p = ∥∥₁_elim p (ℕ_set _ _) count
  where
    count : {xs ys : List A} → Permᴰ xs ys → length xs ≡ length ys
    count Permᴰ.nil = refl
    count (Permᴰ.cons e q) = ap suc (count q)
    count (Permᴰ.swap e f) = refl
    count (Permᴰ.trans q r) = count q ∙ count r

module _ (c : Config) where
  -- The tasks of the inflight sets of some workers, one set after the other.
  unfoldable pub drained : (Text → List Text) → List Text → List Text
  drained s [] = []
  drained s (w ∷ ws) = s (inflight_set_for c w) ++ drained (put s (inflight_set_for c w) []) ws

  -- The sets once those of some workers are emptied.
  pub emptied : (Text → List Text) → List Text → Text → List Text
  emptied s [] = s
  emptied s (w ∷ ws) = emptied (put s (inflight_set_for c w) []) ws

  pub emptied_lem :
      (ws : List Text) (s : Text → List Text) (j : Text)
      → emptied s ws (inflight_set_for c j)
        ≡ (if contains j ws then [] else s (inflight_set_for c j))
  unfolding emptied contains
  emptied_lem [] s j = refl
  emptied_lem (w ∷ ws) s j = elim (text_dec w j) [
    | yes e ↦
        rw
          (
            e,
            emptied_lem ws (put s (inflight_set_for c j) []) j,
            put_self s (inflight_set_for c j) [],
          )
          (ground arith)
    | no n ↦
        rw
          (
            emptied_lem ws (put s (inflight_set_for c w) []) j,
            put-ne s (inflight_set_for c w) [] (inflight_set_for c j)
                (λ e. n (inflight-injective c w j e)),
          )
          (sym (ap (λ b. if b then [] else s (inflight_set_for c j)) (if_neg (text_dec w j) n _ _)))
  ]

module _ (R : Redis) (active inflight : Text) where
  open R use {Db, keyspace}

  drain-ok :
      (jobs : List Text) (d : Db)
      → drain R active inflight jobs d ≡ (ok tt, (drain R active inflight jobs d).1)
  unfolding drain
  drain-ok [] d = refl
  drain-ok (x ∷ r) d = refl

  drain-list :
      (jobs : List Text) (d : Db)
      → inflight ≢ active
      → (keyspace (drain R active inflight jobs d).1).list active ≡ (keyspace d).list active ++ jobs
  unfolding drain
  drain-list [] d ne = sym (append-nil _)
  drain-list (x ∷ r) d ne = simp effects (rw (put-ne _ inflight _ active ne) (put_self _ active _))

  pub drain-set :
      (jobs : List Text) (d : Db)
      → Perm jobs ((keyspace d).set inflight)
      → (keyspace (drain R active inflight jobs d).1).set ≡ put (keyspace d).set inflight []
  unfolding drain
  drain-set [] d p = fun_ext λ k. elim (text_dec inflight k) [
    | yes e ↦ rw (← e, put_self (keyspace d).set inflight []) (sym (Perm.nil-eq p))
    | no n ↦ sym (put-ne (keyspace d).set inflight [] k n)
  ]
  drain-set (x ∷ r) d p = simp effects

  drain-zset :
      (jobs : List Text) (k : Text) (d : Db)
      → inflight ≢ k
      → (keyspace (drain R active inflight jobs d).1).zset k ≡ (keyspace d).zset k
  unfolding drain
  drain-zset [] k d ne = refl
  drain-zset (x ∷ r) k d ne = simp effects (put-ne _ inflight _ k ne)

module _ (R : Redis) (c : Config) where
  open R use {Db, keyspace}

  abbrev one : Text → Db → Db
  one w d = (take_back R (workers_set c) (active_jobs_list c) (inflight_jobs_set c) w d).1

  take_back-ok :
      (w : Text) (d : Db)
      → take_back R (workers_set c) (active_jobs_list c) (inflight_jobs_set c) w d
        ≡ (ok (length (R.smembers d (inflight_set_for c w))), one w d)
  unfolding take_back inflight_set_for
  take_back-ok w d =
      let key = inflight_set_for c w in
      rw (drain-ok R (active_jobs_list c) key (R.smembers d key) d, one)

  one-list :
      (w : Text) (d : Db)
      → (keyspace (one w d)).list (active_jobs_list c)
        ≡ (keyspace d).list (active_jobs_list c) ++ R.smembers d (inflight_set_for c w)
  unfolding take_back inflight_set_for
  one-list w d =
      let key = inflight_set_for c w in
      rw (drain-ok R (active_jobs_list c) key (R.smembers d key) d, one)
        (simp effects
          (drain-list R (active_jobs_list c) key (R.smembers d key) d (inflight-ne-active c w)))

  one-set :
      (w : Text) (d : Db)
      → (keyspace (one w d)).set ≡ put (keyspace d).set (inflight_set_for c w) []
  unfolding take_back inflight_set_for
  one-set w d =
      let key = inflight_set_for c w in
      rw (drain-ok R (active_jobs_list c) key (R.smembers d key) d, one)
        (simp effects
          (drain-set R (active_jobs_list c) key (R.smembers d key) d (R.smembers-perm d key)))

  one-zset :
      (w : Text) (d : Db)
      → (keyspace (one w d)).zset (workers_set c) ≡ erase w ((keyspace d).zset (workers_set c))
  unfolding take_back inflight_set_for erase_all
  one-zset w d =
      let key = inflight_set_for c w in
      rw (drain-ok R (active_jobs_list c) key (R.smembers d key) d, one)
        (simp effects (
          ap (erase w) (
            drain-zset R (active_jobs_list c) key (R.smembers d key) (workers_set c) d
              (inflight-ne-workers c w))))

  abbrev pub loop : List Text → ℕ → Db → Db
  loop ws n d =
      (take_back_all R (workers_set c) (active_jobs_list c) (inflight_jobs_set c) ws n d).1

  pub take_back_all-ok :
      (ws : List Text) (n : ℕ) (d : Db)
      → take_back_all R (workers_set c) (active_jobs_list c) (inflight_jobs_set c) ws n d
        ≡ (ok (n + length (drained c (keyspace d).set ws)), loop ws n d)
  unfolding take_back_all drained
  take_back_all-ok [] n d = ap (λ k. (ok k, d)) (omega arith)
  take_back_all-ok (w ∷ ws) n d =
      rw
        (
          take_back-ok w d,
          loop,
          take_back_all-ok ws (n + length (R.smembers d (inflight_set_for c w))) (one w d),
          one-set w d,
        )
        (ap (λ k. (ok k, loop ws (n + length (R.smembers d (inflight_set_for c w))) (one w d)))
          (omega (
            arith,
            length-perm (R.smembers-perm d (inflight_set_for c w)),
            length-append ((keyspace d).set (inflight_set_for c w))
                (drained c (put (keyspace d).set (inflight_set_for c w) []) ws),
          )))

  pub loop-list :
      (ws : List Text) (n : ℕ) (d : Db)
      → Perm
          ((keyspace (loop ws n d)).list (active_jobs_list c))
          ((keyspace d).list (active_jobs_list c) ++ drained c (keyspace d).set ws)
  unfolding take_back_all drained
  loop-list [] n d = rw (append-nil ((keyspace d).list (active_jobs_list c))) (Perm.refl _)
  loop-list (w ∷ ws) n d =
      let active = (keyspace d).list (active_jobs_list c) in
      let jobs = R.smembers d (inflight_set_for c w) in
      let later = drained c (put (keyspace d).set (inflight_set_for c w) []) ws in
      rw (take_back-ok w d, loop)
        (Perm.trans (loop-list ws _ (one w d)) (
          rw (one-list w d, one-set w d, append_assoc active jobs later)
            (Perm.append_left active
              (Perm.append_right later (R.smembers-perm d (inflight_set_for c w))))))

  pub loop-set :
      (ws : List Text) (n : ℕ) (d : Db)
      → (keyspace (loop ws n d)).set ≡ emptied c (keyspace d).set ws
  unfolding take_back_all emptied
  loop-set [] n d = refl
  loop-set (w ∷ ws) n d =
      rw (take_back-ok w d, loop) (loop-set ws _ (one w d) ∙ ap (λ s. emptied c s ws) (one-set w d))

  pub loop-zset :
      (ws : List Text) (n : ℕ) (d : Db)
      → (keyspace (loop ws n d)).zset (workers_set c)
        ≡ erase_all ws ((keyspace d).zset (workers_set c))
  unfolding take_back_all erase_all
  loop-zset [] n d = refl
  loop-zset (w ∷ ws) n d =
      rw (take_back-ok w d, loop) (loop-zset ws _ (one w d) ∙ ap (erase_all ws) (one-zset w d))
