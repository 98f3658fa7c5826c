-- ===== src/Fetch/Progress.antt =====
-- That a task which waits is fetched.
use apalis_redis.Prelude.{
  ℕ, zero, suc, ◌+◌, ◌*◌, ◌≤◌, ◌<◌, arith, ◌≡◌, ◌≢◌, refl, sym, ◌∙◌, ap, true, none, List, [], ◌∷◌,
  ◌++◌, append_assoc, Text, text_dec, length, drop, take, if_pos, dec_lt, ltb, Bool,
}
use apalis_redis.Prelude.Assoc.{lookup, contains}
use apalis_redis.Redis.{Redis, range}
use apalis_redis.Config.{
  Config, workers_set, active_jobs_list, inflight_set_for, signal_list, scheduled_jobs_set,
}
use apalis_redis.Config.Keys.{signal-ne-workers, scheduled-ne-workers}
use apalis_redis.Task.{WorkerContext}
use apalis_redis.Reply.{Core}
use apalis_redis.Fetch.{batch_end, fetch_next}
use apalis_redis.Fetch.Batch.{promote-zset_other, mark-zset, cleared-zset}
use apalis_redis.Fetch.Next.{
  due, ready, batch, promoted, marked, fetch_next-state, fetch_next-takes,
}

-- Where a batch ends: before a task, or behind it.
contains-take :
    (j : Text) (n : ℕ) (pre post : List Text)
    → length pre < n
    → contains j (take n (pre ++ j ∷ post)) ≡ true
unfolding contains
contains-take j zero pre post h = absurd (omega (arith, h))
contains-take j (suc n) [] post h = if_pos (text_dec j j) refl true _
contains-take j (suc n) (k ∷ pre) post h =
    ground (arith, contains-take j n pre post (omega (arith, h)))

drop-append : (n : ℕ) (pre s : List Text) → n ≤ length pre → drop n (pre ++ s) ≡ drop n pre ++ s
drop-append zero pre s h = refl
drop-append (suc n) [] s h = absurd (omega (arith, h))
drop-append (suc n) (k ∷ pre) s h = drop-append n pre s (omega (arith, h))

length-drop : (n : ℕ) (s : List Text) → n ≤ length s → length (drop n s) + n ≡ length s
length-drop zero s h = omega arith
length-drop (suc n) [] h = absurd (omega (arith, h))
length-drop (suc n) (k ∷ s) h = omega (arith, length-drop n s (omega (arith, h)))

range-take : (b : ℕ) (s : List Text) → 0 < b → range (batch_end b) s ≡ take b s
unfolding range batch_end
range-take zero s h = absurd (omega (arith, h))
range-take (suc n) s h = refl

take-cancel : (n : ℕ) (s t : List Text) → take n s ++ t ≡ s → t ≡ drop n s
take-cancel zero s t e = e
take-cancel (suc n) [] t e = e
take-cancel (suc n) (k ∷ s) t e = take-cancel n s t (cc)

fewer : (m b p q : ℕ) → p < suc m * b → q + b ≡ p → q < m * b
fewer m b p q h e = omega (arith, h, e)

module _ (R : Redis) (c : Config) (w : WorkerContext) (core : Core) where
  open R use {Db, keyspace}

  -- Fetches of one worker, one after the other, by their readings of the clock.
  unfoldable pub fetch_all : List ℕ → Db → Db
  fetch_all [] d = d
  fetch_all (now ∷ nows) d = fetch_all nows (fetch_next R core w c now d).1

  abbrev pub Registered : Db → Type 0
  Registered d = lookup w.name ((keyspace d).zset (workers_set c)) ≢ none

  fetch_next-Registered :
      (now : ℕ) (d : Db) → Registered d → Registered (fetch_next R core w c now d).1
  fetch_next-Registered now d reg e =
      let k = workers_set c in
      let same : (keyspace (fetch_next R core w c now d).1).zset k ≡ (keyspace d).zset k =
        ap (λ s. (keyspace s).zset k) (fetch_next-state R c w now core d reg)
        ∙ cleared-zset R (ltb (length (batch R c w now d)) c.batch_size) (signal_list c) k
            (marked R c w now d) (signal-ne-workers c)
        ∙ ap (λ z. z k)
            (mark-zset R (active_jobs_list c) (inflight_set_for c w.name) (scheduled_jobs_set c)
              (signal_list c) (batch R c w now d) (promoted R c w now d))
        ∙ promote-zset_other R (active_jobs_list c) (inflight_set_for c w.name)
            (scheduled_jobs_set c) (signal_list c) k (due R c w now d) d (signal-ne-workers c)
            (scheduled-ne-workers c) in
      reg (sym (ap (lookup w.name) same) ∙ e)

  abbrev pub holds : Text → Db → Bool
  holds j d = contains j ((keyspace d).set (inflight_set_for c w.name))

  -- What the worker holds it still holds after further fetches.
  fetch_all-holds :
      (j : Text) (nows : List ℕ) (d : Db)
      → Registered d
      → holds j d ≡ true
      → holds j (fetch_all nows d) ≡ true
  unfolding fetch_all
  fetch_all-holds j [] d reg h = h
  fetch_all-holds j (now ∷ nows) d reg h =
      fetch_all-holds j nows _ (fetch_next-Registered now d reg)
        (ground (arith, (fetch_next-takes R c w now core d reg j).1, h))

  -- A task on the active list has its turn: if a registered worker fetches several times, with a
  -- positive batch size and nothing else happening to the queue in between, it holds the task once
  -- the fetches, at a batch each, have reached past the tasks that were before it on the list.
  pub fetch_all-reaches :
      (j : Text) (nows : List ℕ) (pre post : List Text) (d : Db)
      → Registered d
      → 0 < c.batch_size
      → (keyspace d).list (active_jobs_list c) ≡ pre ++ j ∷ post
      → length pre < length nows * c.batch_size
      → contains j ((keyspace (fetch_all nows d)).set (inflight_set_for c w.name)) ≡ true
  unfolding fetch_all
  fetch_all-reaches j [] pre post d reg pos e h = absurd (omega (arith, h))
  fetch_all-reaches j (now ∷ nows) pre post d reg pos e h =
      let b = c.batch_size in
      let d' = (fetch_next R core w c now d).1 in
      let takes = fetch_next-takes R c w now core d reg j in
      let queue : ready R c w now d ≡ pre ++ j ∷ (post ++ due R c w now d) =
        ap (λ l. l ++ due R c w now d) e ∙ append_assoc pre (j ∷ post) (due R c w now d) in
      let front : batch R c w now d ≡ take b (pre ++ j ∷ (post ++ due R c w now d)) =
        range-take b (ready R c w now d) pos ∙ ap (take b) queue in
      elim (dec_lt (length pre) b) [
        | yes p ↦ fetch_all-holds j nows d' (fetch_next-Registered now d reg) (
            ground (
              arith,
              takes.1,
              ap (contains j) front,
              contains-take j b pre (post ++ due R c w now d) p,
            ))
        | no n ↦
            let fits : b ≤ length pre = omega (arith, n) in
            let rest : (keyspace d').list (active_jobs_list c)
                ≡ drop b pre ++ j ∷ (post ++ due R c w now d) =
              take-cancel b (ready R c w now d) _ (
                ap (λ l. l ++ (keyspace d').list (active_jobs_list c))
                  (sym (range-take b (ready R c w now d) pos))
                ∙ takes.0)
              ∙ ap (drop b) queue
              ∙ drop-append b pre _ fits in
            fetch_all-reaches j nows (drop b pre) (post ++ due R c w now d) d'
              (fetch_next-Registered now d reg) pos rest
              (fewer (length nows) b (length pre) _ h (length-drop b pre fits))
      ]
