-- ===== src/WaitFor/Finishing.antt =====
-- When the stream of results ends.
use apalis_redis.Prelude.{
  ℕ, suc, ◌+◌, arith, ◌≡◌, refl, inl, inr, ◌∙◌, ap, Bool, true, false, Option, none, some,
  Bool-cases, List, [], ◌∷◌, ◌++◌, append-nil, Perm, Text, text_dec, if_pos, map, if◌then◌else◌,
}
use apalis_redis.Prelude.Assoc.{contains}
use apalis_redis.Redis.{Redis}
use apalis_redis.Script.{Result, ok, Error}
use apalis_redis.Config.{Config}
use apalis_redis.Reply.{Core}
use apalis_redis.WaitFor.{
  Reader, TaskResult, ids_of, remove_all, check_status, yielded, round, rounds,
}
use apalis_redis.Prelude.Counting.{count, count-perm, count-absent}
use apalis_redis.WaitFor.Verdicts.{Printed, parsed-Printed}
use apalis_redis.WaitFor.Batches.{is_over, check_status-count}
use apalis_redis.WaitFor.Delivery.{delivered, delivered-map, iter-Printed, round-Splits}

uncounted : (s : List Text) → ((j : Text) → count j s ≡ 0) → s ≡ []
unfolding count
uncounted [] h = refl
uncounted (k ∷ s) h =
    absurd (omega (arith, h k, if_pos (text_dec k k) refl (suc (count k s)) (count k s)))

-- What is left of a count.
rest_zero :
    (b : Bool) (m n k i : ℕ) → m ≡ (if b then i else 0) → b ≡ true → i ≡ k → m + n ≡ k → n ≡ 0
rest_zero true m n k i h e f g = omega (arith, h, f, g)
rest_zero false m n k i h e f g = cc

module _ (R : Redis) {Res : Type 0} (core : Core) (reader : Reader Res) (c : Config)
    (iter : List Text → List Text) (perm : (s : List Text) → Perm (iter s) s) where
  open R use {Db}

  round-yielded :
      (pending : List Text) (d : Db) (rs : List (TaskResult Res))
      → Printed core reader pending
      → (check_status R core reader c (iter pending) d).0 ≡ ok rs
      → round R core reader iter c pending d ≡ some (map ok rs, remove_all (ids_of rs) pending)
  unfolding round yielded
  round-yielded pending d rs h e =
      ap
        (λ o. elim o as (λ _. Option (List (Result Error (TaskResult Res)) × List Text)) [
          | none ↦ none
          | some ids ↦ yielded R core reader pending (check_status R core reader c ids d).0
        ])
        (parsed-Printed core reader (iter pending)
          (iter-Printed R core reader c iter perm pending h))
      ∙ ap (yielded R core reader pending) e

  emptied :
      (pending : List Text) (d : Db) (rs : List (TaskResult Res))
      → Printed core reader pending
      → ((j : Text) → contains j pending ≡ true → is_over R core reader c j d ≡ true)
      → (check_status R core reader c (iter pending) d).0 ≡ ok rs
      → remove_all (ids_of rs) pending ≡ []
  emptied pending d rs h over e = uncounted _ λ j.
      let s : count j (delivered (map ok rs)) + count j (remove_all (ids_of rs) pending)
          ≡ count j pending =
        round-Splits R core reader c iter perm pending _ d _ h (round-yielded pending d rs h e) j in
      elim (Bool-cases (contains j pending)) [
        | inr n ↦ omega (arith, s, count-absent j pending n)
        | inl y ↦
            rest_zero (is_over R core reader c j d) _ _ _ _
              (ap (count j) (delivered-map rs)
                ∙ check_status-count R core reader c j d (iter pending) rs
                    (iter-Printed R core reader c iter perm pending h) e)
              (over j y) (count-perm j (perm pending)) s
      ]

  -- The stream ends as soon as all is done: if at the stream's next round every pending task has a
  -- status and a result and they can be read, that round delivers the results and is the last, however
  -- the server's state goes on. The ids are printed task ids, and the set's iterator lists its members.
  pub wait_for-finishes :
      (id : Text) (pending : List Text) (d : Db) (ds : List Db) (rs : List (TaskResult Res))
      → ((i : Text) → contains i (id ∷ pending) ≡ true → core.task_id_from_str i ≡ some i)
      → ((j : Text) → contains j (id ∷ pending) ≡ true → is_over R core reader c j d ≡ true)
      → (check_status R core reader c (iter (id ∷ pending)) d).0 ≡ ok rs
      → rounds R core reader iter c (id ∷ pending) (d ∷ ds) ≡ some (map ok rs, [])
  unfolding rounds
  wait_for-finishes id pending d ds rs h over e =
      let r =
        round-yielded (id ∷ pending) d rs h e
        ∙ ap (λ l. some (map ok rs, l)) (emptied (id ∷ pending) d rs h over e) in
      ap
        (λ x. elim x as (λ _. Option (List (Result Error (TaskResult Res)) × List Text)) [
          | none ↦ none
          | some (items, left) ↦ elim (rounds R core reader iter c left ds) [
            | none ↦ none
            | some (more, rest) ↦ some (items ++ more, rest)
          ]
        ])
        r
      ∙ ap (λ l. some (l, [])) (append-nil (map ok rs))
