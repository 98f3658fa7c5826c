-- ===== src/WaitFor/Delivery.antt =====
-- What the stream of results delivers.
use apalis_redis.Prelude.{
  ℕ, ◌+◌, ◌<◌, arith, ◌≡◌, refl, inl, inr, sym, ◌∙◌, ap, Bool, true, false, Option, none, some,
  Bool-cases, List, [], ◌∷◌, ◌++◌, Perm, Text, map, if◌then◌else◌,
}
use apalis_redis.Prelude.Assoc.{contains, contains-perm}
use apalis_redis.Redis.{Redis}
use apalis_redis.Script.{Result, ok, err, Failure, Error, error, panic}
use apalis_redis.Config.{Config}
use apalis_redis.Reply.{Core}
use apalis_redis.WaitFor.{
  Reader, TaskResult, ids_of, remove_all, parsed, check_status, yielded, round, rounds,
}
use apalis_redis.Prelude.Counting.{count, count-append, count-perm, count-absent, count-present}
use apalis_redis.WaitFor.Counting.{count-remove_all}
use apalis_redis.WaitFor.Verdicts.{Printed, parsed-Printed}
use apalis_redis.WaitFor.Batches.{is_over, check_status-count}

-- The ids of the items that are no errors.
unfoldable pub delivered : {Res : Type 0} → List (Result Error (TaskResult Res)) → List Text
delivered [] = []
delivered (ok r ∷ items) = r.task_id ∷ delivered items
delivered (err e ∷ items) = delivered items

delivered-append :
    {Res : Type 0} (xs ys : List (Result Error (TaskResult Res)))
    → delivered (xs ++ ys) ≡ delivered xs ++ delivered ys
unfolding delivered
delivered-append [] ys = refl
delivered-append (ok r ∷ xs) ys = ap (λ l. r.task_id ∷ l) (delivered-append xs ys)
delivered-append (err e ∷ xs) ys = delivered-append xs ys

pub delivered-map : {Res : Type 0} (rs : List (TaskResult Res)) → delivered (map ok rs) ≡ ids_of rs
unfolding delivered
delivered-map [] = refl
delivered-map (r ∷ rs) = ap (λ l. r.task_id ∷ l) (delivered-map rs)

none_yet : (m n : ℕ) → m ≡ n → 0 + m ≡ n
none_yet m n h = omega (arith, h)

positive_if : (b : Bool) (k n : ℕ) → n ≡ (if b then k else 0) → 0 < n → n ≡ k
positive_if true k n h p = h
positive_if false k n h p = omega (arith, h, p)

module _ (R : Redis) {Res : Type 0} (core : Core) (reader : Reader Res) (c : Config) where
  open R use {Db}

  -- Of a list of ids, what is delivered and what stays pending.
  abbrev pub Splits : List Text → List (Result Error (TaskResult Res)) → List Text → Type 0
  Splits pending items left =
      (j : Text) → count j (delivered items) + count j left ≡ count j pending

  yielded-Splits :
      (ids pending : List Text) (d : Db) (x : Result Failure (List (TaskResult Res)))
      (items : List (Result Error (TaskResult Res))) (left : List Text)
      → Printed core reader ids
      → ((j : Text) → count j ids ≡ count j pending)
      → (check_status R core reader c ids d).0 ≡ x
      → yielded R core reader pending x ≡ some (items, left)
      → Splits pending items left
  unfolding yielded delivered count
  yielded-Splits ids pending d (err panic) items left h p e g j = cc
  yielded-Splits ids pending d (err (error f)) items left h p e g j =
      let q : left ≡ pending = cc in
      let i : items ≡ err f ∷ [] = cc in
      ap (λ l. count j (delivered l) + count j left) i
      ∙ none_yet (count j left) (count j pending) (ap (count j) q)
  yielded-Splits ids pending d (ok rs) items left h p e g j =
      let q : left ≡ remove_all (ids_of rs) pending = cc in
      let i : items ≡ map ok rs = cc in
      let n = check_status-count R core reader c j d ids rs h e in
      ap (λ l. count j (delivered l) + count j left) i
      ∙ ap (λ l. count j l + count j left) (delivered-map rs)
      ∙ ap (λ l. count j (ids_of rs) + count j l) q
      ∙ ap (λ k. count j (ids_of rs) + k) (count-remove_all j (ids_of rs) pending)
      ∙ elim (Bool-cases (contains j (ids_of rs))) [
        | inr no_result ↦
            ap (λ b. count j (ids_of rs) + (if b then 0 else count j pending)) no_result
            ∙ omega (arith, count-absent j (ids_of rs) no_result)
        | inl result ↦
            ap (λ b. count j (ids_of rs) + (if b then 0 else count j pending)) result
            ∙ omega (
              arith,
              positive_if (is_over R core reader c j d) (count j ids) (count j (ids_of rs)) n
                  (count-present j (ids_of rs) result),
              p j,
            )
      ]

  abbrev pub Items : Type 0
  Items = List (Result Error (TaskResult Res))

  -- A round's items and the ids left, followed by the later rounds'.
  chained_rest :
      (i : Items) (y : Option (Items × List Text)) (items : Items) (left : List Text)
      → (elim y as (λ _. Option (Items × List Text)) [
        | none ↦ none
        | some (more, left) ↦ some (i ++ more, left)
      ])
        ≡ some (items, left)
      → (more : Items) × (y ≡ some (more, left)) × (items ≡ i ++ more)
  chained_rest i none items left e = cc
  chained_rest i (some (more, l)) items left e =
      let q : l ≡ left = cc in
      let g : items ≡ i ++ more = cc in (more, ap (λ k. some (more, k)) q, g)

  chained :
      (x : Option (Items × List Text)) (g : List Text → Option (Items × List Text)) (items : Items)
      (left : List Text)
      → (elim x as (λ _. Option (Items × List Text)) [
        | none ↦ none
        | some (i, p) ↦ elim (g p) [ none ↦ none | some (more, left) ↦ some (i ++ more, left) ]
      ])
        ≡ some (items, left)
      → (i : Items) × (p : List Text) × (more : Items) × (x ≡ some (i, p))
        × (g p ≡ some (more, left))
        × (items ≡ i ++ more)
  chained none g items left e = cc
  chained (some (i, p)) g items left e =
      let (more, y, q) = chained_rest i (g p) items left e in (i, p, more, refl, y, q)

  Splits-Printed :
      (pending left : List Text) (items : Items)
      → Splits pending items left
      → Printed core reader pending
      → Printed core reader left
  Splits-Printed pending left items s h id m = elim (Bool-cases (contains id pending)) [
    | inl e ↦ h id e
    | inr e ↦ absurd (omega (arith, s id, count-present id left m, count-absent id pending e))
  ]

  Splits-chain :
      (pending p left : List Text) (i more items : Items)
      → items ≡ i ++ more
      → Splits pending i p
      → Splits p more left
      → Splits pending items left
  Splits-chain pending p left i more items q s t j =
      ap (λ l. count j (delivered l) + count j left) q
      ∙ ap (λ l. count j l + count j left) (delivered-append i more)
      ∙ omega (arith, count-append j (delivered i) (delivered more), s j, t j)

  module _ (iter : List Text → List Text) (perm : (s : List Text) → Perm (iter s) s) where
    pub iter-Printed :
        (pending : List Text) → Printed core reader pending → Printed core reader (iter pending)
    iter-Printed pending h id m = h id (sym (contains-perm id (perm pending)) ∙ m)

    pub round-Splits :
        (pending left : List Text) (d : Db) (items : Items)
        → Printed core reader pending
        → round R core reader iter c pending d ≡ some (items, left)
        → Splits pending items left
    unfolding round
    round-Splits pending left d items h e =
        let ids = iter pending in
        let read : parsed core ids ≡ some ids =
          parsed-Printed core reader ids (iter-Printed pending h) in
        yielded-Splits ids pending d _ items left (iter-Printed pending h)
          (λ j. count-perm j (perm pending)) refl
          (sym (
              ap
                (λ o. elim o as (λ _. Option (Items × List Text)) [
                  | none ↦ none
                  | some ids ↦ yielded R core reader pending (check_status R core reader c ids d).0
                ])
                read)
            ∙ e)

    rounds-Splits :
        (pending : List Text) (ds : List Db) (items : Items) (left : List Text)
        → Printed core reader pending
        → rounds R core reader iter c pending ds ≡ some (items, left)
        → Splits pending items left
    unfolding rounds delivered count
    rounds-Splits [] ds items left h e j =
        let q : left ≡ [] = cc in
        let i : items ≡ [] = cc in
        ap (λ l. count j (delivered l) + count j left) i
        ∙ none_yet (count j left) _ (ap (count j) q)
    rounds-Splits (id ∷ pending) [] items left h e j =
        let q : left ≡ id ∷ pending = cc in
        let i : items ≡ [] = cc in
        ap (λ l. count j (delivered l) + count j left) i
        ∙ none_yet (count j left) _ (ap (count j) q)
    rounds-Splits (id ∷ pending) (d ∷ ds) items left h e j =
        let (i, p, more, x, y, q) =
          chained (round R core reader iter c (id ∷ pending) d)
            (λ p. rounds R core reader iter c p ds) items left e in
        let s = round-Splits (id ∷ pending) p d i h x in
        Splits-chain (id ∷ pending) p left i more items q s
          (rounds-Splits p ds more left (Splits-Printed (id ∷ pending) p i s h) y) j

    -- Each result is delivered once: whatever the server's state at each round, and whatever errors
    -- come up, a task that was waited for is either still pending or its result has been delivered,
    -- as often as it was asked for (a set holds it once), and no other result is delivered. The
    -- hypotheses: the ids are printed task ids, which read back as themselves, and the set's iterator
    -- lists its members.
    pub wait_for-delivers :
        (pending : List Text) (ds : List Db) (items : List (Result Error (TaskResult Res)))
        (left : List Text) (j : Text)
        → ((id : Text) → contains id pending ≡ true → core.task_id_from_str id ≡ some id)
        → rounds R core reader iter c pending ds ≡ some (items, left)
        → count j (delivered items) + count j left ≡ count j pending
    wait_for-delivers pending ds items left j h e = rounds-Splits pending ds items left h e j
