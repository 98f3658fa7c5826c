-- ===== src/WaitFor/Batches.antt =====
-- What the check of a batch of tasks returns.
use apalis_redis.Prelude.{
  ℕ, suc, arith, ◌≡◌, refl, sym, ◌∙◌, ap, Bool, true, false, ◌&&◌, Option, none, some, List, [],
  ◌∷◌, Text, bytes, text_dec, ite, if_pos, if◌then◌else◌,
}
use apalis_redis.Prelude.Assoc.{contains}
use apalis_redis.Redis.{Redis}
use apalis_redis.Script.{Result, ok, err, Failure, Query, pure, next, ◌>>=◌}
use apalis_redis.Config.{Config, job_meta_hash}
use apalis_redis.Lease.{meta_key}
use apalis_redis.Reply.{Core}
use apalis_redis.WaitFor.{Reader, TaskResult, with_new, ids_of, check_one, check_status}
use apalis_redis.Prelude.Counting.{count}
use apalis_redis.WaitFor.Verdicts.{present, Printed, verdict-some, verdict-none}

-- How often an id is counted with a task before the others, by whether the tasks are over.
counted :
    {P : Type 0} (t : Dec P) (a b : Bool) (k : ℕ)
    → (P → a ≡ b)
    → (if a then ite t (suc (if b then k else 0)) (if b then k else 0) else (if b then k else 0))
      ≡ (if b then ite t (suc k) k else 0)
counted (yes e) true true k h = refl
counted (yes e) true false k h = cc (h e)
counted (yes e) false true k h = cc (h e)
counted (yes e) false false k h = refl
counted (no n) true true k h = refl
counted (no n) true false k h = refl
counted (no n) false true k h = refl
counted (no n) false false k h = refl

if_zero : (b : Bool) → ◌≡◌ {A = ℕ} 0 (if b then 0 else 0)
if_zero true = refl
if_zero false = refl

module _ (R : Redis) {Res : Type 0} (core : Core) (reader : Reader Res) (c : Config) where
  open R use {Db}

  -- Whether a task has a status and a result.
  abbrev pub is_over : Text → Db → Bool
  is_over id d =
      present (R.hget d (meta_key (job_meta_hash c) id) (bytes "status"))
      && present (R.hget d (meta_key (job_meta_hash c) id) (bytes "result"))

  abbrev asked : Text → Db → Result Failure (Option (TaskResult Res))
  asked id d = (check_one R core reader c id d).0

  -- What a list of results comes to with one more task.
  joined :
      (j id : Text) (b : Bool) (o : Option (TaskResult Res)) (rs : List (TaskResult Res)) (n : ℕ)
      → ((r : TaskResult Res) → o ≡ some r → (r.task_id ≡ id) × (b ≡ true))
      → (o ≡ none → b ≡ false)
      → count j (ids_of rs) ≡ n
      → count j (ids_of (with_new o rs)) ≡ (if b then ite (text_dec id j) (suc n) n else n)
  unfolding count
  joined j id b none rs n f g h = ground (arith, g refl, h)
  joined j id b (some r) rs n f g h =
      let (i, e) = f r refl in
      ap (λ t. ite (text_dec t j) (suc (count j (ids_of rs))) (count j (ids_of rs))) i
      ∙ ap (λ k. ite (text_dec id j) (suc k) k) h
      ∙ ap (λ a. if a then ite (text_dec id j) (suc n) n else n) (sym e)

  -- A batch of results is that of its first task and that of the others.
  Joins :
      Option (TaskResult Res)
      → List (TaskResult Res)
      → Result Failure (List (TaskResult Res))
      → Type 0
  Joins o rs x = (rs' : List (TaskResult Res)) × (x ≡ ok rs') × (rs ≡ with_new o rs')

  batch_tail :
      (o : Option (TaskResult Res)) (rs : List (TaskResult Res))
      (y : Result Failure (List (TaskResult Res)) × Db)
      → (next y (λ rs'. pure (with_new o rs'))).0 ≡ ok rs
      → Joins o rs y.0
  unfolding Joins
  batch_tail o rs (ok rs', d) e = let q : rs ≡ with_new o rs' = cc in (rs', refl, q)
  batch_tail o rs (err f, d) e = cc

  batch_parts :
      (x : Result Failure (Option (TaskResult Res))) (m : Query Db (List (TaskResult Res))) (d : Db)
      (rs : List (TaskResult Res))
      → (next (x, d) (λ r. m >>= λ rs'. pure (with_new r rs'))).0 ≡ ok rs
      → (o : Option (TaskResult Res)) × (x ≡ ok o) × Joins o rs (m d).0
  batch_parts (ok o) m d rs e = (o, refl, batch_tail o rs (m d) e)
  batch_parts (err f) m d rs e = cc

  -- The results of a batch are those of the tasks that are over.
  pub check_status-count :
      (j : Text) (d : Db) (ids : List Text) (rs : List (TaskResult Res))
      → Printed core reader ids
      → (check_status R core reader c ids d).0 ≡ ok rs
      → count j (ids_of rs) ≡ (if is_over j d then count j ids else 0)
  unfolding check_status check_one count contains Joins
  check_status-count j d [] rs h e =
      let q : rs ≡ [] = cc in ap (λ l. count j (ids_of l)) q ∙ if_zero (is_over j d)
  check_status-count j d (id ∷ ids) rs h e =
      let (o, x, (rs', y, q)) = batch_parts _ (check_status R core reader c ids) d rs e in
      ap (λ l. count j (ids_of l)) q
      ∙ joined j id (is_over id d) o rs' _
          (λ r g.
            verdict-some core reader id _ _ _ r
              (h id (if_pos (text_dec id id) refl true (contains id ids))) (x ∙ ap ok g))
          (λ g. verdict-none core reader id _ _ _ (x ∙ ap ok g))
          (check_status-count j d ids rs' (λ i g. h i (ground arith)) y)
      ∙ counted (text_dec id j) (is_over id d) (is_over j d) (count j ids) (ap (λ i. is_over i d))
