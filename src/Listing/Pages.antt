-- ===== src/Listing/Pages.antt =====
-- What the listings show.
use mathlib.Core.List.Perm
use apalis_redis.Prelude.{
  ℕ, zero, suc, ◌+◌, ◌-◌, ◌*◌, ◌≤◌, arith, ◌≡◌, refl, sym, ◌∙◌, ap, subst, List, [], ◌∷◌, ◌++◌,
  Text, take, drop, length, Perm,
}
use apalis_redis.Redis.{Redis, Index, before, upto, between, fields_of}
use apalis_redis.Script.{ok}
use apalis_redis.Config.{Config, job_data_hash, job_meta_hash}
use apalis_redis.Reply.{Core, deserialize_with_meta, decode_all, elements, entries}
use apalis_redis.Fetch.{reply_of, decoded, values}
use apalis_redis.Listing.{
  Filter, status_str, size_of, start_index, stop_index, page_of, shown, list_tasks_lua, page_ids,
  list_tasks,
}

take-nil : (n : ℕ) → take {A = Text} n [] ≡ []
take-nil zero = refl
take-nil (suc n) = refl

drop-nil : (m n : ℕ) → take {A = Text} n (drop m []) ≡ []
drop-nil zero n = take-nil n
drop-nil (suc m) n = take-nil n

take-all : (n : ℕ) (s : List Text) → length s ≤ n → take n s ≡ s
take-all zero [] h = refl
take-all zero (x ∷ s) h = absurd (omega (arith, h))
take-all (suc n) [] h = refl
take-all (suc n) (x ∷ s) h = ap (λ l. x ∷ l) (take-all n s (omega (arith, h)))

take-plus : (a b : ℕ) (s : List Text) → take (a + b) s ≡ take a s ++ take b (drop a s)
take-plus zero b s = ap (λ n. take n s) (let e : 0 + b ≡ b = omega arith in e)
take-plus (suc a) b [] = take-nil (suc a + b) ∙ sym (take-nil b)
take-plus (suc a) b (x ∷ s) =
    let e : suc a + b ≡ suc (a + b) = omega arith in
    ap (λ n. take n (x ∷ s)) e ∙ ap (λ l. x ∷ l) (take-plus a b s)

-- The pages from the first to a given one.
unfoldable pub pages_to : ℕ → ℕ → List Text → List Text
pages_to zero size s = []
pages_to (suc n) size s = pages_to n size s ++ page_of (suc n) size s

pages_to-take : (n size : ℕ) (s : List Text) → pages_to n size s ≡ take (n * size) s
unfolding pages_to page_of
pages_to-take zero size s = let e : 0 ≡ 0 * size = omega arith in ap (λ n. take n s) e
pages_to-take (suc n) size s =
    let e : n * size + size ≡ suc n * size = omega arith in
    ap (λ l. l ++ take size (drop (n * size) s)) (pages_to-take n size s)
    ∙ sym (take-plus (n * size) size s)
    ∙ ap (λ k. take k s) e

module _ (R : Redis) (c : Config) where
  open R use {Db, keyspace}

  between-nil : (i j : Index) → between i j [] ≡ []
  unfolding between
  between-nil i j = drop-nil (before 0 i) (upto 0 j - before 0 i)

  shown-nil : (meta filter : Text) (d : Db) → shown R meta filter [] d ≡ []
  unfolding shown
  shown-nil meta [] d = refl
  shown-nil meta (b ∷ filter) d = refl

  nothing :
      (core : Core) (d : Db)
      → decoded (deserialize_with_meta core (reply_of R (job_data_hash c) (job_meta_hash c) [] d)) d
        ≡ (ok [], d)
  unfolding deserialize_with_meta decode_all reply_of values elements entries
  nothing core d = refl

  -- A listing of tasks is empty while there is no list under the bare name of the queue, whatever
  -- tasks are stored and whatever the filter.
  pub list_tasks-empty :
      (core : Core) (f : Filter) (d : Db)
      → (keyspace d).list c.queue ≡ []
      → list_tasks R core c f d ≡ (ok [], d)
  unfolding list_tasks list_tasks_lua
  list_tasks-empty core f d e =
      let none_listed : R.lrange_between d c.queue (start_index f.page (size_of f))
            (stop_index f.page (size_of f))
          ≡ [] =
        R.lrange_between_lem d c.queue _ _ ∙ ap (between _ _) e ∙ between-nil _ _ in
      ap
        (λ ids.
          decoded
            (deserialize_with_meta core (
              reply_of R (job_data_hash c) (job_meta_hash c)
                (shown R (job_meta_hash c) (status_str f) ids d) d))
            d)
        none_listed
      ∙ ap
          (λ ids.
            decoded
              (deserialize_with_meta core (reply_of R (job_data_hash c) (job_meta_hash c) ids d)) d)
          (shown-nil (job_meta_hash c) (status_str f) d)
      ∙ nothing core d

  -- The first pages of a listing of all tasks, one after the other.
  unfoldable pub pages : (List Text → List Text) → ℕ → ℕ → Db → List Text
  pages sort zero size d = []
  pages sort (suc n) size d =
      pages sort n size d ++ page_ids R sort (job_data_hash c) (suc n) size d

  pages-pages_to :
      (sort : List Text → List Text) (n size : ℕ) (d : Db)
      → pages sort n size d ≡ pages_to n size (sort (R.hkeys d (job_data_hash c)))
  unfolding pages pages_to page_ids
  pages-pages_to sort zero size d = refl
  pages-pages_to sort (suc n) size d =
      ap (λ l. l ++ page_of (suc n) size (sort (R.hkeys d (job_data_hash c))))
        (pages-pages_to sort n size d)

  -- The pages hold every stored id once, if there are enough of them.
  pub pages-Perm :
      (sort : List Text → List Text)
      → ((s : List Text) → Perm (sort s) s)
      → (n size : ℕ) (d : Db) → length (sort (R.hkeys d (job_data_hash c))) ≤ n * size
      → Perm (pages sort n size d) (fields_of ((keyspace d).hash (job_data_hash c)))
  pages-Perm sort perm n size d h =
      let ids = sort (R.hkeys d (job_data_hash c)) in
      subst (λ l. Perm l (fields_of ((keyspace d).hash (job_data_hash c))))
        (sym (pages-pages_to sort n size d ∙ pages_to-take n size ids ∙ take-all (n * size) ids h))
        (Perm.trans (perm (R.hkeys d (job_data_hash c))) (R.hkeys-perm d (job_data_hash c)))
