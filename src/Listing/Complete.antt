-- ===== src/Listing/Complete.antt =====
-- The pages of `list_all_tasks` together.
use apalis_redis.Prelude.{
  ℕ, zero, suc, ◌*◌, ◌≤◌, arith, ◌≡◌, refl, sym, ◌∙◌, ap, true, false, Bool, some, List, [], ◌∷◌,
  ◌++◌, map, Text, bytes, take, drop, length, length-map, Perm, text_dec, if_pos, if_neg, ◌==◌,
  if◌then◌else◌,
}
use apalis_redis.Prelude.Assoc.{lookup, contains, contains-perm}
use apalis_redis.Prelude.Counting.{count, count-append, count-perm}
use apalis_redis.Redis.{Redis, fields_of}
use apalis_redis.Script.{ok}
use apalis_redis.Config.{Config, job_data_hash, job_meta_hash}
use apalis_redis.Task.{RedisTask}
use apalis_redis.Lease.{meta_key}
use apalis_redis.Reply.{
  Value, bulk_string, array, cons, Core, CompactTask, decode_all, deserialize_with_meta, elements,
  entries, into_full_compact,
}
use apalis_redis.Reply.RoundTrip.{flat}
use apalis_redis.Fetch.{reply_of, decoded, values, nullable}
use apalis_redis.FetchById.{fetch_by_id, fetch_by_id-decode}
use apalis_redis.Listing.{
  Filter, status_str, size_of, page_of, shown, has_status, page_ids, list_all_tasks,
  list_all_tasks_lua,
}
use apalis_redis.Listing.Pages.{pages, pages-Perm}

elements-values : (vs : List Value) → elements (values vs) ≡ vs
unfolding elements values
elements-values [] = refl
elements-values (v ∷ vs) = ap (λ l. v ∷ l) (elements-values vs)

equal_self : (n : ℕ) → (n == n) ≡ true
equal_self n = ground arith

deserialize_with_meta-ok :
    (core : Core) (vs ms : List Value) (ts : List CompactTask)
    → length vs ≡ length ms
    → decode_all core vs ms ≡ ok ts
    → deserialize_with_meta core (array (values vs) ∷ array (values ms) ∷ []) ≡ ok ts
unfolding deserialize_with_meta entries
deserialize_with_meta-ok core vs ms ts l e =
    rw (elements-values vs, elements-values ms, l, equal_self (length ms)) e

contains-take :
    (j : Text) (n : ℕ) (s : List Text) → contains j (take n s) ≡ true → contains j s ≡ true
unfolding contains
contains-take j zero s h = cc (h)
contains-take j (suc n) [] h = h
contains-take j (suc n) (k ∷ s) h = ground (arith, contains-take j n s, h)

contains-drop :
    (j : Text) (n : ℕ) (s : List Text) → contains j (drop n s) ≡ true → contains j s ≡ true
unfolding contains
contains-drop j zero s h = h
contains-drop j (suc n) [] h = h
contains-drop j (suc n) (k ∷ s) h = ground (arith, contains-drop j n s h)

contains-page_of :
    (j : Text) (p size : ℕ) (s : List Text)
    → contains j (page_of p size s) ≡ true
    → contains j s ≡ true
unfolding page_of contains
contains-page_of j zero size s h = cc (h)
contains-page_of j (suc p) size s h =
    contains-drop j (p * size) s (contains-take j size (drop (p * size) s) h)

contains-when :
    (j id : Text) (c : Bool) (s t : List Text)
    → contains j (if c then id ∷ s else s) ≡ true
    → (contains j s ≡ true → contains j t ≡ true)
    → contains j (id ∷ t) ≡ true
unfolding contains
contains-when j id true s t h g = elim (text_dec id j) [
  | yes e ↦ if_pos (text_dec id j) e true _
  | no n ↦ if_neg (text_dec id j) n true _ ∙ g (sym (if_neg (text_dec id j) n true _) ∙ h)
]
contains-when j id false s t h g = elim (text_dec id j) [
  | yes e ↦ if_pos (text_dec id j) e true _
  | no n ↦ if_neg (text_dec id j) n true _ ∙ g h
]

-- Pages one after the other, from the first to a given one.
unfoldable pub all_pages : (ℕ → List Text) → ℕ → List Text
all_pages page zero = []
all_pages page (suc n) = all_pages page n ++ page (suc n)

module _ (R : Redis) (c : Config) where
  open R use {Db, keyspace}

  -- Whether a filter asks for a task: it names no status, or that of the task's metadata.
  unfoldable pub wanted : Text → Db → Text → Bool
  wanted [] d j = true
  wanted (b ∷ filter) d j =
      has_status (b ∷ filter)
        (lookup (bytes "status") ((keyspace d).hash (meta_key (job_meta_hash c) j)))

  count-shown :
      (filter : Text) (ids : List Text) (d : Db) (j : Text)
      → count j (shown R (job_meta_hash c) filter ids d)
        ≡ (if wanted filter d j then count j ids else 0)
  unfolding shown wanted count
  count-shown [] ids d j = refl
  count-shown (b ∷ filter) [] d j = ground arith
  count-shown (b ∷ filter) (id ∷ ids) d j =
      let status = λ (i : Text). R.hget d (meta_key (job_meta_hash c) i) (bytes "status") in
      let found =
        ap (has_status (b ∷ filter))
          (R.hget_lem d (meta_key (job_meta_hash c) j) (bytes "status")) in
      elim (text_dec id j) [
        | yes q ↦
            let same = ap (λ i. has_status (b ∷ filter) (status i)) q in
            ground (arith, q, same, found, count-shown (b ∷ filter) ids d j)
        | no n ↦ ground (arith, n, count-shown (b ∷ filter) ids d j)
      ]

  contains-shown :
      (filter : Text) (ids : List Text) (d : Db) (j : Text)
      → contains j (shown R (job_meta_hash c) filter ids d) ≡ true
      → contains j ids ≡ true
  unfolding shown contains
  contains-shown [] ids d j h = h
  contains-shown (b ∷ filter) [] d j h = h
  contains-shown (b ∷ filter) (id ∷ ids) d j h =
      contains-when j id
        (has_status (b ∷ filter) (R.hget d (meta_key (job_meta_hash c) id) (bytes "status"))) _ ids
        h (contains-shown (b ∷ filter) ids d j)

  data_of : Text → Db → Value
  data_of id d = nullable (R.hget d (job_data_hash c) id)

  meta_of : Text → Db → Value
  meta_of id d = array (cons (bulk_string id) (flat (R.hgetall d (meta_key (job_meta_hash c) id))))

  -- The entries of a reply, of which each can be decoded, are decoded to those tasks.
  decode_all-found :
      (core : Core) (tasks : Text → RedisTask) (ids : List Text) (d : Db)
      → ((id : Text)
          → contains id ids ≡ true
          → fetch_by_id R core c id d ≡ (ok (some (tasks id)), d))
      → (ts : List CompactTask) × (decode_all core
            (map (λ id. data_of id d) ids)
            (map (λ id. meta_of id d) ids)
          ≡ ok ts)
        × (map into_full_compact ts ≡ map tasks ids)
  unfolding decode_all data_of meta_of contains
  decode_all-found core tasks [] d h = ([], refl, refl)
  decode_all-found core tasks (id ∷ ids) d h =
      let (payload, task, e, f, same) =
        fetch_by_id-decode R core c id (tasks id) d (h id (if_pos (text_dec id id) refl true _)) in
      let (ts, g, rest) = decode_all-found core tasks ids d (λ j i. h j (ground (arith, i))) in
      (task ∷ ts, rw (e, f, g), cc (same, rest))

  listed :
      (core : Core) (tasks : Text → RedisTask) (ids : List Text) (d : Db)
      → ((id : Text)
          → contains id ids ≡ true
          → fetch_by_id R core c id d ≡ (ok (some (tasks id)), d))
      → decoded
          (deserialize_with_meta core (reply_of R (job_data_hash c) (job_meta_hash c) ids d))
          d
        ≡ (ok (map tasks ids), d)
  unfolding reply_of data_of meta_of
  listed core tasks ids d h =
      let (ts, e, same) = decode_all-found core tasks ids d h in
      let vs = map (λ id. data_of id d) ids in
      let ms = map (λ id. meta_of id d) ids in
      let run =
        deserialize_with_meta-ok core vs ms ts
          (length-map (λ id. data_of id d) ids ∙ sym (length-map (λ id. meta_of id d) ids)) e in
      ap (λ r. decoded r d) run ∙ ap (λ l. (ok l, d)) same

  pages-count :
      (sort : List Text → List Text) (filter : Text) (n size : ℕ) (d : Db) (j : Text)
      → count j (
          all_pages
            (λ p. shown R (job_meta_hash c) filter (page_ids R sort (job_data_hash c) p size d) d)
            n)
        ≡ (if wanted filter d j then count j (pages R c sort n size d) else 0)
  unfolding all_pages pages count
  pages-count sort filter zero size d j = ground arith
  pages-count sort filter (suc n) size d j =
      let page = page_ids R sort (job_data_hash c) (suc n) size d in
      ground (
        arith,
        count-append j
            (all_pages
              (λ p. shown R (job_meta_hash c) filter (page_ids R sort (job_data_hash c) p size d) d)
              n)
            (shown R (job_meta_hash c) filter page d),
        count-append j (pages R c sort n size d) page,
        pages-count sort filter n size d j,
        count-shown filter page d j,
      )

  -- Where every stored task can be fetched by its id, a listing of all tasks succeeds on every page
  -- and shows these tasks: in one state of the server, the first pages, one after the other, show a
  -- stored task that the filter asks for as often as the hash of the data lists it, and no other, if
  -- there are enough pages. `sort` is any function that reorders a list.
  pub list_all_tasks-pages :
      (core : Core) (f : Filter) (sort : List Text → List Text) (tasks : Text → RedisTask) (n : ℕ)
      (d : Db)
      → ((s : List Text) → Perm (sort s) s)
      → length (sort (R.hkeys d (job_data_hash c))) ≤ n * size_of f
      → ((id : Text)
          → contains id (fields_of ((keyspace d).hash (job_data_hash c))) ≡ true
          → fetch_by_id R core c id d ≡ (ok (some (tasks id)), d))
      → (page : ℕ → List Text) × ((p : ℕ)
          → list_all_tasks R sort core c (record f { page = p }) d ≡ (ok (map tasks (page p)), d))
        × ((j : Text)
            → count j (all_pages page n) ≡ (
                if wanted (status_str f) d j
                then count j (fields_of ((keyspace d).hash (job_data_hash c)))
                else 0))
  unfolding list_all_tasks list_all_tasks_lua page_ids
  list_all_tasks-pages core f sort tasks n d perm enough found =
      let data_hash = job_data_hash c in
      let all : (j : Text)
          → contains j (sort (R.hkeys d data_hash))
            ≡ contains j (fields_of ((keyspace d).hash data_hash)) =
        λ j.
          contains-perm j (perm (R.hkeys d data_hash))
          ∙ contains-perm j (R.hkeys-perm d data_hash) in
      (
        λ p. shown R (job_meta_hash c) (status_str f) (page_ids R sort data_hash p (size_of f) d) d,
        λ p. listed core tasks _ d (λ id i. found id (
            sym (all id)
            ∙ contains-page_of id p (size_of f) (sort (R.hkeys d data_hash))
                (contains-shown (status_str f) _ d id i))),
        λ j.
            pages-count sort (status_str f) n (size_of f) d j
            ∙ ap (λ k. if wanted (status_str f) d j then k else 0)
                (count-perm j (pages-Perm R c sort perm n (size_of f) d enough)),
      )
