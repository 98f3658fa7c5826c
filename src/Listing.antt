-- ===== src/Listing.antt =====
-- src/queries/list_tasks.rs with lua/list_tasks.lua and lua/list_all_tasks.lua: pages of tasks. The
-- page and its size are passed as decimal text and read back, so that the scripts have them as
-- numbers.
pub mod Pages
pub mod Complete
pub mod Workers
pub mod AllWorkers
pub mod Registered
use apalis_redis.Prelude.{
  ℕ, zero, suc, ◌-◌, ◌*◌, Bool, true, false, Option, none, some, List, [], ◌∷◌, Text, bytes,
  text_dec, take, drop, ite, leb, if◌then◌else◌,
}
use apalis_redis.Redis.{Redis, Index, front, back}
use apalis_redis.Script.{Lua, Query, pure, reads, invoke, ◌>>=◌, ◌>>◌}
use apalis_redis.Config.{Config, job_data_hash, job_meta_hash}
use apalis_redis.Task.{RedisTask}
use apalis_redis.Lease.{meta_key}
use apalis_redis.Reply.{Value, Core, deserialize_with_meta}
use apalis_redis.Fetch.{reply_of, decoded}

-- What the code reads of apalis-core's `Filter`; the status is printed.
pub record Filter : Type 0 where
  pub status : Option Text
  pub page : ℕ
  pub page_size : Option ℕ

-- `unwrap_or_default()` of the printed status: no status is the empty text.
abbrev pub status_str : Filter → Text
status_str f = elim f.status [ none ↦ [] | some s ↦ s ]

abbrev pub size_of : Filter → ℕ
size_of f = elim f.page_size [ none ↦ 10 | some n ↦ n ]

-- `a - b` as an index.
unfoldable pub minus_index : ℕ → ℕ → Index
minus_index a b = if leb b a then front (a - b) else back (b - suc a)

-- `(page - 1) * page_size` and `start + page_size - 1`.
unfoldable pub start_index : ℕ → ℕ → Index
start_index page size = minus_index (page * size) size

unfoldable pub stop_index : ℕ → ℕ → Index
stop_index page size = minus_index (page * size) 1

-- The entries `start + 1` to `stop + 1` of the sorted entries, of those that there are.
unfoldable pub page_of : ℕ → ℕ → List Text → List Text
page_of zero size s = []
page_of (suc page) size s = take size (drop (page * size) s)

-- `status == status_filter`
abbrev pub has_status : Text → Option Text → Bool
has_status filter none = false
has_status filter (some status) = ite (text_dec status filter) true false

module _ (R : Redis) where
  open R use {Db}

  -- The tasks with the status asked for; the empty text asks for none.
  unfoldable pub shown : Text → Text → List Text → Db → List Text
  shown meta [] ids d = ids
  shown meta (b ∷ filter) [] d = []
  shown meta (b ∷ filter) (id ∷ ids) d =
      let rest = shown meta (b ∷ filter) ids d in
      if has_status (b ∷ filter) (R.hget d (meta_key meta id) (bytes "status"))
      then id ∷ rest
      else rest

  unfoldable pub list_tasks_lua : Text → Text → Text → Text → ℕ → ℕ → Lua Db (List Value)
  list_tasks_lua data_hash meta queue filter page size = do
    ids ← reads (λ d. R.lrange_between d queue (start_index page size) (stop_index page size))
    shown_ids ← reads (shown meta filter ids)
    reads (reply_of R data_hash meta shown_ids)

  -- `sort` is `table.sort` by the order of texts.
  unfoldable pub page_ids : (List Text → List Text) → Text → ℕ → ℕ → Db → List Text
  page_ids sort data_hash page size d = page_of page size (sort (R.hkeys d data_hash))

  -- The code passes the keys of one queue only.
  unfoldable pub list_all_tasks_lua :
      (List Text → List Text) → Text → Text → Text → ℕ → ℕ → Lua Db (List Value)
  list_all_tasks_lua sort data_hash meta filter page size = do
    ids ← reads (page_ids sort data_hash page size)
    shown_ids ← reads (shown meta filter ids)
    reads (reply_of R data_hash meta shown_ids)

  unfoldable pub list_tasks : Core → Config → Filter → Query Db (List RedisTask)
  list_tasks core c f = do
    reply ← invoke (
        list_tasks_lua (job_data_hash c) (job_meta_hash c) c.queue (status_str f) f.page
          (size_of f))
    decoded (deserialize_with_meta core reply)

  unfoldable pub list_all_tasks :
      (List Text → List Text) → Core → Config → Filter → Query Db (List RedisTask)
  list_all_tasks sort core c f = do
    reply ← invoke (
        list_all_tasks_lua sort (job_data_hash c) (job_meta_hash c) (status_str f) f.page
          (size_of f))
    decoded (deserialize_with_meta core reply)
