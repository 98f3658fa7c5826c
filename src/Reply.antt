-- ===== src/Reply.antt =====
-- src/queries/fetch_next.rs: decoding the reply of the fetching scripts, two arrays of equal length,
-- the task data and the metadata: for each task its id and then the fields and values of its hash.
-- `TaskId::from_str` and `Status::from_str` are apalis-core's: they are parameters, and an id or a
-- status is kept as the text that they make of it.
pub mod Utf8
mod Number
pub mod RoundTrip
pub mod Arguments
use apalis_redis.Prelude.{
  ℕ, zero, suc, ◌^◌, Bool, true, false, not, Option, none, some, List, [], ◌∷◌, Text, bytes, ◌==◌,
  length, if◌then◌else◌, map,
}
use apalis_redis.Prelude.Assoc.{lookup, insert, erase}
use apalis_redis.Script.{Result, ok, err}
use apalis_redis.Task.{Task, RedisTask}
unfoldable pub use Utf8.{is_utf8}
unfoldable pub use Number.{parse_below}

-- The reply values of the redis crate that the code tells apart.
mutual
  pub data Value : Type 0 where
    bulk_string : Text → Value
    array : Values → Value
    server_error : Value
    other : Value

  pub data Values : Type 0 where
    nil : Values
    cons : Value → Values → Values

unfoldable pub elements : Values → List Value
elements nil = []
elements (cons v vs) = v ∷ elements vs

-- The messages of `build_error`.
pub data DecodeError : Type 0 where
  expected_two expected_exactly_two data_not_array meta_not_array length_mismatch : DecodeError
  invalid_data invalid_metadata metadata_too_short odd_metadata : DecodeError
  not_utf8 not_bulk_string missing arguments : Text → DecodeError
  bad_task_id bad_number bad_status : DecodeError

pub record CompactTask : Type 0 where
  pub args : Text
  pub attempts : ℕ
  pub max_attempts : ℕ
  pub status : Text
  pub task_id : Text
  pub idempotency_key : Option Text
  pub meta : List (Text × Text)
  pub lock_by : Option Text
  pub lock_at : Option ℕ

-- apalis-core's parsers.
pub record Core : Type 0 where
  pub task_id_from_str : Text → Option Text
  pub status_from_str : Text → Option Text

infixl 5 ◌>>=◌ ◌>>◌
abbrev ◌>>=◌ :
    {A B : Type 0} → Result DecodeError A → (A → Result DecodeError B) → Result DecodeError B
ok a >>= f = f a
err e >>= f = err e

abbrev ◌>>◌ : {A B : Type 0} → Result DecodeError A → Result DecodeError B → Result DecodeError B
m >> k = m >>= λ _. k

abbrev ok_or : {A : Type 0} → Option A → DecodeError → Result DecodeError A
ok_or none e = err e
ok_or (some a) e = ok a

abbrev check : Bool → DecodeError → Result DecodeError (Unit {0})
check true e = ok tt
check false e = err e

unfoldable pub str_from_val : Value → Text → Result DecodeError Text
str_from_val (bulk_string s) field = if is_utf8 s then ok s else err (not_utf8 field)
str_from_val (array vs) field = err (not_bulk_string field)
str_from_val server_error field = err (not_bulk_string field)
str_from_val other field = err (not_bulk_string field)

-- The field/value pairs, inserted one after the other; an odd one out was refused before.
unfoldable pub collect : List Value → List (Text × Text) → Result DecodeError (List (Text × Text))
collect [] meta = ok meta
collect (v ∷ []) meta = ok meta
collect (v ∷ w ∷ vs) meta = do
  k ← str_from_val v (bytes "meta key")
  x ← str_from_val w (bytes "meta value")
  collect vs (insert k x meta)

unfoldable pub is_even : ℕ → Bool
is_even zero = true
is_even (suc n) = not (is_even n)

unfoldable pub bulk : Value → DecodeError → Result DecodeError Text
bulk (bulk_string s) e = ok s
bulk (array vs) e = err e
bulk server_error e = err e
bulk other e = err e

unfoldable pub entries : Value → DecodeError → Result DecodeError (List Value)
unfolding elements
entries (array vs) e = ok (elements vs)
entries (bulk_string s) e = err e
entries server_error e = err e
entries other e = err e

-- `.filter(|v| !v.is_empty())`
abbrev pub non_empty : Option Text → Option Text
non_empty none = none
non_empty (some []) = none
non_empty (some (b ∷ s)) = some (b ∷ s)

-- `.map(|a| a.parse().unwrap_or_default())` into a `u64`
abbrev or_default : Option ℕ → ℕ
or_default none = 0
or_default (some n) = n

abbrev pub locked_at : Option Text → Option ℕ
locked_at none = none
locked_at (some s) = some (or_default (parse_below (2 ^ 64) s))

module _ (core : Core) where
  -- The fields of a task out of its metadata; what is left is the task's own metadata.
  pub from_meta : Text → Text → List (Text × Text) → Result DecodeError CompactTask
  from_meta data_bytes id meta = do
    a ← ok_or (lookup (bytes "attempts") meta) (missing (bytes "attempts"))
    attempts ← ok_or (parse_below (2 ^ 32) a) bad_number
    let meta1 = erase (bytes "attempts") meta
    m ← ok_or (lookup (bytes "max_attempts") meta1) (missing (bytes "max_attempts"))
    max_attempts ← ok_or (parse_below (2 ^ 32) m) bad_number
    let meta2 = erase (bytes "max_attempts") meta1
    s ← ok_or (lookup (bytes "status") meta2) (missing (bytes "status"))
    status ← ok_or (core.status_from_str s) bad_status
    let meta3 = erase (bytes "status") meta2
    let meta4 = erase (bytes "idempotency_key") meta3
    let meta5 = erase (bytes "locked_by") meta4
    ok (record {
      args = data_bytes;
      attempts = attempts;
      max_attempts = max_attempts;
      status = status;
      task_id = id;
      idempotency_key = non_empty (lookup (bytes "idempotency_key") meta3);
      meta = erase (bytes "locked_at") meta5;
      lock_by = lookup (bytes "locked_by") meta4;
      lock_at = locked_at (lookup (bytes "locked_at") meta5);
    })

  pub from_fields : Text → List Value → Result DecodeError CompactTask
  unfolding collect is_even str_from_val
  from_fields data_bytes [] = err metadata_too_short
  from_fields data_bytes (id ∷ rest) = do
    id_text ← str_from_val id (bytes "task_id")
    task_id ← ok_or (core.task_id_from_str id_text) bad_task_id
    check (is_even (length rest)) odd_metadata
    meta ← collect rest []
    from_meta data_bytes task_id meta

  pub decode : Value → Value → Result DecodeError CompactTask
  decode data_val meta_val = do
    data_bytes ← bulk data_val invalid_data
    fields ← entries meta_val invalid_metadata
    from_fields data_bytes fields

  -- The loop over both arrays at once.
  unfoldable pub decode_all : List Value → List Value → Result DecodeError (List CompactTask)
  decode_all [] ms = ok []
  decode_all (v ∷ vs) [] = ok []
  decode_all (v ∷ vs) (m ∷ ms) = do task ← decode v m; tasks ← decode_all vs ms; ok (task ∷ tasks)

  unfoldable pub deserialize_with_meta : List Value → Result DecodeError (List CompactTask)
  deserialize_with_meta [] = err expected_two
  deserialize_with_meta (v ∷ []) = err expected_two
  deserialize_with_meta (v ∷ m ∷ x ∷ r) = err expected_exactly_two
  deserialize_with_meta (v ∷ m ∷ []) = do
    job_data ← entries v data_not_array
    metas ← entries m meta_not_array
    check (length job_data == length metas) length_mismatch
    decode_all job_data metas

-- The builder's setters, each given what the reply held; the tasks of a reply have no run time.
abbrev pub built {ℓ} : {A : Type ℓ} → A → CompactTask → Task A
built args t = record {
  args = args;
  task_id = some t.task_id;
  status = t.status;
  attempt = t.attempts;
  max_attempts = some t.max_attempts;
  metadata = t.meta;
  run_at = none;
  idempotency_key = t.idempotency_key;
  lock_by = t.lock_by;
  lock_at = t.lock_at;
}

unfoldable pub into_full_compact : CompactTask → RedisTask
into_full_compact t = built t.args t

-- `codec` is the `decode` of another crate's codec, with its error as text.
unfoldable pub into_full_task :
    {A : Type 0} → (Text → Result Text A) → CompactTask → Result DecodeError (Task A)
into_full_task codec t = elim (codec t.args) [
  | ok args ↦ ok (built args t)
  | err e ↦ err (arguments e)
]
