-- ===== src/WaitFor.antt =====
-- src/queries/wait_for.rs: the results of tasks, as a stream that polls the server. A round of the
-- stream is one step; the server's state at each round is a parameter.
mod Counting
pub mod Verdicts
pub mod Batches
pub mod Delivery
pub mod Finishing
use apalis_redis.Prelude.{
  ℕ, Bool, not, Option, none, some, List, [], ◌∷◌, ◌++◌, Text, bytes, map, if◌then◌else◌,
}
use apalis_redis.Prelude.Assoc.{remove}
use apalis_redis.Redis.{Redis}
use apalis_redis.Script.{
  Query, Result, ok, err, Failure, Error, error, panic, database, json, invalid_data, unparsable,
  pure, reads, ◌>>=◌, ◌>>◌,
}
use apalis_redis.Config.{Config, job_meta_hash}
use apalis_redis.Lease.{meta_key}
use apalis_redis.Reply.{Core, is_utf8}

-- What the code takes from serde_json and the redis crate: a result from its JSON, and a `usize` from
-- a reply; none where they fail.
pub record Reader (Res : Type 0) : Type 0 where
  pub from_slice : Text → Option Res
  pub usize_from_redis : Text → Option ℕ

pub record TaskResult (Res : Type 0) : Type 0 where
  pub task_id : Text
  pub attempt : ℕ
  pub status : Text
  pub result : Res

module _ {Res : Type 0} (core : Core) (reader : Reader Res) where
  -- `attempt.unwrap_or(1)` of the `Option<usize>` that the server replies.
  unfoldable pub attempts_of : Option Text → Result Failure ℕ
  attempts_of none = ok 1
  attempts_of (some t) = elim (reader.usize_from_redis t) [
    | none ↦ err (error (database unparsable))
    | some n ↦ ok n
  ]

  -- A result that is read, and the id of its task; the code unwraps the id.
  unfoldable pub reported :
      Text → ℕ → Option Res → Option Text → Result Failure (Option (TaskResult Res))
  reported status attempt none id = err (error json)
  reported status attempt (some r) none = err panic
  reported status attempt (some r) (some id) =
      ok (some (record { task_id = id; attempt = attempt; status = status; result = r }))

  unfoldable pub completed :
      Text → Text → Option Text → Result Failure ℕ → Result Failure (Option (TaskResult Res))
  completed id status result (err e) = err e
  completed id status none (ok attempt) = ok none
  completed id status (some slice) (ok attempt) =
      reported status attempt (reader.from_slice slice) (core.task_id_from_str id)

  -- What becomes of a task with a status, once that is parsed.
  unfoldable pub judged :
      Text → Option Text → Option Text → Option Text → Result Failure (Option (TaskResult Res))
  judged id none result attempts = err (error (database invalid_data))
  judged id (some status) result attempts = completed id status result (attempts_of attempts)

  -- What becomes of the three fields that are read for a task.
  unfoldable pub verdict :
      Text → Option Text → Option Text → Option Text → Result Failure (Option (TaskResult Res))
  verdict id none result attempts = ok none
  verdict id (some status) result attempts =
      if is_utf8 status
      then judged id (core.status_from_str status) result attempts
      else err (error (database unparsable))

abbrev pub answer : {D A : Type 0} → Result Failure A → Query D A
answer r d = (r, d)

abbrev pub with_new : {A : Type 0} → Option A → List A → List A
with_new none rest = rest
with_new (some a) rest = a ∷ rest

abbrev pub ids_of : {Res : Type 0} → List (TaskResult Res) → List Text
ids_of [] = []
ids_of (r ∷ rs) = r.task_id ∷ ids_of rs

unfoldable pub remove_all : List Text → List Text → List Text
remove_all [] pending = pending
remove_all (id ∷ ids) pending = remove_all ids (remove id pending)

unfoldable pub parsed : Core → List Text → Option (List Text)
parsed core [] = some []
parsed core (t ∷ ts) = elim (core.task_id_from_str t) [
  | none ↦ none
  | some id ↦ elim (parsed core ts) [ none ↦ none | some ids ↦ some (id ∷ ids) ]
]

module _ (R : Redis) {Res : Type 0} (core : Core) (reader : Reader Res) where
  open R use {Db}

  -- The readings have no effect, so that they all come first here. No other client writes between
  -- the readings of one round.
  unfoldable pub check_one : Config → Text → Query Db (Option (TaskResult Res))
  check_one c id = do
    status ← reads (λ d. R.hget d (meta_key (job_meta_hash c) id) (bytes "status"))
    result ← reads (λ d. R.hget d (meta_key (job_meta_hash c) id) (bytes "result"))
    attempts ← reads (λ d. R.hget d (meta_key (job_meta_hash c) id) (bytes "attempts"))
    answer (verdict core reader id status result attempts)

  unfoldable pub check_status : Config → List Text → Query Db (List (TaskResult Res))
  check_status c [] = pure []
  check_status c (id ∷ ids) = do r ← check_one c id; rs ← check_status c ids; pure (with_new r rs)

  -- What a round yields, and the ids that are then pending; none where the code panics.
  unfoldable pub yielded :
      List Text
      → Result Failure (List (TaskResult Res))
      → Option (List (Result Error (TaskResult Res)) × List Text)
  yielded pending (ok rs) = some (map ok rs, remove_all (ids_of rs) pending)
  yielded pending (err (error e)) = some (err e ∷ [], pending)
  yielded pending (err panic) = none

  -- One round, if there are pending ids; `iter` is the order in which the hash set lists them.
  unfoldable pub round :
      (List Text → List Text)
      → Config
      → List Text
      → Db
      → Option (List (Result Error (TaskResult Res)) × List Text)
  round iter c pending d = elim (parsed core (iter pending)) [
    | none ↦ none
    | some ids ↦ yielded pending (check_status c ids d).0
  ]

  -- The stream over the states that the server has at its rounds: what it yields, and what is still
  -- pending; it ends where nothing is pending.
  unfoldable pub rounds :
      (List Text → List Text)
      → Config
      → List Text
      → List Db
      → Option (List (Result Error (TaskResult Res)) × List Text)
  rounds iter c [] ds = some ([], [])
  rounds iter c (id ∷ pending) [] = some ([], id ∷ pending)
  rounds iter c (id ∷ pending) (d ∷ ds) = elim (round iter c (id ∷ pending) d) [
    | none ↦ none
    | some (items, pending') ↦ elim (rounds iter c pending' ds) [
      | none ↦ none
      | some (more, left) ↦ some (items ++ more, left)
    ]
  ]
