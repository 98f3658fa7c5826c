-- ===== src/Tracking/Reach.antt =====
-- All that happens to a queue: the queries of its producers and workers, each with settings of its
-- own, as steps on one server, in any order.
use apalis_redis.Prelude.{
  ℕ, ◌≡◌, refl, ◌≢◌, ◌∙◌, sym, subst, Bool, true, false, Option, none, List, [], ◌∷◌, Text,
}
use apalis_redis.Prelude.Assoc.{lookup, contains}
use apalis_redis.Redis.{Redis, Keyspace}
use apalis_redis.Config.{Config, Duration, job_data_hash}
use apalis_redis.Config.Keys.{Role, key, key-same_queue}
use apalis_redis.Task.{RedisTask, WorkerContext}
use apalis_redis.Reply.{Core}
use apalis_redis.Lease.{acquire_leases, renew_leases, release_leases}
use apalis_redis.Worker.{WorkerFilter, register_worker, keep_alive, reenqueue_orphaned}
use apalis_redis.Fetch
use apalis_redis.Results.{TaskResult, handle_results}
use apalis_redis.Push
use apalis_redis.Push.{Codec}
use apalis_redis.Vacuum.{vacuum, vacuum_before}
use apalis_redis.Tracking.{Accounted, unstored, waiting, scheduled, held, done, dead}
use apalis_redis.Tracking.Fetches.{fetch_next-Kept}
use apalis_redis.Tracking.Leases.{acquire_leases-Kept, renew_leases-Kept}
use apalis_redis.Tracking.Releases.{release_leases-Kept}
use apalis_redis.Tracking.Workers.{register_worker-Kept, keep_alive-Kept, reenqueue_orphaned-Kept}
use apalis_redis.Tracking.Outcomes.{handle_results-Kept}
use apalis_redis.Tracking.Vacuums.{vacuum-Kept, vacuum_before-Kept}
use apalis_redis.Tracking.Kit.{Kit}
use apalis_redis.Tracking.Places.{accounts, forget}
use apalis_redis.Tracking.Pushes.{push_tasks-Kept}

-- One query on the queue, whether it succeeds or fails.
pub data Step (R : Redis) (c : Config) (d : R.Db) : R.Db → Type 0 where
  pushes :
      (codec : Codec) (now : ℕ) (tasks : List RedisTask)
      → Step R c d (Push.push_tasks R codec c now tasks d).1
  fetches :
      (core : Core) (w : WorkerContext) (now : ℕ) → Step R c d (Fetch.fetch_next R core w c now d).1
  acquires :
      (w : WorkerContext) (now : ℕ) (ids : List Text)
      → Step R c d (acquire_leases R w c now ids d).1
  renews :
      (tracking : Bool) (w : WorkerContext) (now : ℕ)
      → Step R c d (renew_leases R tracking w c now d).1
  releases :
      (w : WorkerContext) (tasks : List RedisTask) → Step R c d (release_leases R c w tasks d).1
  settles :
      (w : WorkerContext) (now : ℕ) (rs : List TaskResult)
      → Step R c d (handle_results R w c now rs d).1
  registers : (w : WorkerContext) (now : ℕ) → Step R c d (register_worker R w c now d).1
  beats : (w : WorkerContext) (now : ℕ) → Step R c d (keep_alive R w c now d).1
  reclaims : (now : ℕ) (filter : WorkerFilter) → Step R c d (reenqueue_orphaned R c now filter d).1
  vacuums : Step R c d (vacuum R c d).1
  vacuums_before :
      (tonumber : Text → Option ℕ) (time : ℕ) (age : Duration)
      → Step R c d (vacuum_before R tonumber c time age d).1

-- Any number of queries on the queue `q`, each with the settings of the process that runs it.
pub data Reach (R : Redis) (q : Text) (d : R.Db) : R.Db → Type 0 where
  start : Reach R q d d
  further : {m e : R.Db} (c : Config) → q ≡ c.queue → Reach R q d m → Step R c m e → Reach R q d e

abbrev pub is_vacuum : {R : Redis} {c : Config} {d e : R.Db} → Step R c d e → Bool
is_vacuum (pushes codec now tasks) = false
is_vacuum (fetches core w now) = false
is_vacuum (acquires w now ids) = false
is_vacuum (renews tracking w now) = false
is_vacuum (releases w tasks) = false
is_vacuum (settles w now rs) = false
is_vacuum (registers w now) = false
is_vacuum (beats w now) = false
is_vacuum (reclaims now filter) = false
is_vacuum vacuums = true
is_vacuum (vacuums_before tonumber time age) = true

-- No query of the sequence is a vacuum.
abbrev pub Unvacuumed : {R : Redis} {q : Text} {d e : R.Db} → Reach R q d e → Type 0
Unvacuumed start = Unit {0}
Unvacuumed (further c h r s) = Unvacuumed r × (is_vacuum s ≡ false)

-- That an invariant survives the deletion of a task's data.
abbrev pub Forgets : (R : Redis) (c : Config) → Kit R c → Type 0
Forgets R c K = (id : Text) (d : R.Db) → K.P d → K.P (R.hdel (job_data_hash c) (id ∷ []) d)

-- An invariant that survives the moves of a task survives every query.
Step-keep :
    (R : Redis) (c : Config) (K : Kit R c) {d e : R.Db} (s : Step R c d e)
    → (is_vacuum s ≡ true → Forgets R c K)
    → K.P d
    → K.P e
Step-keep R c K (pushes codec now tasks) f p = (push_tasks-Kept R c K codec now tasks).keep _ p
Step-keep R c K (fetches core w now) f p = (fetch_next-Kept R c K core w now).keep _ p
Step-keep R c K (acquires w now ids) f p = (acquire_leases-Kept R c K w now ids).keep _ p
Step-keep R c K (renews t w now) f p = (renew_leases-Kept R c K t w now).keep _ p
Step-keep R c K (releases w tasks) f p = (release_leases-Kept R c K w tasks).keep _ p
Step-keep R c K (settles w now rs) f p = (handle_results-Kept R c K w now rs).keep _ p
Step-keep R c K (registers w now) f p = (register_worker-Kept R c K w now).keep _ p
Step-keep R c K (beats w now) f p = (keep_alive-Kept R c K w now).keep _ p
Step-keep R c K (reclaims now filter) f p = (reenqueue_orphaned-Kept R c K now filter).keep _ p
Step-keep R c K vacuums f p = (vacuum-Kept R c K (f refl)).keep _ p
Step-keep R c K (vacuums_before tonumber time age) f p =
    (vacuum_before-Kept R c K (f refl) tonumber time age.secs age.nanos).keep _ p

-- An invariant of the queue, the same for all settings of one queue.
module _ (R : Redis) (K : (c : Config) → Kit R c)
    (same : (c c' : Config) (d : R.Db) → c.queue ≡ c'.queue → (K c).P d → (K c').P d)
    (c : Config) where
  pub Reach-keep :
      {d e : R.Db}
      → ((c : Config) → Forgets R c (K c))
      → (K c).P d
      → Reach R c.queue d e
      → (K c).P e
  Reach-keep f p start = p
  Reach-keep f p (further {m = m} {e = e} c' q r s) =
      same c' c e (sym q) (Step-keep R c' (K c') s (λ _. f c') (same c c' m q (Reach-keep f p r)))

  pub Reach-keep_unvacuumed :
      {d e : R.Db} → (K c).P d → (r : Reach R c.queue d e) → Unvacuumed r → (K c).P e
  Reach-keep_unvacuumed p start u = p
  Reach-keep_unvacuumed p (further {m = m} {e = e} c' q r s) (u, v) = same c' c e (sym q) (
      Step-keep R c' (K c') s (λ h. absurd (let x : false ≡ true = sym v ∙ h in cc x))
        (same c c' m q (Reach-keep_unvacuumed p r u)))

-- What a task's place is does not depend on the settings beside the queue.
Accounted-same_queue :
    (c c' : Config) (j : Text) (k : Keyspace)
    → c.queue ≡ c'.queue
    → Accounted c j k
    → Accounted c' j k
unfolding key
Accounted-same_queue c c' j k e (unstored h) =
    unstored (subst (λ x. lookup j (k.hash x) ≡ none) (key-same_queue c c' Role.data_hash e) h)
Accounted-same_queue c c' j k e (waiting h) =
    waiting (subst (λ x. contains j (k.list x) ≡ true) (key-same_queue c c' Role.active e) h)
Accounted-same_queue c c' j k e (scheduled h) =
    scheduled (subst (λ x. lookup j (k.zset x) ≢ none) (key-same_queue c c' Role.scheduled e) h)
Accounted-same_queue c c' j k e (held w h) =
    held w (subst (λ x. contains j (k.set x) ≡ true) (key-same_queue c c' (Role.inflight w) e) h)
Accounted-same_queue c c' j k e (done h) =
    done (subst (λ x. contains j (k.set x) ≡ true) (key-same_queue c c' Role.done e) h)
Accounted-same_queue c c' j k e (dead h) =
    dead (subst (λ x. contains j (k.set x) ≡ true) (key-same_queue c c' Role.dead e) h)

-- No task is lost: if at the start a task's data is not stored, or the task is in the active list,
-- the schedule, a worker's inflight set, the done set or the dead set of the queue, then so it is
-- after any sequence of queries on the queue (pushes, fetches, leases acquired, renewed and released,
-- results, registrations, heartbeats, reclaims of orphaned tasks, vacuums), of any processes in any
-- order, each with settings and clock readings of its own, whether the queries succeed or fail.
pub Reach-Accounted :
    (R : Redis) (c : Config) (j : Text) {d e : R.Db}
    → Accounted c j (R.keyspace d)
    → Reach R c.queue d e
    → Accounted c j (R.keyspace e)
Reach-Accounted R c j p r =
    Reach-keep R (λ c. accounts R c j)
      (λ c c' d e p. Accounted-same_queue c c' j (R.keyspace d) e p) c (λ c. forget R c j) p r
