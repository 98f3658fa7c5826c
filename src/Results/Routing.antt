-- ===== src/Results/Routing.antt =====
-- Where the tasks of a list of results go.
use apalis_redis.Prelude.{
  ℕ, ◌+◌, ◌≡◌, refl, sym, ◌∙◌, ap, false, some, List, [], ◌∷◌, ◌++◌, Text, text_dec, if_pos, if_neg,
  length, append-nil,
}
use apalis_redis.Prelude.Assoc.{contains, insert_all, add_all, remove, contains-remove}
use apalis_redis.Redis.{Redis, put-ne}
use apalis_redis.Redis.Laws.{effects}
use apalis_redis.Script.{ok, err, error, database, raised, not_executed, next, received, pure, Lua}
use apalis_redis.Config.{
  Config, inflight_set_for, done_jobs_set, dead_jobs_set, scheduled_jobs_set, job_meta_hash,
}
use apalis_redis.Config.Keys.{inflight-ne-done, inflight-ne-dead, done-ne-dead}
use apalis_redis.Task.{WorkerContext}
use apalis_redis.Results.{Ack, TaskResult, acks_of, handle_results, handle_results_lua}
use apalis_redis.Results.Steps.{
  Held, remove_all, done_ids, dead_ids, retries, handle_result-not_held,
}
use apalis_redis.Results.Many.{many, many-inflight, many-done, many-dead, many-zset, loop-append}

contains-remove_absent :
    (j k : Text) (s : List Text) → contains k s ≡ false → contains j (remove k s) ≡ contains j s
contains-remove_absent j k s h = elim (text_dec k j) [
  | yes e ↦ contains-remove j k s ∙ if_pos (text_dec k j) e _ _ ∙ sym h ∙ ap (λ i. contains i s) e
  | no n ↦ contains-remove j k s ∙ if_neg (text_dec k j) n _ _
]

module _ (R : Redis) (w : WorkerContext) (c : Config) (now : ℕ) where
  open R use {Db, keyspace}

  abbrev script : List Ack → ℕ → Lua Db ℕ
  script acks n d =
      handle_results_lua R (inflight_set_for c w.name) (done_jobs_set c) (dead_jobs_set c)
        (scheduled_jobs_set c) (job_meta_hash c) c.emit_events acks n d

  abbrev handled : List Ack → Db → Db
  handled acks d =
      many R (inflight_set_for c w.name) (done_jobs_set c) (dead_jobs_set c) (scheduled_jobs_set c)
        (job_meta_hash c) c.emit_events acks d

  -- The query is the script on the arguments that the results come to.
  handle-run :
      (ps : List TaskResult) (acks : List Ack) (d : Db)
      → acks_of now ps ≡ some acks
      → handle_results R w c now ps d ≡ next (received (script acks 0 d)) (λ _. pure tt)
  unfolding handle_results handle_results_lua acks_of
  handle-run [] acks d e = let none_left : acks ≡ [] = cc in rw none_left
  handle-run (p ∷ ps) acks d e = rw e

  loop :
      (pre rest : List Ack) (d : Db)
      → Held ((keyspace d).set (inflight_set_for c w.name)) pre
      → script (pre ++ rest) 0 d ≡ script rest (0 + length pre) (handled pre d)
  loop pre rest d h =
      loop-append R _ _ _ _ _ c.emit_events (inflight-ne-done c w.name) (inflight-ne-dead c w.name)
        (done-ne-dead c) pre rest 0 d h

  -- Results that can be serialized, of tasks that the worker holds and each listed once, are all
  -- accepted, and each task leaves the inflight set: those with the status Done join the done set,
  -- those that Failed or are Pending with fewer than 25 attempts are scheduled again at the current
  -- time plus their attempts, and the others join the dead set; no other task enters or leaves these
  -- sets.
  pub handle_results-routes :
      (ps : List TaskResult) (acks : List Ack) (d : Db)
      → acks_of now ps ≡ some acks
      → Held ((keyspace d).set (inflight_set_for c w.name)) acks
      → let (r, d') = handle_results R w c now ps d in
        (r ≡ ok tt)
        × ((keyspace d').set (inflight_set_for c w.name)
            ≡ remove_all acks ((keyspace d).set (inflight_set_for c w.name)))
        × ((keyspace d').set (done_jobs_set c)
            ≡ add_all (done_ids acks) ((keyspace d).set (done_jobs_set c)))
        × ((keyspace d').zset (scheduled_jobs_set c)
            ≡ insert_all (retries acks) ((keyspace d).zset (scheduled_jobs_set c)))
        × ((keyspace d').set (dead_jobs_set c)
            ≡ add_all (dead_ids acks) ((keyspace d).set (dead_jobs_set c)))
  unfolding handle_results_lua
  handle_results-routes ps acks d e h =
      let ne = inflight-ne-done c w.name in
      let nx = inflight-ne-dead c w.name in
      let run : script acks 0 d ≡ (ok (0 + length acks), handled acks d) =
        ap (λ l. script l 0 d) (sym (append-nil acks)) ∙ loop acks [] d h in
      rw (handle-run ps acks d e, run)
        (
          refl,
          many-inflight R _ _ _ _ _ c.emit_events ne nx (done-ne-dead c) acks d,
          many-done R _ _ _ _ _ c.emit_events ne nx (done-ne-dead c) acks d,
          many-zset R _ _ _ _ _ c.emit_events ne nx (done-ne-dead c) acks d,
          many-dead R _ _ _ _ _ c.emit_events ne nx (done-ne-dead c) acks d,
        )

  -- At the first result of a task that the worker does not hold, or of one that an earlier result of
  -- the list was about, the call fails. What it did for the earlier results stays, and the later
  -- ones are not looked at.
  pub handle_results-refuses :
      (ps : List TaskResult) (pre rest : List Ack) (a : Ack) (d : Db) (j : Text)
      → acks_of now ps ≡ some (pre ++ a ∷ rest)
      → Held ((keyspace d).set (inflight_set_for c w.name)) pre
      → contains a.task_id (remove_all pre ((keyspace d).set (inflight_set_for c w.name))) ≡ false
      → let (r, d') = handle_results R w c now ps d in
        (r ≡ err (error (database (raised not_executed))))
        × (contains j ((keyspace d').set (inflight_set_for c w.name))
            ≡ contains j (remove_all pre ((keyspace d).set (inflight_set_for c w.name))))
        × ((keyspace d').set (done_jobs_set c)
            ≡ add_all (done_ids pre) ((keyspace d).set (done_jobs_set c)))
        × ((keyspace d').zset (scheduled_jobs_set c)
            ≡ insert_all (retries pre) ((keyspace d).zset (scheduled_jobs_set c)))
        × ((keyspace d').set (dead_jobs_set c)
            ≡ add_all (dead_ids pre) ((keyspace d).set (dead_jobs_set c)))
  unfolding handle_results_lua
  handle_results-refuses ps pre rest a d j e h absent =
      let inflight = inflight_set_for c w.name in
      let ne = inflight-ne-done c w.name in
      let nx = inflight-ne-dead c w.name in
      let left = many-inflight R _ _ _ _ _ c.emit_events ne nx (done-ne-dead c) pre d in
      let gone : contains a.task_id ((keyspace (handled pre d)).set inflight) ≡ false =
        ap (contains a.task_id) left ∙ absent in
      rw
        (
          handle-run ps (pre ++ a ∷ rest) d e,
          loop pre (a ∷ rest) d h,
          handle_result-not_held R inflight (done_jobs_set c) (dead_jobs_set c)
              (scheduled_jobs_set c) (job_meta_hash c) c.emit_events a (handled pre d) gone,
        )
        (
          refl,
          simp effects (contains-remove_absent j a.task_id _ gone ∙ ap (contains j) left),
          simp effects (
              put-ne _ inflight _ (done_jobs_set c) ne
              ∙ many-done R _ _ _ _ _ c.emit_events ne nx (done-ne-dead c) pre d),
          simp effects (many-zset R _ _ _ _ _ c.emit_events ne nx (done-ne-dead c) pre d),
          simp effects (
              put-ne _ inflight _ (dead_jobs_set c) nx
              ∙ many-dead R _ _ _ _ _ c.emit_events ne nx (done-ne-dead c) pre d),
        )
