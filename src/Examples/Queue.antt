-- ===== src/Examples/Queue.antt =====
-- Fetching, and the results of what was fetched.
use apalis_redis.Prelude.{
  ◌+◌, ◌≤◌, ◌≡◌, refl, ◌||◌, arith, false, none, some, List, [], ◌∷◌, ◌++◌, Text, bytes, text_dec,
  length, if◌then◌else◌,
}
use apalis_redis.Prelude.Assoc.{lookup, contains, insert_all, add_all, remove}
use apalis_redis.Redis.{put}
use apalis_redis.Redis.Reference.{reference}
use apalis_redis.Script.{ok, err, error, database, raised, not_executed}
use apalis_redis.Config.{
  active_jobs_list, inflight_set_for, inflight_jobs_set, scheduled_jobs_set, done_jobs_set,
  dead_jobs_set,
}
use apalis_redis.Fetch.{fetch_next}
use apalis_redis.Fetch.Next.{due, ready, batch, fetch_next-takes, fetch_next-bounded}
use apalis_redis.Results.{Ack, TaskResult, acks_of, handle_results}
use apalis_redis.Results.Steps.{Held, remove_all, done_ids, dead_ids, retries}
use apalis_redis.Results.Routing.{handle_results-routes, handle_results-refuses}
use apalis_redis.Examples.Fixture.{config, worker, server, core, is_registered}

fetch_next-takes_example :
    let d' = (fetch_next reference core worker config 95 server).1 in
    (batch reference config worker 95 server ++ d'.list (active_jobs_list config)
      ≡ ready reference config worker 95 server)
    × (contains (bytes "t3") (d'.set (inflight_set_for config (bytes "w"))) ≡ (
        contains (bytes "t3") (batch reference config worker 95 server)
        || contains (bytes "t3") (server.set (inflight_set_for config (bytes "w")))))
    × (lookup (bytes "t3") (d'.zset (scheduled_jobs_set config)) ≡ (
        if contains (bytes "t3") (due reference config worker 95 server)
        then none
        else lookup (bytes "t3") (server.zset (scheduled_jobs_set config))))
fetch_next-takes_example =
    fetch_next-takes reference config worker 95 core server is_registered (bytes "t3")

fetch_next-bounded_example :
    length (ready reference config worker 95 server)
    ≤ length ((fetch_next reference core worker config 95 server).1.list (active_jobs_list config))
      + 2
fetch_next-bounded_example =
    fetch_next-bounded reference config worker 95 core server is_registered (omega arith)

abbrev result : Text → Text → TaskResult
result id status = record {
  task_id = id;
  status = status;
  attempt = 1;
  result = some (bytes "null");
}

abbrev ack : Text → Text → Ack
ack id status = record {
  task_id = id;
  timestamp = 200;
  result_data = bytes "null";
  status = status;
  attempt = 1;
}

abbrev results : List TaskResult
results = result (bytes "t1") (bytes "Done") ∷ result (bytes "t2") (bytes "Failed") ∷ []

abbrev acks : List Ack
acks = ack (bytes "t1") (bytes "Done") ∷ ack (bytes "t2") (bytes "Failed") ∷ []

acks_of-results : acks_of 200 results ≡ some acks
unfolding acks_of
acks_of-results = refl

acks-Held : Held (server.set (inflight_set_for config (bytes "w"))) acks
unfolding contains remove put text_dec inflight_set_for inflight_jobs_set
acks-Held = (refl, (refl, tt))

handle_results-routes_example :
    let r = handle_results reference worker config 200 results server in
    (r.0 ≡ ok tt)
    × (r.1.set (inflight_set_for config (bytes "w"))
        ≡ remove_all acks (server.set (inflight_set_for config (bytes "w"))))
    × (r.1.set (done_jobs_set config) ≡ add_all (done_ids acks) (server.set (done_jobs_set config)))
    × (r.1.zset (scheduled_jobs_set config)
        ≡ insert_all (retries acks) (server.zset (scheduled_jobs_set config)))
    × (r.1.set (dead_jobs_set config) ≡ add_all (dead_ids acks) (server.set (dead_jobs_set config)))
handle_results-routes_example =
    handle_results-routes reference worker config 200 results acks server acks_of-results acks-Held

abbrev twice : List TaskResult
twice = result (bytes "t1") (bytes "Done") ∷ result (bytes "t1") (bytes "Done") ∷ []

abbrev first_ack : Ack
first_ack = ack (bytes "t1") (bytes "Done")

acks_of-twice : acks_of 200 twice ≡ some ((first_ack ∷ []) ++ first_ack ∷ [])
unfolding acks_of
acks_of-twice = refl

first-Held : Held (server.set (inflight_set_for config (bytes "w"))) (first_ack ∷ [])
unfolding contains remove put text_dec inflight_set_for inflight_jobs_set
first-Held = (refl, tt)

first_gone :
    contains
      (bytes "t1")
      (remove_all (first_ack ∷ []) (server.set (inflight_set_for config (bytes "w"))))
    ≡ false
unfolding contains remove remove_all put text_dec inflight_set_for inflight_jobs_set
first_gone = refl

handle_results-refuses_example :
    let r = handle_results reference worker config 200 twice server in
    (r.0 ≡ err (error (database (raised not_executed))))
    × (contains (bytes "t2") (r.1.set (inflight_set_for config (bytes "w")))
        ≡ contains
            (bytes "t2")
            (remove_all (first_ack ∷ []) (server.set (inflight_set_for config (bytes "w")))))
    × (r.1.set (done_jobs_set config)
        ≡ add_all (done_ids (first_ack ∷ [])) (server.set (done_jobs_set config)))
    × (r.1.zset (scheduled_jobs_set config)
        ≡ insert_all (retries (first_ack ∷ [])) (server.zset (scheduled_jobs_set config)))
    × (r.1.set (dead_jobs_set config)
        ≡ add_all (dead_ids (first_ack ∷ [])) (server.set (dead_jobs_set config)))
handle_results-refuses_example =
    handle_results-refuses reference worker config 200 twice (first_ack ∷ []) [] first_ack server
      (bytes "t2") acks_of-twice first-Held first_gone
