-- ===== src/Examples/Journeys.antt =====
-- Sequences of queries on one queue.
use apalis_redis.Prelude.{◌≡◌, refl, arith, true, [], ◌∷◌, ◌++◌, bytes, text_dec}
use apalis_redis.Prelude.Assoc.{contains}
use apalis_redis.Redis.{Keyspace, put}
use apalis_redis.Redis.Reference.{reference}
use apalis_redis.Config.{active_jobs_list, inflight_set_for}
use apalis_redis.Fetch.{fetch_next}
use apalis_redis.Fetch.Progress.{fetch_all, fetch_all-reaches}
use apalis_redis.Worker.{only, reenqueue_orphaned}
use apalis_redis.Tracking.{Accounted, waiting}
use apalis_redis.Tracking.Reach.{Reach, start, further, fetches, reclaims, Reach-Accounted}
use apalis_redis.Examples.Fixture.{config, quiet, worker, server, core, is_registered}

waits : contains (bytes "t3") (server.list (active_jobs_list config)) ≡ true
unfolding contains put text_dec active_jobs_list
waits = refl

-- A worker fetches, and a process with other settings takes its tasks back.
abbrev journey_end : Keyspace
journey_end =
    (reenqueue_orphaned reference quiet 500 (only (bytes "w"))
      (fetch_next reference core worker config 95 server).1).1

journey : Reach reference config.queue server journey_end
journey =
    further quiet refl (further config refl start (fetches core worker 95))
      (reclaims 500 (only (bytes "w")))

Reach-Accounted_example : Accounted config (bytes "t3") journey_end
Reach-Accounted_example = Reach-Accounted reference config (bytes "t3") (waiting waits) journey

abbrev busy : Keyspace
busy = record server {
  list =
      put (λ k. []) (active_jobs_list config)
        (bytes "a" ∷ bytes "b" ∷ bytes "c" ∷ bytes "d" ∷ bytes "e" ∷ []);
}

busy_queue :
    busy.list (active_jobs_list config)
    ≡ (bytes "a" ∷ bytes "b" ∷ bytes "c" ∷ []) ++ bytes "d" ∷ bytes "e" ∷ []
unfolding put text_dec active_jobs_list
busy_queue = refl

fetch_all-reaches_example :
    contains (bytes "d") (
      (fetch_all reference config worker core (95 ∷ 96 ∷ []) busy).set
        (inflight_set_for config (bytes "w")))
    ≡ true
fetch_all-reaches_example =
    fetch_all-reaches reference config worker core (bytes "d") (95 ∷ 96 ∷ [])
      (bytes "a" ∷ bytes "b" ∷ bytes "c" ∷ []) (bytes "e" ∷ []) busy is_registered (omega arith)
      busy_queue (omega arith)
