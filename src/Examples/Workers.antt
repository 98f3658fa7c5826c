-- ===== src/Examples/Workers.antt =====
-- The worker heard of at 100, at later times.
use apalis_redis.Prelude.{◌≡◌, refl, ◌-◌, ◌++◌, arith, some, [], Perm, bytes, text_dec}
use apalis_redis.Prelude.Assoc.{lookup, IsMap}
use apalis_redis.Redis.{put}
use apalis_redis.Redis.Reference.{reference}
use apalis_redis.Script.{ok}
use apalis_redis.Config.{
  from_secs, workers_set, scheduled_jobs_set, active_jobs_list, inflight_set_for,
}
use apalis_redis.Worker.{all_except, reenqueue_orphaned}
use apalis_redis.Worker.Orphans.{Recovers, reenqueue_orphaned-all, reenqueue_orphaned-spares}
use apalis_redis.Persist.{register}
use apalis_redis.Persist.Handling.{register-takes_over}
use apalis_redis.Examples.Fixture.{config, worker, server, last_seen, silence}

reenqueue_orphaned-all_example :
    Recovers reference config
      (reference.zrangebyscore server (workers_set config) (160 - 60))
      server
      (bytes "w")
      (reenqueue_orphaned reference config 160 (all_except (bytes "v")) server)
reenqueue_orphaned-all_example =
    reenqueue_orphaned-all reference config 160 (bytes "v") (from_secs 60) server (bytes "w")
      silence (omega arith)

workers-IsMap : IsMap (server.zset (workers_set config))
unfolding lookup put text_dec workers_set scheduled_jobs_set
workers-IsMap = (refl, tt)

reenqueue_orphaned-spares_example :
    let d' = (reenqueue_orphaned reference config 159 (all_except (bytes "v")) server).1 in
    (d'.set (inflight_set_for config (bytes "w"))
      ≡ server.set (inflight_set_for config (bytes "w")))
    × (lookup (bytes "w") (d'.zset (workers_set config)) ≡ some 100)
reenqueue_orphaned-spares_example =
    reenqueue_orphaned-spares reference config 159 100 (bytes "v") (from_secs 60) server (bytes "w")
      silence (omega arith) workers-IsMap last_seen (omega arith)

register-takes_over_example :
    let r = register reference config worker 130 131 server in
    (r.0 ≡ ok tt)
    × (lookup (bytes "w") (r.1.zset (workers_set config)) ≡ some 131)
    × Perm
        (r.1.list (active_jobs_list config))
        (server.list (active_jobs_list config) ++ server.set (inflight_set_for config (bytes "w")))
    × (r.1.set (inflight_set_for config (bytes "w")) ≡ [])
register-takes_over_example =
    register-takes_over reference config worker 130 131 100 (from_secs 60) server silence
      (omega arith) last_seen (omega arith)
