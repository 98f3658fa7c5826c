-- ===== src/Examples/Reports.antt =====
-- Reports of a small server.
use apalis_redis.Prelude.{
  ℕ, ◌*◌, ◌/◌, ◌≡◌, refl, some, Option, List, [], ◌∷◌, Text, bytes, text_dec,
}
use apalis_redis.Prelude.Decimal.{decimal}
use apalis_redis.Redis.{Keyspace, put}
use apalis_redis.Redis.Reference.{reference, blank}
use apalis_redis.Script.{ScriptError, ok, err, error, database, raised}
use apalis_redis.Metrics.Commands.{commands, scored, highest, typed, fits}
use apalis_redis.Metrics.Json.{Doubles}
use apalis_redis.Metrics.{
  no_totals, without, later, tally, overview_lua, overview_by_queue_lua, fetch_by_queue,
}
use apalis_redis.Metrics.Reports.{overview-one_queue, fetch_by_queue-fails}
use apalis_redis.Examples.Fixture.{config}

-- Rates in whole percents.
abbrev whole : Doubles
whole = record {
  Number = ℕ;
  of_ℕ = λ n. n;
  div = λ a b. (a * 100) / b;
  mul = λ a b. (a * b) / 100;
  two_places = decimal;
}

-- One task waits, and two are in the sorted set of the done tasks, as the script expects them.
abbrev sorted_server : Keyspace
sorted_server = record blank {
  list = put (λ k. []) (bytes "q:active") (bytes "t1" ∷ []);
  zset = put (λ k. []) (bytes "q:done") ((bytes "t2", 99000) ∷ (bytes "t3", 50000) ∷ []);
}

q_counts : tally reference commands whole 100000 no_totals (bytes "q") sorted_server ≡ (
  ok record {
    active = 1;
    done = 2;
    failed = 0;
    inflight = 0;
    past_hour = 1;
    past_day = 2;
    failed_past_week = 0;
    most_recent = 99000;
  },
  sorted_server,
)
unfolding tally put text_dec scored highest typed fits later
q_counts = refl

queue_name : without (bytes ":workers") 0 (bytes "q:workers") ≡ bytes "q"
unfolding without text_dec
queue_name = refl

-- A reader that takes every text.
abbrev reader : Text → Option (List Text)
reader s = some (s ∷ [])

overview-one_queue_example :
    overview_lua reference commands whole [] 100000 (bytes "q" ∷ []) sorted_server
    ≡ overview_by_queue_lua reference commands whole
        (bytes "q:active" ∷ bytes "q:done" ∷ bytes "q:dead" ∷ bytes "q:inflight" ∷ [])
        (some 100000)
        sorted_server
overview-one_queue_example =
    overview-one_queue reference commands whole [] 100000 (bytes "q") sorted_server

fetch_by_queue-fails_example :
    (e : ScriptError) × (fetch_by_queue reference commands whole reader config sorted_server
      ≡ (err (error (database (raised e))), sorted_server))
fetch_by_queue-fails_example =
    fetch_by_queue-fails reference commands whole reader config sorted_server
