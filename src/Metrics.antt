-- ===== src/Metrics.antt =====
-- src/queries/metrics.rs and list_queues.rs with lua/overview.lua and lua/overview_by_queue.lua: the
-- reports for a dashboard. Lua's numbers that are not whole, and the reading of JSON by serde, are
-- parameters. No score is negative, so a bound before the epoch counts what 0 counts.
pub mod Json
pub mod Commands
pub mod Reports
use apalis_redis.Prelude.{
  ℕ, zero, suc, ◌+◌, ◌-◌, ◌*◌, Bool, true, false, Option, none, some, List, [], ◌∷◌, ◌++◌, map,
  Text, bytes, text_dec, take, length, ite, ltb, if◌then◌else◌,
}
use apalis_redis.Prelude.Decimal.{decimal}
use apalis_redis.Redis.{Redis}
use apalis_redis.Script.{
  Lua, Query, error, database, invalid_data, nil_argument, nil_arithmetic, nil_concatenation,
  wrong_type, err, pure, raise, reads, require, invoke, ◌>>=◌, ◌>>◌,
}
use apalis_redis.Config.{Config}
use apalis_redis.Metrics.Json.{Doubles, Totals, rate, stats_json}
use apalis_redis.Metrics.Commands.{Reporting}

abbrev pub no_totals : Totals
no_totals = record {
  active = 0;
  done = 0;
  failed = 0;
  inflight = 0;
  past_hour = 0;
  past_day = 0;
  failed_past_week = 0;
  most_recent = 0;
}

-- `KEYS[i]`, counted from 0 here.
unfoldable pub nth : List Text → ℕ → Option Text
nth [] i = none
nth (k ∷ keys) zero = some k
nth (k ∷ keys) (suc i) = nth keys i

-- `ZRANGE key 0 -1`, of the reply with the scores.
abbrev pub members : List (Text × ℕ) → List Text
members s = map (λ m. m.0) s

-- `if #recent > 0 and tonumber(recent[2]) > most_recent_ts`
unfoldable pub later : Option ℕ → ℕ → ℕ
later none most_recent = most_recent
later (some ts) most_recent = if ltb most_recent ts then ts else most_recent

-- `if #recent_done > 0 then most_recent_ts = tonumber(recent_done[2]) end`
unfoldable pub first_recent : Option ℕ → ℕ
first_recent none = 0
first_recent (some ts) = ts

module _ (R : Redis) (C : Reporting R) (N : Doubles) where
  open R use {Db}

  -- `redis.call` of a reading, on a key that may be missing.
  abbrev pub ask : {A : Type 0} → (Db → Text → Option A) → Option Text → Lua Db A
  ask command none d = (err nil_argument, d)
  ask command (some k) d = require (command d k) wrong_type d

  abbrev pub within : ℕ → ℕ → Db → Text → Option ℕ
  within low high d k = C.zcount d k low high

  unfoldable pub overview_by_queue_lua : List Text → Option ℕ → Lua Db Text
  overview_by_queue_lua keys argv = do
    active_count ← ask C.llen (nth keys 0)
    done_count ← ask C.zcard (nth keys 1)
    failed_count ← ask C.zcard (nth keys 2)
    inflight_count ← ask C.scard (nth keys 3)
    now ← require argv nil_arithmetic
    done_1h ← ask (within (now - 3600) now) (nth keys 1)
    failed_1h ← ask (within (now - 3600) now) (nth keys 2)
    done_24h ← ask (within (now - 86400) now) (nth keys 1)
    failed_24h ← ask (within (now - 86400) now) (nth keys 2)
    failed_7d ← ask (within (now - 604800) now) (nth keys 2)
    recent_done ← ask C.newest (nth keys 1)
    recent_failed ← ask C.newest (nth keys 2)
    pure (
        stats_json N
          record {
            active = active_count;
            done = done_count;
            failed = failed_count;
            inflight = inflight_count;
            past_hour = done_1h + failed_1h;
            past_day = done_24h + failed_24h;
            failed_past_week = failed_7d;
            most_recent = later recent_failed (first_recent recent_done);
          }
          (rate N done_24h (done_24h + failed_24h)))

  -- One round of the loop over the queues.
  unfoldable pub tally : ℕ → Totals → Text → Lua Db Totals
  tally now t q = do
    active_count ← ask C.llen (some (q ++ bytes ":active"))
    done_count ← ask C.zcard (some (q ++ bytes ":done"))
    failed_count ← ask C.zcard (some (q ++ bytes ":dead"))
    inflight_count ← ask C.scard (some (q ++ bytes ":inflight"))
    done_1h ← ask (within (now - 3600) now) (some (q ++ bytes ":done"))
    failed_1h ← ask (within (now - 3600) now) (some (q ++ bytes ":dead"))
    done_24h ← ask (within (now - 86400) now) (some (q ++ bytes ":done"))
    failed_24h ← ask (within (now - 86400) now) (some (q ++ bytes ":dead"))
    failed_7d ← ask (within (now - 604800) now) (some (q ++ bytes ":dead"))
    recent_done ← ask C.newest (some (q ++ bytes ":done"))
    recent_failed ← ask C.newest (some (q ++ bytes ":dead"))
    pure record {
      active = t.active + active_count;
      done = t.done + done_count;
      failed = t.failed + failed_count;
      inflight = t.inflight + inflight_count;
      past_hour = t.past_hour + done_1h + failed_1h;
      past_day = t.past_day + done_24h + failed_24h;
      failed_past_week = t.failed_past_week + failed_7d;
      most_recent = later recent_failed (later recent_done t.most_recent);
    }

  unfoldable pub tally_all : ℕ → List Text → Totals → Lua Db Totals
  tally_all now [] t = pure t
  tally_all now (q ∷ queues) t = do t' ← tally now t q; tally_all now queues t'

  -- The rate over the past day is that of the first queue.
  unfoldable pub day_rate : ℕ → List Text → ℕ → Lua Db N.Number
  day_rate now queues zero = pure (N.of_ℕ 0)
  day_rate now [] (suc total_24h) = raise nil_concatenation
  day_rate now (q ∷ queues) (suc total_24h) = do
    done_24h ← ask (within (now - 86400) now) (some (q ++ bytes ":done"))
    failed_24h ← ask (within (now - 86400) now) (some (q ++ bytes ":dead"))
    pure (N.mul (N.div (N.of_ℕ done_24h) (N.of_ℕ (done_24h + failed_24h))) (N.of_ℕ 100))

  -- The script does not read its keys; the queues are the arguments after the time.
  unfoldable pub overview_lua : List Text → ℕ → List Text → Lua Db Text
  overview_lua keys now queues = do
    t ← tally_all now queues no_totals
    success_rate_24h ← day_rate now queues t.past_day
    pure (stats_json N t success_rate_24h)

  -- `serde_json::from_str(&json).map_err(build_error)`
  abbrev pub read_stats : {A : Type 0} → Option A → Query Db A
  read_stats none = raise (error (database invalid_data))
  read_stats (some a) = pure a

  unfoldable pub global : {A : Type 0} → (Text → Option (List A)) → ℕ → Query Db (List A)
  global from_str now = do
    queues ← reads (λ d. members (R.zrange_all d (bytes "core:apalis:queues")))
    text ← invoke (overview_lua queues now [])
    read_stats (from_str text)

  unfoldable pub fetch_by_queue :
      {A : Type 0} → (Text → Option (List A)) → Config → Query Db (List A)
  fetch_by_queue from_str c = do
    text ← invoke (
        overview_by_queue_lua
          ((c.queue ++ bytes ":active")
            ∷ (c.queue ++ bytes ":done")
            ∷ (c.queue ++ bytes ":dead")
            ∷ (c.queue ++ bytes ":inflight")
            ∷ [])
          none)
    read_stats (from_str text)

-- What is left of a text without a word, `skip` bytes of which are still to be left out.
unfoldable pub without : Text → ℕ → Text → Text
without word skip [] = []
without word (suc skip) (b ∷ s) = without word skip s
without word zero (b ∷ s) =
    if ite (text_dec (take (length word) (b ∷ s)) word) true false
    then without word (length word - 1) s
    else b ∷ without word zero s

module _ (R : Redis) (C : Reporting R) (N : Doubles) where
  open R use {Db}

  unfoldable pub list_queues : {A : Type 0} → (Text → Option (List A)) → ℕ → Query Db (List A)
  list_queues from_str now = do
    workers_sets ← reads (λ d. members (R.zrange_all d (bytes "core:apalis:queues:list")))
    text ←
        invoke
          (overview_by_queue_lua R C N (map (without (bytes ":workers") 0) workers_sets) (some now))
    read_stats R C N (from_str text)
