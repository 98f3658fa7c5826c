-- ===== src/Metrics/Json.antt =====
-- The JSON array of statistics that lua/overview.lua and lua/overview_by_queue.lua return.
use apalis_redis.Prelude.{ℕ, zero, suc, ◌+◌, List, [], ◌∷◌, ◌++◌, Text, bytes}
use apalis_redis.Prelude.Decimal.{decimal}

-- Lua's doubles, and `string.format("%.2f", x)`.
pub record Doubles : Type 1 where
  pub Number : Type 0
  pub of_ℕ : ℕ → Number
  pub div : Number → Number → Number
  pub mul : Number → Number → Number
  pub two_places : Number → Text

-- The counts of a report.
pub record Totals : Type 0 where
  pub active : ℕ
  pub done : ℕ
  pub failed : ℕ
  pub inflight : ℕ
  pub past_hour : ℕ
  pub past_day : ℕ
  pub failed_past_week : ℕ
  pub most_recent : ℕ

unfoldable pub quoted : Text → Text
quoted s = b'"' ∷ (s ++ (b'"' ∷ []))

-- Parts with commas between them, as `table.concat(stats, ',')` makes of the statistics.
unfoldable pub joined : List Text → Text
joined [] = []
joined (s ∷ []) = s
joined (s ∷ stats) = s ++ (bytes "," ++ joined stats)

-- One member of a JSON object.
unfoldable pub field : Text → Text → Text
field name value = quoted name ++ (bytes ":" ++ value)

unfoldable pub push_stat : Text → Text → Text → ℕ → Text
push_stat title stat_type value priority =
    let fields : List Text =
      field (bytes "title") (quoted title)
      ∷ field (bytes "stat_type") (quoted stat_type)
      ∷ field (bytes "value") (quoted value)
      ∷ field (bytes "priority") (decimal priority)
      ∷ [] in
    bytes "{" ++ (joined fields ++ bytes "}")

module _ (N : Doubles) where
  -- `(part / whole) * 100`, or 0 of nothing.
  unfoldable pub rate : ℕ → ℕ → N.Number
  rate part zero = N.of_ℕ 0
  rate part (suc whole) = N.mul (N.div (N.of_ℕ part) (N.of_ℕ (suc whole))) (N.of_ℕ 100)

  abbrev pub count : Text → ℕ → ℕ → Text
  count title n priority = push_stat title (bytes "Number") (decimal n) priority

  abbrev pub percentage : Text → N.Number → ℕ → Text
  percentage title x priority = push_stat title (bytes "Percentage") (N.two_places x) priority

  -- The JSON array that both scripts return.
  unfoldable pub stats_json : Totals → N.Number → Text
  stats_json t success_rate_24h =
      bytes "["
      ++ (joined (
            count (bytes "RUNNING_JOBS") t.inflight 1
            ∷ count (bytes "PENDING_JOBS") t.active 2
            ∷ count (bytes "FAILED_JOBS") t.failed 3
            ∷ count (bytes "DONE_JOBS") t.done 4
            ∷ count (bytes "TOTAL_JOBS") (t.active + t.done + t.failed + t.inflight) 5
            ∷ percentage (bytes "SUCCESS_RATE") (rate t.done (t.done + t.failed)) 6
            ∷ percentage (bytes "FAILURE_RATE") (rate t.failed (t.done + t.failed)) 7
            ∷ push_stat (bytes "MOST_RECENT_JOB") (bytes "Timestamp") (decimal t.most_recent) 8
            ∷ count (bytes "JOBS_PAST_HOUR") t.past_hour 9
            ∷ count (bytes "JOBS_PAST_24_HOURS") t.past_day 10
            ∷ count (bytes "FAILED_JOBS_PAST_7_DAYS") t.failed_past_week 11
            ∷ percentage (bytes "SUCCESS_RATE_PAST_24H") success_rate_24h 12
            ∷ push_stat (bytes "AVG_JOBS_PER_HOUR_PAST_24H") (bytes "Decimal")
                (N.two_places (N.div (N.of_ℕ t.past_day) (N.of_ℕ 24))) 13
            ∷ [])
          ++ bytes "]")
