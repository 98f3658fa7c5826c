-- ===== src/Config.antt =====
-- src/config.rs: the settings of a worker's queue, and the names of the Redis keys.
-- Sizes are `usize` and durations `std::time::Duration`, both unbounded above here except where the
-- code narrows or multiplies them.
mod Template
pub mod Keys
use apalis_redis.Prelude.{
  ℕ, ◌+◌, ◌*◌, ◌/◌, ◌%◌, ◌^◌, ◌≡◌, Bool, true, Option, none, some, List, ◌++◌, Text, bytes, ltb,
  if◌then◌else◌,
}
use Template.{replace}

-- Seconds and nanoseconds; the seconds are a `u64`.
pub record Duration : Type 0 where
  pub secs : ℕ
  pub nanos : ℕ

abbrev pub from_secs : ℕ → Duration
from_secs n = record { secs = n; nanos = 0 }

pub record Config : Type 0 where
  pub batch_size : ℕ
  pub heartbeat_interval : Duration
  pub missed_heartbeats : ℕ
  pub queue : Text
  pub database_url : Option Text
  pub lock_tasks : Bool
  pub persist_results : Bool
  pub emit_events : Bool
  pub idempotency_ttl : Option Duration

unfoldable pub default : Config
default = record {
  batch_size = 10;
  heartbeat_interval = from_secs 30;
  missed_heartbeats = 10;
  queue = bytes "default";
  database_url = none;
  lock_tasks = true;
  persist_results = true;
  emit_events = true;
  idempotency_ttl = none;
}

-- The setters of the builder. `batch_size` panics at 0, which is `none`.
unfoldable pub batch_size : ℕ → Config → Option Config
batch_size size c = if ltb 0 size then some (record c { batch_size = size }) else none

unfoldable pub heartbeat_interval : Duration → Config → Config
heartbeat_interval interval c = record c { heartbeat_interval = interval }

unfoldable pub queue : Text → Config → Config
queue name c = record c { queue = name }

unfoldable pub missed_heartbeats : ℕ → Config → Config
missed_heartbeats n c = record c { missed_heartbeats = n }

unfoldable pub database_url : Text → Config → Config
database_url url c = record c { database_url = some url }

unfoldable pub lock_tasks : Bool → Config → Config
lock_tasks b c = record c { lock_tasks = b }

unfoldable pub emit_events : Bool → Config → Config
emit_events b c = record c { emit_events = b }

unfoldable pub persist_results : Bool → Config → Config
persist_results b c = record c { persist_results = b }

unfoldable pub idempotency_ttl : Option Duration → Config → Config
idempotency_ttl ttl c = record c { idempotency_ttl = ttl }

-- `Duration * u32`, which panics when the seconds overflow a `u64`.
unfoldable pub mul_duration : Duration → ℕ → Option Duration
mul_duration d n =
    let nanos = d.nanos * n in
    let secs = d.secs * n + nanos / 1000000000 in
    if ltb secs (2 ^ 64) then some (record { secs = secs; nanos = nanos % 1000000000 }) else none

unfoldable pub orphaned_duration : Config → Option Duration
orphaned_duration c = mul_duration c.heartbeat_interval (c.missed_heartbeats % 2 ^ 32)

-- The key names: the templates with the queue's name in place of `{queue}`.
abbrev key_of : Text → Config → Text
key_of template c = replace (bytes "{queue}") c.queue template

unfoldable pub active_jobs_list : Config → Text
unfolding replace
active_jobs_list = key_of (bytes "{queue}:active")

unfoldable pub workers_set : Config → Text
unfolding replace
workers_set = key_of (bytes "{queue}:workers")

unfoldable pub worker_metadata_key : Config → Text → Text
worker_metadata_key c worker = c.queue ++ (bytes ":workers:metadata:" ++ worker)

unfoldable pub dead_jobs_set : Config → Text
unfolding replace
dead_jobs_set = key_of (bytes "{queue}:dead")

unfoldable pub done_jobs_set : Config → Text
unfolding replace
done_jobs_set = key_of (bytes "{queue}:done")

unfoldable pub failed_jobs_set : Config → Text
unfolding replace
failed_jobs_set = key_of (bytes "{queue}:failed")

unfoldable pub inflight_jobs_set : Config → Text
unfolding replace
inflight_jobs_set = key_of (bytes "{queue}:inflight")

unfoldable pub inflight_set_for : Config → Text → Text
inflight_set_for c worker = inflight_jobs_set c ++ (bytes ":" ++ worker)

unfoldable pub job_data_hash : Config → Text
unfolding replace
job_data_hash = key_of (bytes "{queue}:data")

unfoldable pub job_meta_hash : Config → Text
unfolding replace
job_meta_hash = key_of (bytes "{queue}:meta")

unfoldable pub scheduled_jobs_set : Config → Text
unfolding replace
scheduled_jobs_set = key_of (bytes "{queue}:scheduled")

unfoldable pub signal_list : Config → Text
unfolding replace
signal_list = key_of (bytes "{queue}:signal")

unfoldable pub idempotency_key_set : Config → Text
unfolding replace
idempotency_key_set = key_of (bytes "{queue}:idempotency")
