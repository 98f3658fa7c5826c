-- ===== src/Lib.antt =====
-- The task queue of apalis-redis: a queue of tasks in Redis, from which workers fetch batches.
--
-- The state of a queue is in a Redis server. The queries (src/queries) call Lua scripts (lua), each of
-- which the server runs as one step. A pushed task has its data in one hash and its metadata in
-- another, and is on the active list or in the scheduled set. A registered worker fetches a batch
-- from the active list into its inflight set, takes a lease on each task, renews the leases with
-- its heartbeats, and hands in the results, by which a task goes to the done set, is scheduled
-- again, or goes to the dead set. The tasks of a worker that falls silent are taken back. After
-- each step that puts tasks on the active list the signal list is raised, which wakes pollers.
--
-- Redis: what the code relies on of the server, as a record of commands with their documented
-- effects, which is a parameter of everything below; Redis.Reference is a server that meets it.
-- Script: how a script or a query runs: state passing with errors, where what was written before an
-- error stays. The arguments of a script are the function's, in the order of KEYS and ARGV.
-- Config: src/config.rs, with the key names; Config.Keys: the keys, which are apart.
-- Task: what is read of a task and of a worker. Signal: raising the signal list.
-- Push: src/queries/push_tasks.rs and lua/batch_push.lua. ULIDs and JSON are parameters (Codec).
-- Fetch and Reply: src/queries/fetch_next.rs and lua/fetch_next.lua; Reply is the decoding of the
-- reply, with Rust's UTF-8 check and number parsing; task ids and statuses are read by apalis-core,
-- whose parsers are parameters (Core), as is the codec of `into_full_task`.
-- FetchById: src/queries/fetch_by_id.rs and lua/fetch_by_id.lua.
-- Lease: src/queries/task_lease.rs and lua/acquire_leases.lua, renew_leases.lua, release_leases.lua.
-- Results: src/queries/handle_results.rs and lua/handle_results.lua.
-- Worker: src/queries/register_worker.rs, keep_alive.rs, reenqueue.rs and their scripts.
-- Vacuum: src/queries/vacuum.rs, lua/vacuum.lua and lua/vacuum_before.lua; the server's clock and
-- Lua's `tonumber` are parameters.
-- WaitFor: src/queries/wait_for.rs. The stream of results is a function of the states that the server
-- has at its rounds.
-- Pubsub and Factory: src/factory.rs, the stream that wakes a worker and the factory that signals it
-- when a task of its queue is announced; the AtomicWaker of the futures crate is a parameter.
-- Listing: src/queries/list_tasks.rs, lua/list_tasks.lua and lua/list_all_tasks.lua; the sort is a
-- parameter. Listing.Workers and Listing.AllWorkers: src/queries/list_workers.rs with
-- lua/list_workers.lua and lua/list_all_workers.lua; the writing and the reading of JSON are
-- parameters.
-- Metrics: src/queries/metrics.rs and list_queues.rs with lua/overview.lua and
-- lua/overview_by_queue.lua; Metrics.Commands is what they rely on of the server's counting commands,
-- with their errors on a key of another type.
-- Storage: the constructors, the layer's settings and `poll_close` of src/lib.rs.
-- Tracking: the queries as steps of any number of processes on one queue, and where a task is. Kit is
-- what an invariant of the places has to survive; Places, Exclusive and Registered are three of them.
-- Persist: src/persist.rs, the calls of a worker, composed of these queries.
-- Examples: the theorems applied to a small queue.
--
-- The loops of the scripts are recursion on lists, so there is no fuel. Times are seconds as natural
-- numbers; the sums of the scripts are doubles in Redis, exact up to 2 ^ 53, and the subtractions of
-- src/queries/reenqueue.rs are checked. A 0 or a missing argument is written out where the code
-- depends on it. Outside Metrics a key is taken to hold a value of the type that the command is for
-- (Config.Keys: the keys that Config makes for a queue are apart). A failed connection is not
-- modelled: every command gets its reply. Neither are the limits of the server: Lua's on the results
-- of `unpack` (some 8000 tasks in one step), and Redis's on a time to live.
--
-- Not modelled: the polling and sink traits of src/lib.rs, which hand over to apalis-core; opening
-- connections and subscribing; the reading of the clock (src/queries/mod.rs), which is a parameter;
-- lua/stats.lua, which nothing calls.
pub mod Prelude
pub mod Redis
pub mod Script
pub mod Config
pub mod Task
pub mod Signal
pub mod Reply
pub mod Lease
pub mod Metrics
pub mod Worker
pub mod Fetch
pub mod FetchById
pub mod Results
pub mod Push
pub mod Vacuum
pub mod Persist
pub mod Tracking
pub mod Pubsub
pub mod Factory
pub mod WaitFor
pub mod Storage
pub mod Listing
pub mod Examples
