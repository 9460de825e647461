-- ===== src/Lib.antt =====
-- Atomo: the realtime tier, the job queue, the event store, the read cache, the workflows, the request
-- limit, the control plane and the projections.
--
-- The realtime tier (crates/atomo_realtime) is one task that owns all state: a `Worker` with its
-- connected clients, the presence of the channels and the coordinator sessions. It takes up one
-- command at a time and delivers frames to the clients' bounded queues; a delivery that finds a
-- queue closed reaps that client at once, in the middle of the handler, which sends farewells, which
-- may reap more clients.
--   Realtime.Protocol   protocol.rs: the messages, and `from_wire` for what a parsed frame becomes.
--   Realtime.Runtime    what comes from elsewhere: floats, the order on texts, the queues of tokio.
--   Realtime.RateLimit  rate_limit.rs: `new`, `try_acquire`.
--   Realtime.Presence   presence.rs: `join`, `leave`, `subscribers`, `snapshot`, `channel_count`.
--   Realtime.Sessions   sessions.rs: `join`, `leave` (its branches are `leave_found`, `leave_session`,
--                       `leave_rest`, `coordinator_left` and `hand_over`), `coordinator`, `member`,
--                       `is_coordinator`, `roster`, `count`. The indexings `order[0]` and
--                       `members[&new_id]` have the outcome `panics`.
--   Realtime.Hub        hub.rs and client.rs: State has the worker, Delivery what `deliver` and the
--                       reaps do, Commands a handler for each command, under the names of the source;
--                       the others are about what the handlers keep and whom they reach.
-- A handler is a function from the worker to a run, which ends, panics, or is out of fuel. `deliver`
-- and `on_disconnect` call each other; `deliver` takes fuel, and `step` gives it as much as there are
-- clients, which is enough because each reap takes one client away. Iteration over a hash map is in
-- the order of an association list; no statement depends on the order.
--
-- The job queue (crates/atomo_server/src/jobs.rs) is a table in Postgres. Each method is one
-- transaction, and is modelled by what its statements do to the rows.
--   Jobs.Retry          `backoff_secs` and `decide_on_fail`.
--   Jobs.Store          the table, `UPDATE ... WHERE` and `SELECT ... WHERE`, `enqueue`, `enqueue_tx`.
--   Jobs.Methods        `lease`, `heartbeat`, `complete`, `fail`, `reclaim_expired`.
--   Jobs.Views          `get`, `status`.
--   Jobs.Calls          sequences of calls; any interleaving of workers is one.
--   Jobs.Workers        `WorkerIdentity` and `WorkerTokenStore`; the digest of tokens is a parameter.
--   Jobs.Rows           what the statements leave of a row.
--   Jobs.Lifecycle, Tokens, Holding, Failing, Keys, Dispatch   what calls do to a job.
-- The clock (microseconds), the ids and tokens that are drawn and the rows that others have locked
-- are arguments. Ties in the order of a lease are taken in the order of the table. Times that the database
-- cannot represent are not modelled, and the statements of `enqueue_tx` see one state of the table.
--
-- The event store (crates/atomo_server/src/event_store/memory.rs, with the envelopes of
-- crates/atomo_core/src/events) keeps a vector of events with two indexes.
--   Events.Store        the operations, under the names of the source; `append_events` is `conflict`
--                       and then `append_numbered`, whose loops are `assign` and `index_all`.
--   Events.Numbering    versions, global numbers and indexes, and what keeps them right.
--   Events.Reading      what readers and writers can rely on.
--   Events.Snapshots    the snapshot store, under the names of the source.
-- Versions and sequence numbers are counts here: they start at 0 and grow by one for each event.
--
-- The read cache (crates/atomo/src/cache.rs) keeps answers to queries under a generation that every
-- write advances.
--   Cache               the configuration, the entries and the state; `policy`, `enabled`.
--   Cache.Operations    `remove`, `reclaim`, and the loops of `set_if_generation` that make room.
--   Cache.Methods       the methods of `ReadCache`. An invalidation is two steps, since it advances the
--                       generation before it waits for the lock; the others hold the lock.
--   Cache.Accounts, Validity, Eviction, Lookup, Calls   what the methods keep, and what is read.
--   Cache.Coherence     readers and writers of client.rs around the cache, in any interleaving.
-- The loops take as fuel the number of entries, of which each round takes one out. Moments are counts of
-- nanoseconds and arguments of the methods; machine words wrap at 2^64 where the code may wrap.
--
-- The workflow engine (crates/atomo/src/workflow.rs) executes lists of steps.
--   Workflows           definitions and executions, and the seams of the engine: JSON, HTTP, executors.
--   Workflows.Steps     `evaluate_condition`, `execute_step`.
--   Workflows.Engine    `register`, `remove`, `get`, `execute` (its loop is `run_steps`, of `run_step`).
--   Workflows.Listening, Schedule   the listener's and the scheduler's loop bodies, over their engine.
--   Workflows.Outcomes, Retrying    how executions end.
-- What a step does to the world outside is a state that is passed along.
--
-- The HTTP server limits the requests of each address (crates/atomo_server/src/rate_limit.rs).
--   Server.RateLimit    `check` (what it does with one bucket is `check_bucket`), `rate_limit_middleware`.
--   Server.RateLimit.Buckets, Fairness   one bucket over time, and the addresses of a sequence of requests.
-- Instants are counts of nanoseconds; `parse` of an address and the peer's address are arguments.
--
-- The control plane (crates/atomo_control_plane) keeps a registry of projects and makes their instances
-- what the registry wants.
--   ControlPlane        registry.rs, driver.rs, error.rs: the types; `status_str`, `parse_status`.
--   ControlPlane.Registry     registry.rs: each statement on the tables; unique ids and hostnames.
--   ControlPlane.Gateway      caddy.rs: which routes a list of projects gives.
--   ControlPlane.Provisioner  provisioner.rs: `resolve_env`, `materialize_schema`, `start`, `stop`.
--   ControlPlane.Lifecycle    provisioner.rs: `create`, `schema_update`, `delete`.
--   ControlPlane.Reconciler   reconciler.rs: `decide`, `reconcile_one`, `probe_health`, `tick`.
--   ControlPlane.Runtime      what all of it calls: the driver, the secrets, git, files, the gateway.
--   ControlPlane.Drivers      what a driver documents (`IsDriver`), and what the methods keep of it.
--   ControlPlane.Instances, Convergence, Statuses, Ports   what the methods do to instances and names.
-- A method goes from the registry and the state outside to a result and both states; what it did
-- before an error stays done. Calls of the registry's own database do not fail here.
--
-- Projections (crates/atomo_projectors) are read tables that follow the tables of models.
--   Projections         the tables, and what the database asks of an insert.
--   Projections.CurrentState  current_state.rs: `initialize_and_sync`, `refresh`.
--   Projections.Rows, Agreement  what these do to the rows, and to projections over time.
--   Projections.Histories     writers of a model, and notifications on their way, handled and lost.
--   Projections.Replay        projection.rs, projector_manager.rs: `handle_event_connection`,
--                       `rebuild_in`, `process_event`, `rebuild_all`; Tables has `TableProjection`, one
--                       of the manager's projections, over the tables of all.
-- A method is one transaction, which changes nothing where it fails; the locks are not modelled.
--
-- Examples has concrete states at which the theorems apply, and Prelude what the parts share: tests,
-- lists, maps, integers, and runs of methods.
--
-- Not modelled: sockets, HTTP and JSON; the numbering of connections in `Hub::connect`; the reads
-- `list_recent` and `stats` of the job store, the event store in Postgres;
-- `from_env` of the cache and of the request limit; the maintenance task of the cache; the table in
-- which workflows are kept; the control plane's HTTP interface, Docker, extensions and stores of secrets;
-- and the other crates (queries, schema parsers, CLI).
pub mod Prelude
pub mod Realtime
pub mod Jobs
pub mod Events
pub mod Cache
pub mod Workflows
pub mod Server
pub mod ControlPlane
pub mod Projections
pub mod Examples
