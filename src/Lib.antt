-- ===== src/Lib.antt =====
-- Monitra is a monitoring daemon with remote agents. A scheduler checks what is due, damps the
-- outcomes into statuses, records and announces them; agents push the results of local and regional
-- checks; a store keeps monitors, results and alerts; and providers (store, cache, notifier,
-- collector) degrade each in its own way. This library models the parts that decide something, and
-- proves what makes them correct.
--
-- The parts, and where they are modelled (paths are those of the repository):
--   Models, Probe                crates/models/src, crates/probe/src/lib.rs: the shared types.
--   Engine.Scheduler             crates/engine/src/scheduler.rs: the state of `Scheduler`;
--     Resync                     `resync`, which reconciles the registry with the store;
--     Dispatch                   `dispatch_due`, `dispatch_network`, `dispatch_k8s`, `next_deadline`;
--     Results                    `handle_outcome`, `handle_pushed`, `handle_joined`, `apply_result`,
--                                `mark_stale_and_record`;
--     Loop                       `run`: the arms of its `select!` are the events of a step function.
--   Engine.Assignments           the same file's `AssignmentHandle`, which agents drain.
--   Engine.Deadline, Target      the same file's `advance_deadline` and `parse_k8s_target`.
--   Engine.Flap                  crates/engine/src/flap.rs: the damping of outcomes.
--   Engine.Watchdog              crates/engine/src/watchdog.rs: silent agents make monitors stale.
--   Engine.Alerts                crates/engine/src/alerts.rs: delivery and history of alerts.
--   Engine.Writer                crates/engine/src/writer.rs: results are written in batches.
--   Engine.Pruner                crates/engine/src/pruner.rs: old results are removed in batches; Loop
--                                is `run`, which waits until the daemon is ready.
--   Engine.Shutdown              crates/engine/src/lib.rs: the end of the engine's tasks, as a step
--                                relation, since the runtime chooses which of them is next.
--   Provider.Notifier, Cache     crates/provider/src/policy.rs and cache.rs: the retry queue, and the
--                                cache that gives way to the embedded one.
--   Provider.Collector, Error    the statuses of collectors and the errors, of the same crate.
--   Provider.Config, Registry    config.rs and registry.rs of the same crate.
--   Agent.Buffer, Cycle, Checks  crates/agent/src: the push buffer, a cycle, the local checks.
--   Backend.Auth, Ingest         crates/backend/src/auth.rs and ingest.rs: who may call, and which
--                                pushed results reach the scheduler.
--   Backend.Service, Regions     crates/backend/src/service.rs: what a request does with the store, and
--                                the aggregates by region.
--   Backend.Handlers, Error,     monitors.rs, agents.rs, alerts.rs, error.rs, health.rs and
--     Dto, Health                assignments.rs of the same crate: requests, bodies and status codes.
--   Provider.Store               crates/provider/src/traits.rs and policy.rs: the contract of a store,
--                                which the backend is given and `SqliteStore` fills.
--   Storage.Codec, Records       crates/storage/src/codec.rs: rows, and what they are read as.
--   Storage.Rows, Sqlite         crates/storage/src/lib.rs: the statements on a table, and the operations
--                                of `SqliteStore`, with the tables that migrations.rs declares.
--   Collector.Kubernetes         crates/collector-kubernetes/src: the health of a resource, and whose
--                                server and token are used.
--   Tui.App                      crates/tui/src/app.rs: the view state, under keys and snapshots.
--   Startup.Commands, Boot       src/main.rs: the commands that edit the configuration, and what is
--                                checked before the engine starts.
--   Base                         hash maps, bounded queues, lists, sorting, tests and texts that these
--                                share.
--
-- How it is modelled. State is a record, and a method a function from the old state to the new one
-- beside its result or its effects, in the order in which they are made. A hash map is an
-- association list whose first entry of a key counts. What the code does not implement is a
-- parameter: the clocks, the sink of a notifier, the configured cache, the operating system, the
-- floating-point numbers, the UTF-8 encoding, the factory of collectors and the identifiers of
-- tasks. What the store answers is an input of the engine's handler that asks it; the backend's
-- handlers are over any store, and over the SQLite one. Its tables are lists of rows in the order of
-- insertion, a statement is a function on them that SQLite may also refuse by an error of its own,
-- and the id of a new row is a parameter. Integers are natural numbers, and those of SQLite integers;
-- where the source casts, saturates or may overflow, the bound is written out. The only fuel is the
-- pruner's own number of batches; every other function recurs on its input.
--
-- Not modelled: network and file I/O, the routing of HTTP requests and their JSON, the run of the
-- migrations, the grammar of the command line, the drawing of the terminal interface, and the HTTP
-- client of Kubernetes and its factory. The channels between the tasks are the runtime's: a full one
-- drops what is submitted, and that is not followed here; that a task which is told to stop returns
-- some time is what its own loop does.
pub mod Base
pub mod Models
pub mod Probe
pub mod Provider
pub mod Agent
pub mod Engine
pub mod Backend
pub mod Storage
pub mod Tui
pub mod Collector
pub mod Startup
