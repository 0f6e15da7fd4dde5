-- ===== src/Lib.antt =====
-- PortForge: a verification of the port registry's core.
--
-- PortForge keeps track of which ports are in use on a fleet of hosts. An agent on each host
-- discovers listeners, evaluates them against a local file of reservations and recommends free
-- ports; a central server keeps, for all hosts, the observed ports, reservations, atomic bundles of
-- reservations (allocations), bind probes that it asks agents to make, and agent upgrades.
--
-- Prelude passes on the library's names, and adds tests into Bool, tables as lists (Lists), texts
-- with `strip` and `lower` of ASCII (Text), and results that may be errors (Result).
--
-- Central is the server, backend/app. A database is a record of tables (Tables), and each service
-- function takes one and returns a result and a new one; an error carries none, since the
-- transaction is rolled back. The values are in Vocabulary.
-- - Health: schemas/health_status.py, `derive_health_state`.
-- - Reservations: services/reservation_service.py and its repository. Unique: the bindings.
-- - Probes: services/probe_service.py and its repository. Queue: the bound on open probes.
--   Evidence: what counts as evidence.
-- - Search: services/recommendation_service.py, and `resolve_with_probe_awareness`. Candidates: the
--   search itself. Resolve: its refinement by evidence, with fuel 5, the source's bound.
-- - Allocations: services/allocation_service.py. Candidates: the choice of each port. Bundle: a
--   whole bundle. Exclusive, Replay, Release: what creation, repetition and release promise.
-- - Versions: services/version_compare.py and services/compatibility_service.py.
-- - Upgrades: services/upgrade_service.py. Progress: the state machine. Rows and Single: at most
--   one upgrade of a host in flight.
-- - Lifecycle: services/host_lifecycle_service.py. Decommission: what is left of a host.
-- - Canonical: `_canonicalize_observations` of services/ingestion_service.py. Groups and Unique: one
--   observation for each binding.
-- - Ingestion: `ingest_snapshot`, with repositories/port_repository.py. Lookup, Mirror, Snapshots: the
--   table of current ports as a map. Described: a row as it is to be. Delivery and Repeats: refused,
--   late and repeated snapshots. History: the log of events. Rows: the unique constraint.
-- - Conflicts: services/conflict_service.py. Agreement: the agent's rule.
-- - Hosts: repositories/host_repository.py and the heartbeat of services/host_service.py.
-- - Enrollment: services/enrollment_service.py, repositories/agent_repository.py and `require_agent`
--   of security/auth.py. Tokens and Credentials: what a token and a credential give.
-- - Samples and Tests: the theorems at concrete inputs.
--
-- Agent is the agent, agent/portforge_agent, with its reservation file as the list of its rows.
-- - Records: models.py and reservations/models.py. Evaluate: evaluate.py.
-- - Reserve: reserve_ops.py. Ownership: other projects' rows. Slots, History: sequences of commands.
-- - Discovery: discovery.py, over what collectors return. Merge: native and Docker listeners.
-- - Purpose: `_resolve` of detection/purpose.py. Votes and Majority: the category with most signals.
-- - Mutations: apply and rollback of config_manager.py, a file system as a function from paths.
--   Restore: a failure undone. Traces and Rollback: an application undone.
-- - Workflow: workflow.py, over a client and a planner. Compensation: what a failure leaves.
-- - Recommend: recommend.py and the ranges of config.py. The loop over a range has the range's
--   length as fuel. Sequence: the first passing port. Exclusive: no port is given twice.
-- - Tests: the theorems at concrete inputs.
--
-- Ids are numbers that are only compared, times are microseconds, and a request reads the clock
-- once. The advisory lock of a host, and the lock of the reservation file, make each call one step.
-- Parameters stand for SHA-256 over canonical JSON (`digest`), for the order of versions of the
-- package `packaging` (`Versions`), for the file name of a URL, for the socket bind of the agent,
-- for the detection of projects (`enrich_ports`), and for path resolution, hashing, parsing and the
-- system's refusals to write a file (`World`), each of which is an `OSError`, caught or not as in
-- the source. A file that exists can be read. The server behind the agent's client and the planner
-- of file changes are parameters without hypotheses.
-- Rows with one `created_at` count in the order of insertion. The texts of messages, summaries and
-- explanations are left out.
--
-- Not modelled: HTTP, parsing and database access; the dashboard's queries; the agent's collectors,
-- runtime, upgrade handler, file formats and command line; the dashboard.
pub mod Prelude
pub mod Central
pub mod Agent
