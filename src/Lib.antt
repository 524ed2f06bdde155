-- ===== src/Lib.antt =====
-- A model of local-agent-dispatch, a scheduler that places coding jobs on local and remote workers,
-- with the theorems that make its core correct. What the scheduler decides rests on evidence that
-- may be missing or old, so that each decision has three outcomes: safe, unknown and refused.
--
-- The parts, and how they interact:
-- - Api: the messages of the worker interface (src/local_agent_dispatch/api/contracts.py) and the
--   freshness of an observation (api/_validation.py). The checks of `__post_init__` are not here: the
--   worker takes messages that have passed them.
-- - Worker: the projection of one worker, `WorkerState` (src/local_agent_dispatch/worker/state.py).
--   State has its fields and small helpers, Usage has `reconcile_usage`, Apply the five `apply_`
--   handlers, and Status the read side. `deliver` runs a session, in which a message that is refused
--   leaves the state as it was. Accepts, Invariant, History, Terminal, Replay, Reuse, Admission
--   and UsageLaws hold the theorems.
-- - World: the records of observed hosts and `is_stale` (src/local_agent_dispatch/domain/world_state.py).
-- - Topology: paths, the mount that stands for a path, the gate `evaluate_placement`, the ranking of
--   paths, and the fit of GPUs (src/local_agent_dispatch/resources/topology.py).
-- - Scheduler: requests and targets (Model, Evidence), the assessment of one target (Gate, Score and
--   Assess, with Keeps, Amounts and Fit about them), the ranking (Rank, Selection), and, under Book, the
--   `ReservationBook` (src/local_agent_dispatch/scheduler/core.py). The scheduler calls the gate of
--   Topology for the workspace of each target, and reads what the book counts as reserved.
-- - Lifecycle: `project_lifecycle`, the facts of an attempt from its events and rows
--   (src/local_agent_dispatch/domain/lifecycle.py).
-- - Ledger: the append-only store of provenance events (src/local_agent_dispatch/ledger/store.py) over
--   events as JSON objects, with `validate_event` (domain/events.py). Event has the validation, Store
--   `EventStore`, Load its opening on a file, Terminal and Liveness the `LivenessReconciler`. Append,
--   Secrets, Index, Log, Promotion, Conflicts, Replayed, Reopen, Emitted and Preserved
--   hold the theorems.
-- - Packages: versions, constraints and `PackageCatalog.resolve`
--   (src/local_agent_dispatch/packages/manifest.py and catalog.py). Version and Manifest have the data,
--   Catalog the catalog, Order the depth-first order of dependencies, Resolve the backtracking search.
--   Precedence is about versions, Filed about the catalog, Constrained and Tested about constraints,
--   Sound, Topological and Resolved about what is found, Fuel, Visits, Terminates and Quiet about the fuel
--   and the errors of a search, and Acyclic, Requirements, Feasible and Complete about what is there to
--   be found.
-- - Prelude has the shared helpers: Boolean tests, lists, integers and Python's dictionaries in
--   insertion order. Examples has runs on concrete inputs.
--
-- Conventions. An exception is a value of a result type; a method that raises leaves the state as it
-- was, since each writes only after its last test, but for `append_many` and `reconcile` of the ledger,
-- which leave the store that they had made when an append raised. The locks make each method one step. Texts of
-- reasons are tags. Sizes and times are whole numbers (bytes, microseconds), so a fraction of a byte
-- or of a microsecond is not represented. Python's datetime, pathlib, json, hashlib and
-- floating-point numbers are parameters: the records Clock, Calendar, Pathlib, Json, Outside and
-- Floats, the text function of the lifecycle, the functions of the ledger, and, for Python's re module,
-- parse_version and clauses_of of Packages. Each loop is structural recursion on its list, but for the
-- search of a resolution and the visits of its order, on fuel: each call of a search chooses one more
-- name of the catalog, and each open visit is on one more name of the selection, so that one more than
-- there are names is enough.
--
-- Not modelled: the JSON forms of messages and manifests, the checks of manifests and lockfiles, the
-- scheduler policy, the quota evidence, missions and skills; and the command line, the probes that read
-- the machine, the package store on disk and the scripts that run SQL and processes, which are input and
-- output.
mod Prelude
mod Examples
pub mod Api
pub mod Worker
pub mod World
pub mod Topology
pub mod Scheduler
pub mod Lifecycle
pub mod Ledger
pub mod Packages
