-- ===== src/Lib.antt =====
-- The deployment core of easy-deploy, a deployment platform for Docker Compose applications
-- (the crate `api`): planning a deployment, creating and executing its run, canceling it, and
-- recovering after a restart (api/src/deployment_orchestrator.rs), the bounded log that an execution
-- writes (api/src/deployment_retention.rs), the accounts, sessions and API tokens of its users
-- (api/src/auth), and the operation tasks that it shows them (api/src/tasks.rs).
--
-- The parts and their files:
--   * Plan/Types: the data of the planner (lines 14 to 107 of the source).
--   * Plan/Classify: `classify_action`, which decides what becomes of a unit, and
--     `common_previous_fingerprint`. A function of the source with many returns is cut into its
--     branches: `classify_disabled`, `classify_covered`, `classify_versions`.
--   * Plan/Build: `build_deployment_plan`. The map of current states is a list in which the first
--     entry of a key counts; the loops are recursions on the list that is left.
--   * Plan/Waves: `execution_waves`.
--   * Run/Types: the tables that the orchestrator writes, as records of rows in a record `Db`.
--   * Run/Catalog: the tables that it only reads, and `load_deployment_plan`, which `preview` and
--     `create_run` share.
--   * Run/Create: `create_run`. Run/Claim: `claim_deployment_run`, `cancellation_requested` and
--     `start_unit_result`. Run/Wave: `execute_wave`. Run/Outcome: `persist_unit_outcome`.
--     Run/Execute: `execute_run_with_cancellation`. Run/Finalize: `finalize_deployment_run`.
--   * Run/Cancel: `request_cancellation`. Run/Recover: `reconcile_interrupted_runs`. Run/Close:
--     `confirm_interrupted_run_stopped` and `fail_run_on_internal_error`. Run/Counts: the
--     aggregate queries that the last three parts share. Run/Status: the tests on status columns.
--   * Run/History: the operations as steps of the database, one after another.
--   * Retention/Log: `append_redacted` of `BoundedLogBuffer` with the `TaskLogBudget` that it charges;
--     the function is cut into its three steps, `append_head`, `append_tail` and `displace`. Bytes are
--     numbers, the ring of the tail is a list, and the counters do not reach their 64 bits.
--   * Auth/Types: the tables of accounts, sessions, roles and tokens. Auth/Store: the session store in
--     memory, api/src/auth/session_store.rs. Auth/Names: the checks and texts of
--     api/src/auth/service.rs, password.rs and token.rs. Auth/Service: the state of the service, which
--     is the database and the store, and the queries that operations share. Auth/Sessions:
--     `issue_session`, `authenticate_access_token`, `refresh`, `logout` and the revocations.
--     Auth/Accounts: `login`, which is cut into its branches, and the changes of an account.
--     Auth/ApiTokens: the tokens of the API and their quotas;
--     Auth/ApiTokens/Permits, Auth/ApiTokens/Rates and Auth/ApiTokens/Quotas keep the permits of open
--     requests, and the requests that were let in, beside them.
--   * Auth/Changes: the writes that these operations consist of. Auth/History: sequences of the
--     operations; each invariant is proved once for a write.
--   * Task/Types: the tables of operation tasks. Task/Names: the checks of statuses, phases and keys,
--     and the texts, of api/src/tasks.rs. Task/Service: the operations of `TaskService` that create,
--     start and cancel a task and write its log. Task/Finish: those that end it. Task/Phases: its
--     phases. Task/Steps: its steps and node results. Task/Queue: `active_app_task` and
--     `task_queue_position`. Task/Lifecycle, Task/Cancellation, Task/Endings, Task/Shrinks,
--     Task/Exclusive and Task/Current hold proofs.
--   * Prelude: results, Boolean tests, lists, sorting, tables, texts and integers.
-- Each proof stands in a child module of the part that it is about. The modules named Examples run
-- the program on the small inputs of Plan/Fixtures, Run/Fixtures and Auth/Fixtures, on a small log,
-- and on two tasks.
--
-- How the source is read:
--   * Row ids are natural numbers. Stages, orders, exit codes and version codes are integers; the
--     negation in the sort wraps at the least 64-bit integer, as in a release build.
--   * A SQL statement is an update of a list of rows. A transaction either commits a database or
--     fails and changes nothing. A table stands in the order of its ids. Failures of the database
--     itself (I/O, a busy lock) are not modelled, except those of the queries that follow the commit
--     of `authenticate_api_token`; the failures of decoding a NULL are.
--   * A status column is the enumeration of its CHECK constraint. `strftime(.., 'now')` is an
--     argument. A formatted text is the list of its parts. A step's key and a phase's key are the
--     number that they hold.
--   * serde_json and sha2 are parameters: `Digests`, `PlanWriter`, `PlanReader`. Where a theorem
--     relies on serde_json, it says that the document is always serialized, which serde_json does
--     for values without maps and without failing serializers.
--   * The executor of units (a trait object) and the order in which tokio's tasks end are a
--     schedule: each round of a wave reads from it whether the cancellation signal is up, which
--     running unit ends first, and its outcome, where none stands for a task that panicked. The
--     schedule is the fuel of the loop: each round awaits one unit, so that a wave needs no more
--     rounds than it has units.
--   * An operation of the account service yields the new state beside its result, since an error keeps
--     what was written before it. sha2, base64, argon2, the parsing of the scopes of a token and the
--     texts of sqlx's errors are a parameter, `Outside`; random bytes are arguments. The UNIQUE
--     constraints on hashes are part of the model. The maps of the store are association lists; its
--     locks are not modelled, the methods follow one another.
--   * The task service works without transactions in part. The one failure that can follow a write, a
--     log entry of a task that is missing, follows none that changed a row, since the rows of a phase
--     refer to a task; the rows for applications and nodes that foreign keys name are taken to exist.
--   * An execution is one step of a history: a request to cancel that another handler commits
--     between two of its transactions is not modelled, but the signal that the request raises is.
--
-- Not modelled: the registry of cancellation signals, `run_control_for_task`, which is one SELECT,
-- and the other modules of the crate: the web handlers, roles and their permissions, applications and
-- nodes, the runtime that calls docker and ssh, storage, the redaction and the sweeping of logs,
-- health checks and migrations. Of the task service, the lists with their filters,
-- `record_deployment_run` and the rendering of logs are left out, of the account service the first
-- account's bootstrap, `create_account` and the changes of roles.
pub mod Prelude
pub mod Plan
pub mod Run
pub mod Retention
pub mod Auth
pub mod Task
