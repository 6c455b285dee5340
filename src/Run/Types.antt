-- ===== src/Run/Types.antt =====
-- The tables that the deployment orchestrator reads and writes, as records of rows
-- (api/src/deployment_orchestrator.rs; the columns are those of api/migrations). A status column is
-- the enumeration of its CHECK constraint. A time stamp is a number: `strftime(.., 'now')` is an
-- argument of each operation. A formatted text is the list of its parts.
use easy_deploy.Prelude.{ℕ, ℤ, String, Option, List, Result}
use easy_deploy.Plan.Types.{DeploymentMode, DeploymentAction, DeploymentPlan}

pub data RunStatus : Type 0 where
  queued running reconciling success partial_failed all_failed canceled : RunStatus

pub data UnitStatus : Type 0 where
  pending running success failed skipped not_started canceled_unknown : UnitStatus

pub data TaskStatus : Type 0 where
  queued running success failed canceled : TaskStatus

pub data TaskPhase : Type 0 where
  queued preflight preparing_files executing healthchecking completed failed canceled : TaskPhase

-- Of a phase and of a step of a task.
pub data StepStatus : Type 0 where
  pending running success failed skipped : StepStatus

pub data EnvironmentStatus : Type 0 where
  configuring ready disabled : EnvironmentStatus

pub data EnvironmentRuntime : Type 0 where
  unknown running partial_unhealthy stopped : EnvironmentRuntime

pub data LastDeployment : Type 0 where
  waiting running success partial_failed all_failed canceled : LastDeployment

-- A part of a formatted text.
pub data Part : Type 0 where
  lit : String → Part
  num : ℕ → Part
  int : ℤ → Part
  run_status : RunStatus → Part
  action : DeploymentAction → Part

abbrev pub Message : Type 0
Message = List Part

pub data OrchestratorError : Type 0 where
  validation conflict not_found database : Message → OrchestratorError

-- A row of `environment_deployment_runs`.
pub record RunRow : Type 0 where
  pub id : ℕ
  pub app_id : ℕ
  pub environment_id : ℕ
  pub app_release_id : ℕ
  pub config_revision_id : ℕ
  pub task_id : Option ℕ
  pub deployment_mode : DeploymentMode
  pub plan_hash : String
  pub plan_json : String
  pub status : RunStatus
  pub summary : Message
  pub created_by : String
  pub started_at : Option ℕ
  pub finished_at : Option ℕ
  pub updated_at : ℕ
  pub cancel_requested_at : Option ℕ
  pub cancel_requested_by : String
  pub reconciled_at : Option ℕ
  pub reconciled_by : String
  pub reconciliation_note : String

-- A row of `deployment_unit_run_results`.
pub record ResultRow : Type 0 where
  pub deployment_run_id : ℕ
  pub unit_id : ℕ
  pub unit_release_id : Option ℕ
  pub stage_no : ℤ
  pub action : DeploymentAction
  pub status : UnitStatus
  pub target_fingerprint : String
  pub previous_fingerprint : String
  pub failure_kind : String
  pub failure_summary : Message
  pub exit_code : Option ℤ
  pub started_at : Option ℕ
  pub finished_at : Option ℕ
  pub updated_at : ℕ

-- A row of `operation_tasks`.
pub record TaskRow : Type 0 where
  pub id : ℕ
  pub task_kind : String
  pub title : Message
  pub app_id : Option ℕ
  pub release_id : Option ℕ
  pub environment_id : Option ℕ
  pub status : TaskStatus
  pub phase : TaskPhase
  pub command : String
  pub summary : Message
  pub exit_code : Option ℤ
  pub created_by : String
  pub started_at : Option ℕ
  pub finished_at : Option ℕ
  pub updated_at : ℕ

-- A row of `operation_task_phases`; `stage_no` is the number in `phase_key`,
-- `deployment-stage-{stage_no}`.
pub record PhaseRow : Type 0 where
  pub id : ℕ
  pub task_id : ℕ
  pub phase_no : ℕ
  pub stage_no : ℤ
  pub title : Message
  pub status : StepStatus
  pub finished_at : Option ℕ
  pub updated_at : ℕ

-- A row of `operation_task_steps`; `unit_id` is the number in `step_key`, `unit-{unit_id}`.
pub record StepRow : Type 0 where
  pub id : ℕ
  pub task_id : ℕ
  pub phase_id : Option ℕ
  pub step_no : ℕ
  pub unit_id : ℕ
  pub title : Message
  pub command : DeploymentAction
  pub status : StepStatus
  pub exit_code : Option ℤ
  pub started_at : Option ℕ
  pub finished_at : Option ℕ
  pub updated_at : ℕ

-- A row of `operation_task_logs`, stream `system`.
pub record LogRow : Type 0 where
  pub task_id : ℕ
  pub step_id : Option ℕ
  pub content : Message

-- A row of `deployment_unit_runtime_states`.
pub record RuntimeStateRow : Type 0 where
  pub environment_id : ℕ
  pub unit_id : ℕ
  pub node_id : ℕ
  pub runtime_status : String
  pub active_unit_release_id : Option ℕ
  pub active_fingerprint : String
  pub container_version_label : String
  pub message : Message
  pub last_deployment_run_id : Option ℕ
  pub updated_at : ℕ

-- A row of `app_environments`.
pub record EnvironmentRow : Type 0 where
  pub id : ℕ
  pub app_id : ℕ
  pub status : EnvironmentStatus
  pub max_parallel_units : ℕ
  pub current_app_release_id : Option ℕ
  pub current_config_revision_id : Option ℕ
  pub runtime_status : EnvironmentRuntime
  pub last_deployment_status : LastDeployment
  pub updated_at : ℕ

-- The database; the last four fields are the next ids of the tables with AUTOINCREMENT.
pub record Db : Type 0 where
  pub runs : List RunRow
  pub results : List ResultRow
  pub tasks : List TaskRow
  pub phases : List PhaseRow
  pub steps : List StepRow
  pub logs : List LogRow
  pub states : List RuntimeStateRow
  pub environments : List EnvironmentRow
  pub next_run : ℕ
  pub next_task : ℕ
  pub next_phase : ℕ
  pub next_step : ℕ

-- A transaction: it commits a database with its result, or fails and changes nothing.
abbrev pub Tx : Type 0 → Type 0
Tx A = Result (A × Db) OrchestratorError

pub data WaveOutcome : Type 0 where
  success failed canceled : WaveOutcome

pub data UnitExecutionOutcome : Type 0 where
  success : Message → UnitExecutionOutcome
  failed : String → Message → Option ℤ → UnitExecutionOutcome
  canceled_unknown : Message → UnitExecutionOutcome

pub record DeploymentRunOutcome : Type 0 where
  pub deployment_run_id : ℕ
  pub status : RunStatus
  pub summary : Message

pub record CreateDeploymentRunInput : Type 0 where
  pub environment_id : ℕ
  pub app_release_id : ℕ
  pub mode : DeploymentMode
  pub expected_plan_hash : String
  pub created_by : String

pub record CreatedDeploymentRun : Type 0 where
  pub deployment_run_id : ℕ
  pub task_id : ℕ
  pub plan : DeploymentPlan

-- The row that claiming a run returns.
pub record ExecutionRunRow : Type 0 where
  pub task_id : ℕ
  pub environment_id : ℕ
  pub plan_hash : String
  pub plan_json : String
  pub max_parallel_units : ℕ
  pub cancel_requested_at : Option ℕ

pub record InterruptedRunRecovery : Type 0 where
  pub reconciling_runs : ℕ
  pub canceled_queued_runs : ℕ
