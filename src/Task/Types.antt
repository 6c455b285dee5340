-- ===== src/Task/Types.antt =====
-- The tables of operation tasks (api/src/tasks.rs; the columns are those of api/migrations).
use easy_deploy.Prelude.{ℕ, ℤ, String, Option, List, Bool}
use easy_deploy.Run.Types.{TaskStatus, StepStatus, RunRow}

pub data TaskError : Type 0 where
  not_found invalid_state internal : String → TaskError

pub data NodeResultStatus : Type 0 where
  success failed skipped : NodeResultStatus

pub data LogStream : Type 0 where
  system stdout stderr combined : LogStream

-- A row of `operation_tasks`.
pub record OperationTask : Type 0 where
  pub id : ℕ
  pub task_kind : String
  pub title : String
  pub app_id : Option ℕ
  pub release_id : Option ℕ
  pub node_id : Option ℕ
  pub environment_id : Option ℕ
  pub status : TaskStatus
  pub phase : String
  pub command : String
  pub summary : String
  pub exit_code : Option ℤ
  pub created_by : String
  pub started_at : Option ℕ
  pub finished_at : Option ℕ
  pub updated_at : ℕ

-- A row of `operation_task_phases`.
pub record TaskPhase : Type 0 where
  pub id : ℕ
  pub task_id : ℕ
  pub phase_no : ℕ
  pub phase_key : String
  pub title : String
  pub status : StepStatus
  pub summary : String
  pub started_at : Option ℕ
  pub finished_at : Option ℕ
  pub updated_at : ℕ

-- A row of `operation_task_steps`.
pub record TaskStep : Type 0 where
  pub id : ℕ
  pub task_id : ℕ
  pub phase_id : Option ℕ
  pub node_id : Option ℕ
  pub step_no : ℕ
  pub step_key : String
  pub title : String
  pub command : String
  pub status : StepStatus
  pub exit_code : Option ℤ
  pub started_at : Option ℕ
  pub finished_at : Option ℕ
  pub updated_at : ℕ

-- A row of `operation_task_logs`.
pub record TaskLog : Type 0 where
  pub task_id : ℕ
  pub step_id : Option ℕ
  pub stream : LogStream
  pub content : String

-- A row of `operation_task_node_results`.
pub record TaskNodeResult : Type 0 where
  pub task_id : ℕ
  pub node_id : ℕ
  pub node_name : String
  pub node_key : String
  pub node_type : String
  pub status : NodeResultStatus
  pub message : String
  pub command_count : ℕ
  pub started_at : Option ℕ
  pub finished_at : ℕ

-- The environments' runs are those of the orchestrator. The next ids are those that AUTOINCREMENT
-- gives.
pub record TaskDb : Type 0 where
  pub tasks : List OperationTask
  pub phases : List TaskPhase
  pub steps : List TaskStep
  pub logs : List TaskLog
  pub node_results : List TaskNodeResult
  pub runs : List RunRow
  pub next_task_id : ℕ
  pub next_phase_id : ℕ
  pub next_step_id : ℕ

pub record CreateTaskInput : Type 0 where
  pub task_kind : String
  pub title : String
  pub app_id : Option ℕ
  pub release_id : Option ℕ
  pub node_id : Option ℕ
  pub created_by : String

pub record StartTaskPhaseInput : Type 0 where
  pub task_id : ℕ
  pub phase_key : String
  pub title : String

pub record StartTaskStepInput : Type 0 where
  pub task_id : ℕ
  pub node_id : Option ℕ
  pub step_key : String
  pub title : String
  pub command : String

pub record TaskNodeResultInput : Type 0 where
  pub task_id : ℕ
  pub node_id : ℕ
  pub node_name : String
  pub node_key : String
  pub node_type : String
  pub status : String
  pub message : String
  pub command_count : ℕ

pub record ComposeCommandOutput : Type 0 where
  pub command : String
  pub success : Bool
  pub status_code : Option ℤ
  pub output : String
