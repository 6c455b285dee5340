-- ===== src/Run/Status/Steps.antt =====
-- The tests on the status of a task phase or step (api/src/deployment_orchestrator.rs, its WHERE clauses).
use easy_deploy.Prelude.{Bool, true, false}
use easy_deploy.Run.Types.{StepStatus}

abbrev pub is_running : StepStatus → Bool
is_running StepStatus.running = true
is_running _ = false

-- status IN ('pending', 'running')
abbrev pub is_open : StepStatus → Bool
is_open StepStatus.pending = true
is_open StepStatus.running = true
is_open _ = false
