-- ===== src/Run/Status/Tasks.antt =====
-- The tests on the status of a task (api/src/deployment_orchestrator.rs, its WHERE clauses).
use easy_deploy.Prelude.{Bool, true, false}
use easy_deploy.Run.Types.{TaskStatus}

abbrev pub is_queued : TaskStatus → Bool
is_queued TaskStatus.queued = true
is_queued _ = false

abbrev pub is_running : TaskStatus → Bool
is_running TaskStatus.running = true
is_running _ = false

-- status IN ('queued', 'running')
abbrev pub is_open : TaskStatus → Bool
is_open TaskStatus.queued = true
is_open TaskStatus.running = true
is_open _ = false
