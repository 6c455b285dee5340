-- ===== src/Run/Status/Runs.antt =====
-- The tests on the status of a deployment run (api/src/deployment_orchestrator.rs, its WHERE clauses).
use easy_deploy.Prelude.{Bool, true, false}
use easy_deploy.Run.Types.{RunStatus}

-- status = 'queued'
abbrev pub is_queued : RunStatus → Bool
is_queued RunStatus.queued = true
is_queued _ = false

-- status = 'running'
abbrev pub is_running : RunStatus → Bool
is_running RunStatus.running = true
is_running _ = false

-- status = 'reconciling'
abbrev pub is_reconciling : RunStatus → Bool
is_reconciling RunStatus.reconciling = true
is_reconciling _ = false

-- status IN ('queued', 'running')
abbrev pub is_cancelable : RunStatus → Bool
is_cancelable RunStatus.queued = true
is_cancelable RunStatus.running = true
is_cancelable _ = false

-- status IN ('queued', 'running', 'reconciling')
abbrev pub is_active : RunStatus → Bool
is_active RunStatus.queued = true
is_active RunStatus.running = true
is_active RunStatus.reconciling = true
is_active _ = false

abbrev pub is_success : RunStatus → Bool
is_success RunStatus.success = true
is_success _ = false

abbrev pub is_canceled : RunStatus → Bool
is_canceled RunStatus.canceled = true
is_canceled _ = false
