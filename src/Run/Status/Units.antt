-- ===== src/Run/Status/Units.antt =====
-- The tests on the status of a unit result (api/src/deployment_orchestrator.rs, its WHERE clauses).
use easy_deploy.Prelude.{Bool, true, false}
use easy_deploy.Run.Types.{UnitStatus}

abbrev pub is_pending : UnitStatus → Bool
is_pending UnitStatus.pending = true
is_pending _ = false

abbrev pub is_running : UnitStatus → Bool
is_running UnitStatus.running = true
is_running _ = false

-- status IN ('pending', 'running')
abbrev pub is_open : UnitStatus → Bool
is_open UnitStatus.pending = true
is_open UnitStatus.running = true
is_open _ = false

-- status IN ('success', 'skipped')
abbrev pub is_done : UnitStatus → Bool
is_done UnitStatus.success = true
is_done UnitStatus.skipped = true
is_done _ = false

-- status IN ('failed', 'not_started')
abbrev pub is_missed : UnitStatus → Bool
is_missed UnitStatus.failed = true
is_missed UnitStatus.not_started = true
is_missed _ = false

-- status = 'canceled_unknown'
abbrev pub is_unknown : UnitStatus → Bool
is_unknown UnitStatus.canceled_unknown = true
is_unknown _ = false

-- status IN ('failed', 'canceled_unknown')
abbrev pub is_broken : UnitStatus → Bool
is_broken UnitStatus.failed = true
is_broken UnitStatus.canceled_unknown = true
is_broken _ = false

-- status = 'not_started'
abbrev pub is_not_started : UnitStatus → Bool
is_not_started UnitStatus.not_started = true
is_not_started _ = false
