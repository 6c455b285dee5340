-- ===== src/Run/Outcome.antt =====
-- Recording what became of a unit (api/src/deployment_orchestrator.rs, `persist_unit_outcome`).
pub mod Redeploy
use easy_deploy.Prelude.{
  ℕ, ℤ, String, Option, none, some, List, [], ◌∷◌, ◌++◌, Bool, true, false, ◌&&◌, if◌then◌else◌,
  ◌==◌,
}
use easy_deploy.Prelude.Table.{update_where}
use easy_deploy.Plan.Types.{DeploymentPlanItem}
use easy_deploy.Plan.Build.{is_stop}
use easy_deploy.Run.Types.{
  UnitStatus, StepStatus, Message, ResultRow, StepRow, RuntimeStateRow, Db, UnitExecutionOutcome,
}
use easy_deploy.Run.Status.Units
use easy_deploy.Run.Claim.{result_is}

unfoldable pub result_status : UnitExecutionOutcome → UnitStatus
result_status (UnitExecutionOutcome.success summary) = UnitStatus.success
result_status (UnitExecutionOutcome.failed kind summary exit_code) = UnitStatus.failed
result_status (UnitExecutionOutcome.canceled_unknown summary) = UnitStatus.canceled_unknown

unfoldable pub failure_kind : UnitExecutionOutcome → String
failure_kind (UnitExecutionOutcome.success summary) = ""
failure_kind (UnitExecutionOutcome.failed kind summary exit_code) = kind
failure_kind (UnitExecutionOutcome.canceled_unknown summary) = "canceled_unknown"

unfoldable pub outcome_summary : UnitExecutionOutcome → Message
outcome_summary (UnitExecutionOutcome.success summary) = summary
outcome_summary (UnitExecutionOutcome.failed kind summary exit_code) = summary
outcome_summary (UnitExecutionOutcome.canceled_unknown summary) = summary

unfoldable pub outcome_exit_code : UnitExecutionOutcome → Option ℤ
outcome_exit_code (UnitExecutionOutcome.success summary) = some (ℤ.pos 0)
outcome_exit_code (UnitExecutionOutcome.failed kind summary exit_code) = exit_code
outcome_exit_code (UnitExecutionOutcome.canceled_unknown summary) = none

unfoldable pub step_status : UnitExecutionOutcome → StepStatus
step_status (UnitExecutionOutcome.success summary) = StepStatus.success
step_status (UnitExecutionOutcome.failed kind summary exit_code) = StepStatus.failed
step_status (UnitExecutionOutcome.canceled_unknown summary) = StepStatus.failed

unfoldable pub is_success : UnitExecutionOutcome → Bool
is_success (UnitExecutionOutcome.success summary) = true
is_success _ = false

unfoldable pub finish_result : ℕ → UnitExecutionOutcome → ResultRow → ResultRow
finish_result now outcome row = record row {
  status = result_status outcome;
  failure_kind = failure_kind outcome;
  failure_summary = outcome_summary outcome;
  exit_code = outcome_exit_code outcome;
  finished_at = some now;
  updated_at = now;
}

unfoldable pub finish_step : ℕ → UnitExecutionOutcome → StepRow → StepRow
finish_step now outcome step = record step {
  status = step_status outcome;
  exit_code = outcome_exit_code outcome;
  finished_at = some now;
  updated_at = now;
}

abbrev pub text_or_empty : Option String → String
text_or_empty none = ""
text_or_empty (some s) = s

-- The state of one node after the unit succeeded there.
unfoldable pub node_state : ℕ → ℕ → ℕ → DeploymentPlanItem → Message → ℕ → RuntimeStateRow
node_state now run_id environment_id item summary node_id = record {
  environment_id = environment_id;
  unit_id = item.unit_id;
  node_id = node_id;
  runtime_status = if is_stop item.action then "stopped" else "healthy";
  active_unit_release_id = if is_stop item.action then none else item.unit_release_id;
  active_fingerprint = if is_stop item.action then "" else item.target_fingerprint;
  container_version_label = if is_stop item.action then "" else text_or_empty item.release_version;
  message = summary;
  last_deployment_run_id = some run_id;
  updated_at = now;
}

-- The primary key of `deployment_unit_runtime_states`.
abbrev pub same_place : RuntimeStateRow → RuntimeStateRow → Bool
same_place a b =
    (a.environment_id == b.environment_id) && ((a.unit_id == b.unit_id) && (a.node_id == b.node_id))

-- INSERT .. ON CONFLICT DO UPDATE.
unfoldable pub upsert_state : RuntimeStateRow → List RuntimeStateRow → List RuntimeStateRow
upsert_state row [] = row ∷ []
upsert_state row (old ∷ rows) =
    let rest = upsert_state row rows in if same_place old row then row ∷ rows else old ∷ rest

-- The loop over the target nodes.
unfoldable pub upsert_states :
    ℕ → ℕ → ℕ → DeploymentPlanItem → Message → List ℕ → List RuntimeStateRow → List RuntimeStateRow
upsert_states now run_id environment_id item summary [] rows = rows
upsert_states now run_id environment_id item summary (node_id ∷ node_ids) rows =
    upsert_states now run_id environment_id item summary node_ids
      (upsert_state (node_state now run_id environment_id item summary node_id) rows)

abbrev pub is_running_result : ℕ → ℕ → ResultRow → Bool
is_running_result run_id unit_id row = result_is run_id unit_id row && Units.is_running row.status

unfoldable pub persist_unit_outcome :
    ℕ → ℕ → ℕ → ℕ → ℕ → List ℕ → DeploymentPlanItem → UnitExecutionOutcome → Db → Db
persist_unit_outcome now run_id task_id step_id environment_id target_node_ids item outcome db =
    record db {
      results =
          update_where (is_running_result run_id item.unit_id) (finish_result now outcome)
            db.results;
      steps =
          update_where (λ step. (step.id == step_id) && (step.task_id == task_id))
            (finish_step now outcome) db.steps;
      logs =
          db.logs
          ++ record { task_id = task_id; step_id = some step_id; content = outcome_summary outcome }
            ∷ [];
      states =
          if is_success outcome
          then upsert_states now run_id environment_id item (outcome_summary outcome)
              target_node_ids db.states
          else db.states;
    }
