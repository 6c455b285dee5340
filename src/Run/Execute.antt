-- ===== src/Run/Execute.antt =====
-- Executing a run (api/src/deployment_orchestrator.rs, `execute_run_with_cancellation`).
pub mod Returns
use easy_deploy.Prelude.{
  ℕ, suc, String, Option, none, some, List, [], ◌∷◌, Bool, true, false, not, ◌||◌, if◌then◌else◌,
  is_some, Result, ok, err, ◌>>=◌, map_err, str_eq,
}
use Prim.Native.Nat.{max}
use easy_deploy.Plan.Types.{DeploymentPlan, DeploymentPlanItem}
use easy_deploy.Plan.Waves.{execution_waves}
use easy_deploy.Run.Types.{
  WaveOutcome, OrchestratorError, validation, conflict, lit, Db, ExecutionRunRow,
  DeploymentRunOutcome,
}
use easy_deploy.Run.Claim.{claim_deployment_run, cancellation_requested}
use easy_deploy.Run.Cancel.{skip_pending}
use easy_deploy.Run.Finalize.{finalize_deployment_run}
use easy_deploy.Run.Wave.{Tick, WaveConfig, Step, execute_wave}

-- What the execution of one wave meets: the signal as the wave first reads it, and its rounds.
pub record WaveSchedule : Type 0 where
  pub cancelled : Bool
  pub ticks : List Tick

-- What an execution meets: the clock, the signal before the first wave, and each wave's schedule.
pub record Schedule : Type 0 where
  pub now : ℕ
  pub cancelled : Bool
  pub waves : ℕ → WaveSchedule

-- serde_json, as it reads a stored plan.
abbrev pub PlanReader : Type 0
PlanReader = String → Result DeploymentPlan String

-- What is known of the waves that have run.
pub record Progress : Type 0 where
  pub failed : Bool
  pub canceled : Bool
  pub db : Db

unfoldable pub after_wave : WaveOutcome → Db → Progress
after_wave WaveOutcome.success db = record { failed = false; canceled = false; db = db }
after_wave WaveOutcome.failed db = record { failed = true; canceled = false; db = db }
after_wave WaveOutcome.canceled db = record { failed = false; canceled = true; db = db }

unfoldable pub wave_config : ℕ → ExecutionRunRow → DeploymentPlan → WaveConfig
wave_config run_id run plan = record {
  deployment_run_id = run_id;
  task_id = run.task_id;
  environment_id = run.environment_id;
  target_node_ids = plan.target_node_ids;
  max_parallel = max run.max_parallel_units 1;
}

-- The loop over the waves, entered with neither a failure nor a cancellation; `index` counts the
-- waves. An error comes with the database as it stood; `none` means that a schedule was too short.
unfoldable pub run_waves :
    Schedule
    → ℕ
    → WaveConfig
    → ℕ
    → List (List DeploymentPlanItem)
    → Db
    → Option (Step Progress × Db)
run_waves schedule run_id config index [] db =
    some (ok (record { failed = false; canceled = false; db = db }), db)
run_waves schedule run_id config index (items ∷ waves) db =
    elim (cancellation_requested run_id db) [
      | err e ↦ some (err e, db)
      | ok true ↦ some (ok (record { failed = false; canceled = true; db = db }), db)
      | ok false ↦
          elim (execute_wave config (schedule.waves index).cancelled (schedule.waves index).ticks
            items db) [
              | none ↦ none
              | some (err e, db₁) ↦ some (err e, db₁)
              | some (ok WaveOutcome.success, db₁) ↦
                  run_waves schedule run_id config (suc index) waves db₁
              | some (ok outcome, db₁) ↦ some (ok (after_wave outcome db₁), db₁)
            ]
    ]

-- The units that were not reached, marked after a failure or a cancellation.
unfoldable pub mark_not_started : ℕ → ℕ → Progress → Db
mark_not_started now run_id progress =
    if progress.canceled
    then record progress.db {
      results =
          skip_pending now run_id "canceled_before_start" (lit "部署已取消，本单元未启动" ∷ [])
            progress.db.results;
    }
    else if progress.failed
    then record progress.db {
      results =
          skip_pending now run_id "blocked_by_previous_failure" (lit "前序部署单元失败，本单元未启动" ∷ [])
            progress.db.results;
    }
    else progress.db

abbrev pub or_keep :
    {A : Type 0} → Db → Result (A × Db) OrchestratorError → Result A OrchestratorError × Db
or_keep db (ok (a, db₁)) = (ok a, db₁)
or_keep db (err e) = (err e, db)

unfoldable pub close_execution :
    ℕ → ℕ → DeploymentPlan → Progress → Result DeploymentRunOutcome OrchestratorError × Db
close_execution now run_id plan progress =
    let db = mark_not_started now run_id progress in
    or_keep db (finalize_deployment_run now run_id plan progress.canceled db)

-- The plan that a claimed run is executed by.
unfoldable pub stored_plan : PlanReader → ExecutionRunRow → Result DeploymentPlan OrchestratorError
stored_plan read run = do
  plan ← map_err (λ error. validation (lit "部署计划快照损坏: " ∷ lit error ∷ [])) (read run.plan_json)
  (if not (str_eq plan.plan_hash run.plan_hash)
      then err (conflict (lit "部署计划快照 hash 不一致，拒绝执行" ∷ []))
      else ok plan)

-- The waves, unless the run is canceled before the first.
unfoldable pub progress_of :
    Schedule → ℕ → ExecutionRunRow → DeploymentPlan → Db → Option (Step Progress × Db)
progress_of schedule run_id run plan db =
    if schedule.cancelled || is_some run.cancel_requested_at
    then some (ok (record { failed = false; canceled = true; db = db }), db)
    else run_waves schedule run_id (wave_config run_id run plan) 0 (execution_waves plan.items) db

unfoldable pub execute_claimed :
    Schedule
    → ℕ
    → ExecutionRunRow
    → DeploymentPlan
    → Db
    → Option (Result DeploymentRunOutcome OrchestratorError × Db)
execute_claimed schedule run_id run plan db = elim (progress_of schedule run_id run plan db) [
  | none ↦ none
  | some (err e, db₁) ↦ some (err e, db₁)
  | some (ok progress, db₁) ↦ some (close_execution schedule.now run_id plan progress)
]

unfoldable pub execute_run :
    PlanReader → Schedule → ℕ → Db → Option (Result DeploymentRunOutcome OrchestratorError × Db)
execute_run read schedule run_id db = elim (claim_deployment_run schedule.now run_id db) [
  | err e ↦ some (err e, db)
  | ok (run, db₁) ↦ elim (stored_plan read run) [
    | err e ↦ some (err e, db₁)
    | ok plan ↦ execute_claimed schedule run_id run plan db₁
  ]
]
