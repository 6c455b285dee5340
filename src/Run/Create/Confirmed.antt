-- ===== src/Run/Create/Confirmed.antt =====
-- When a run is created (api/src/deployment_orchestrator.rs, `create_run`).
use easy_deploy.Prelude.{ℕ, String, none, some, Bool, true, false, ◌&&◌, All, ok, ◌≡◌, ◌⊎◌}
use easy_deploy.Prelude.Text.{trim, text_is_empty}
use easy_deploy.Plan.Types.{DeploymentPlan, Digests}
use easy_deploy.Run.Types.{RunStatus, TaskStatus, RunRow, TaskRow, Db, CreateDeploymentRunInput}
use easy_deploy.Run.Status.Runs
use easy_deploy.Run.Status.Tasks
use easy_deploy.Run.Catalog.{Catalog, load_deployment_plan}
use easy_deploy.Run.Create.{PlanWriter, last_active, is_deploy_kind, is_for, task_refused}

-- The tests of the code pass.
record Passes (digests : Digests) (write : PlanWriter) (catalog : Catalog)
    (input : CreateDeploymentRunInput) (db : Db) : Type 0 where
  pub given : text_is_empty (trim input.expected_plan_hash) ≡ false
  pub idle : last_active input.environment_id db.runs ≡ none
  pub plan : DeploymentPlan
  pub loaded :
      load_deployment_plan digests catalog input.environment_id input.app_release_id input.mode db
      ≡ ok plan
  pub same_hash : plan.plan_hash ≡ input.expected_plan_hash
  pub no_task : task_refused input.environment_id db.tasks ≡ false
  pub plan_json : String
  pub written : write plan ≡ ok plan_json

-- A run of the environment is under way.
pub record IsUnderWay (environment_id : ℕ) (run : RunRow) : Type 0 where
  pub environment : run.environment_id ≡ environment_id
  pub status :
      (run.status ≡ RunStatus.queued)
      ⊎ ((run.status ≡ RunStatus.running) ⊎ (run.status ≡ RunStatus.reconciling))

-- An open task deploys to the environment.
pub record Deploys (environment_id : ℕ) (task : TaskRow) : Type 0 where
  pub environment : task.environment_id ≡ some environment_id
  pub kind : is_deploy_kind task.task_kind ≡ true
  pub status : (task.status ≡ TaskStatus.queued) ⊎ (task.status ≡ TaskStatus.running)

-- The caller confirmed the plan that is loaded now, and nothing else deploys to the environment.
pub record IsConfirmed (digests : Digests) (write : PlanWriter) (catalog : Catalog)
    (input : CreateDeploymentRunInput) (db : Db) : Type 0 where
  pub given : text_is_empty (trim input.expected_plan_hash) ≡ false
  pub idle : All (λ run. ¬ IsUnderWay input.environment_id run) db.runs
  pub plan : DeploymentPlan
  pub loaded :
      load_deployment_plan digests catalog input.environment_id input.app_release_id input.mode db
      ≡ ok plan
  pub same_hash : plan.plan_hash ≡ input.expected_plan_hash
  pub no_task : All (λ task. ¬ Deploys input.environment_id task) db.tasks
  pub plan_json : String
  pub written : write plan ≡ ok plan_json

abbrev deploys_to : ℕ → TaskRow → Bool
deploys_to environment_id task =
    Tasks.is_open task.status
    && (is_deploy_kind task.task_kind && is_for environment_id task.environment_id)
