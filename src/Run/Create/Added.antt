-- ===== src/Run/Create/Added.antt =====
-- What a creation adds to the tables (api/src/deployment_orchestrator.rs, `create_run`).
use easy_deploy.Prelude.{
  ℕ, String, none, some, List, [], ◌∷◌, ◌++◌, map, true, All, ◌≡◌, ◌≢◌, refl, ap, arith, Bool-cases,
  inl, inr,
}
use easy_deploy.Plan.Types.{DeploymentAction, skip, DeploymentPlan, DeploymentPlanItem}
use easy_deploy.Plan.Waves.{is_skip}
use easy_deploy.Run.Types.{
  RunStatus, TaskStatus, UnitStatus, RunRow, TaskRow, ResultRow, Db, CreateDeploymentRunInput,
  CreatedDeploymentRun,
}
use easy_deploy.Run.Create.{new_task, new_run, new_result, created}

skip_action : (action : DeploymentAction) → is_skip action ≡ true → action ≡ skip
unfolding is_skip
skip_action action h = ground (arith, h)

-- A result of the run whose unit was not started: it is skipped, or waits.
pub record IsWaiting (run_id : ℕ) (result : ResultRow) : Type 0 where
  pub run : result.deployment_run_id ≡ run_id
  pub skipped : result.action ≡ skip → result.status ≡ UnitStatus.skipped
  pub pending : result.action ≢ skip → result.status ≡ UnitStatus.pending

-- What the creation of a run adds: a run that waits, with the plan that the caller confirmed, its
-- task, which waits too, and a result for each unit of the plan, in its order. Nothing else of these
-- tables changes.
pub record IsCreated (input : CreateDeploymentRunInput) (answer : CreatedDeploymentRun)
    (db db' : Db) : Type 0 where
  pub run : RunRow
  pub runs : db'.runs ≡ db.runs ++ run ∷ []
  pub run_id : run.id ≡ answer.deployment_run_id
  pub run_waits : run.status ≡ RunStatus.queued
  pub run_plan : run.plan_hash ≡ input.expected_plan_hash
  pub run_task : run.task_id ≡ some answer.task_id
  pub not_canceled : run.cancel_requested_at ≡ none
  pub task : TaskRow
  pub tasks : db'.tasks ≡ db.tasks ++ task ∷ []
  pub task_id : task.id ≡ answer.task_id
  pub task_waits : task.status ≡ TaskStatus.queued
  pub task_for : task.environment_id ≡ some input.environment_id
  pub task_kind : task.task_kind ≡ "release.deploy"
  pub results : List ResultRow
  pub all_results : db'.results ≡ db.results ++ results
  pub result_units : map (λ r. r.unit_id) results ≡ map (λ item. item.unit_id) answer.plan.items
  pub result_runs : All (IsWaiting answer.deployment_run_id) results

new_results-IsWaiting :
    (now run_id : ℕ) (items : List DeploymentPlanItem)
    → All (IsWaiting run_id) (map (new_result now run_id) items)
unfolding new_result is_skip
new_results-IsWaiting now run_id [] = tt
new_results-IsWaiting now run_id (item ∷ items) = (
  record {
    run = refl;
    skipped = λ e. rw e refl;
    pending = λ n. elim (Bool-cases (is_skip item.action)) [
      | inl e ↦ absurd (n (skip_action item.action e))
      | inr e ↦ rw e refl
    ];
  },
  new_results-IsWaiting now run_id items,
)

new_results-units :
    (now run_id : ℕ) (items : List DeploymentPlanItem)
    → map (λ r. r.unit_id) (map (new_result now run_id) items) ≡ map (λ item. item.unit_id) items
unfolding new_result
new_results-units now run_id [] = refl
new_results-units now run_id (item ∷ items) =
    ap (λ ids. item.unit_id ∷ ids) (new_results-units now run_id items)

pub created-IsCreated :
    (now : ℕ) (input : CreateDeploymentRunInput) (db : Db) (plan : DeploymentPlan)
    (plan_json : String)
    → plan.plan_hash ≡ input.expected_plan_hash
    → IsCreated input
        (record { deployment_run_id = db.next_run; task_id = db.next_task; plan = plan })
        db
        (created now input plan plan_json db)
unfolding created new_run new_task
created-IsCreated now input db plan plan_json same = record {
  run = new_run now db.next_run db.next_task input plan plan_json;
  runs = refl;
  run_id = refl;
  run_waits = refl;
  run_plan = same;
  run_task = refl;
  not_canceled = refl;
  task = new_task now db.next_task input plan;
  tasks = refl;
  task_id = refl;
  task_waits = refl;
  task_for = refl;
  task_kind = refl;
  results = map (new_result now db.next_run) plan.items;
  all_results = refl;
  result_units = new_results-units now db.next_run plan.items;
  result_runs = new_results-IsWaiting now db.next_run plan.items;
}
