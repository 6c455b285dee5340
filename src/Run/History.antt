-- ===== src/Run/History.antt =====
-- The operations of the orchestrator as steps of the database, and their histories
-- (api/src/deployment_orchestrator.rs, the methods of `DeploymentOrchestratorService`).
pub mod Evolution
pub mod WaveRuns
pub mod Operations
pub mod Closings
pub mod Creations
pub mod Executions
pub mod Exclusion
use easy_deploy.Prelude.{ℕ, String, Bool, Option, some, Result, ok, err, ◌≡◌}
use easy_deploy.Plan.Types.{Digests}
use easy_deploy.Run.Types.{
  Db, OrchestratorError, CreateDeploymentRunInput, CreatedDeploymentRun, DeploymentRunOutcome,
}
use easy_deploy.Run.Catalog.{Catalog}
use easy_deploy.Run.Create.{PlanWriter, create_run}
use easy_deploy.Run.Execute.{PlanReader, Schedule, execute_run}
use easy_deploy.Run.Cancel.{request_cancellation}
use easy_deploy.Run.Recover.{reconcile_interrupted_runs}
use easy_deploy.Run.Close.{confirm_interrupted_run_stopped, fail_run_on_internal_error}

-- One call that commits something. Calls follow one another; an execution is one step, also when it
-- ends in an error with part of its work committed.
pub data Operation (digests : Digests) (read : PlanReader) (write : PlanWriter) (db : Db)
    : Db → Type 0 where
  creates :
      {db' : Db} (catalog : Catalog) (now : ℕ) (input : CreateDeploymentRunInput)
      (run : CreatedDeploymentRun)
      → create_run digests write catalog now input db ≡ ok (run, db')
      → Operation digests read write db db'
  executes :
      {db' : Db} (schedule : Schedule) (run_id : ℕ)
      (result : Result DeploymentRunOutcome OrchestratorError)
      → execute_run read schedule run_id db ≡ some (result, db')
      → Operation digests read write db db'
  cancels :
      {db' : Db} (now run_id : ℕ) (actor : String) (done : Bool)
      → request_cancellation now run_id actor db ≡ ok (done, db')
      → Operation digests read write db db'
  recovers :
      {db' : Db} (now : ℕ)
      → (reconcile_interrupted_runs now db).1 ≡ db'
      → Operation digests read write db db'
  confirms :
      {db' : Db} (now run_id : ℕ) (actor note : String) (outcome : DeploymentRunOutcome)
      → confirm_interrupted_run_stopped now run_id actor note db ≡ ok (outcome, db')
      → Operation digests read write db db'
  fails :
      {db' : Db} (now run_id : ℕ) (text : String) (done : Bool)
      → fail_run_on_internal_error now run_id text db ≡ ok (done, db')
      → Operation digests read write db db'

pub data History (digests : Digests) (read : PlanReader) (write : PlanWriter) (db : Db)
    : Db → Type 0 where
  begin : History digests read write db db
  after :
      {db₁ db₂ : Db}
      → History digests read write db db₁
      → Operation digests read write db₁ db₂
      → History digests read write db db₂
