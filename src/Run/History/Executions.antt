-- ===== src/Run/History/Executions.antt =====
-- Executing a run lets the table of runs evolve, and so does every history of operations.
use easy_deploy.Prelude.{
  ℕ, suc, Option, none, some, List, [], ◌∷◌, Bool, true, false, ◌||◌, is_some, Result, ok, err, ◌≡◌,
  ◌∙◌, subst, arith, Bool-cases, Option-cases, inl, inr, Result-cases,
}
use easy_deploy.Plan.Types.{DeploymentPlan, DeploymentPlanItem, Digests}
use easy_deploy.Plan.Waves.{execution_waves}
use easy_deploy.Run.Types.{
  RunRow, Db, WaveOutcome, OrchestratorError, ExecutionRunRow, DeploymentRunOutcome,
  CreateDeploymentRunInput,
}
use easy_deploy.Run.Claim.{claim_deployment_run, cancellation_requested}
use easy_deploy.Run.Finalize.{finalize_deployment_run}
use easy_deploy.Run.Wave.{WaveConfig, Step, execute_wave}
use easy_deploy.Run.Execute.{
  PlanReader, Schedule, Progress, after_wave, run_waves, mark_not_started, or_keep, close_execution,
  stored_plan, progress_of, execute_claimed, execute_run, wave_config,
}
use easy_deploy.Run.Catalog.{Catalog}
use easy_deploy.Run.Create.{PlanWriter}
use easy_deploy.Run.History.{
  Operation, creates, executes, cancels, recovers, confirms, fails, History, begin, after,
}
use easy_deploy.Run.History.Evolution.{
  Evolves, Evolves-refl, Evolves-trans, Grows, Grows-refl, Grows-trans, Evolves-Grows,
}
use easy_deploy.Run.History.Creations.{Creation, create_run-Creation, Creation-Grows}
use easy_deploy.Run.History.WaveRuns.{runs-execute_wave, progress_runs}
use easy_deploy.Run.History.Operations.{
  claim_deployment_run-Evolves, request_cancellation-Evolves, finalize_deployment_run-Evolves,
}
use easy_deploy.Run.History.Closings.{
  reconcile_interrupted_runs-Evolves, confirm_interrupted_run_stopped-Evolves,
  fail_run_on_internal_error-Evolves,
}

progress_runs-some :
    {a b : Step Progress × Db}
    → ◌≡◌ {A = Option (Step Progress × Db)} (some a) (some b)
    → progress_runs b ≡ progress_runs a
progress_runs-some h = ground arith

no_progress {ℓ} :
    {P : Type ℓ} {r : Step Progress × Db} → ◌≡◌ {A = Option (Step Progress × Db)} none (some r) → P
no_progress h = cc

runs-after_wave : (outcome : WaveOutcome) (db : Db) → (after_wave outcome db).db.runs ≡ db.runs
unfolding after_wave
runs-after_wave outcome db = ground arith

runs-run_waves :
    (schedule : Schedule) (run_id : ℕ) (config : WaveConfig) (index : ℕ)
    (waves : List (List DeploymentPlanItem)) (db : Db) (r : Step Progress × Db)
    → run_waves schedule run_id config index waves db ≡ some r
    → progress_runs r ≡ db.runs
unfolding run_waves
runs-run_waves schedule run_id config index [] db r h = progress_runs-some h
runs-run_waves schedule run_id config index (items ∷ waves) db r h =
    elim (Result-cases (cancellation_requested run_id db)) [
      | inr (e, failed) ↦ progress_runs-some (rw (failed, run_waves) at h)
      | inl (true, answer) ↦ progress_runs-some (rw (answer, run_waves) at h)
      | inl (false, answer) ↦
          elim (Option-cases (
            execute_wave config (schedule.waves index).cancelled (schedule.waves index).ticks items
              db)) [
                | inl short ↦ no_progress (rw (answer, short, run_waves) at h)
                | inr ((err e, db₁), ran) ↦
                    progress_runs-some (rw (answer, ran, run_waves) at h)
                    ∙ runs-execute_wave config _ _ items db db₁ (err e) ran
                | inr ((ok WaveOutcome.success, db₁), ran) ↦
                    runs-run_waves schedule run_id config (suc index) waves db₁ r
                      (rw (answer, ran, run_waves) at h)
                    ∙ runs-execute_wave config _ _ items db db₁ (ok WaveOutcome.success) ran
                | inr ((ok WaveOutcome.failed, db₁), ran) ↦
                    progress_runs-some (rw (answer, ran, run_waves) at h)
                    ∙ runs-after_wave WaveOutcome.failed db₁
                    ∙ runs-execute_wave config _ _ items db db₁ (ok WaveOutcome.failed) ran
                | inr ((ok WaveOutcome.canceled, db₁), ran) ↦
                    progress_runs-some (rw (answer, ran, run_waves) at h)
                    ∙ runs-after_wave WaveOutcome.canceled db₁
                    ∙ runs-execute_wave config _ _ items db db₁ (ok WaveOutcome.canceled) ran
              ]
    ]

runs-progress_of :
    (schedule : Schedule) (run_id : ℕ) (run : ExecutionRunRow) (plan : DeploymentPlan) (db : Db)
    (r : Step Progress × Db)
    → progress_of schedule run_id run plan db ≡ some r
    → progress_runs r ≡ db.runs
unfolding progress_of
runs-progress_of schedule run_id run plan db r h =
    elim (Bool-cases (schedule.cancelled || is_some run.cancel_requested_at)) [
      | inl e ↦ progress_runs-some (rw (e, progress_of) at h)
      | inr e ↦
          runs-run_waves schedule run_id (wave_config run_id run plan) 0
            (execution_waves plan.items) db r (rw (e, progress_of) at h)
    ]

runs-mark_not_started :
    (now run_id : ℕ) (progress : Progress)
    → (mark_not_started now run_id progress).runs ≡ progress.db.runs
unfolding mark_not_started
runs-mark_not_started now run_id progress = ground arith

or_keep-Evolves :
    (now run_id : ℕ) (plan : DeploymentPlan) (canceled : Bool) (db : Db)
    → Evolves db.runs (or_keep db (finalize_deployment_run now run_id plan canceled db)).1.runs
or_keep-Evolves now run_id plan canceled db =
    elim (Result-cases (finalize_deployment_run now run_id plan canceled db)) [
      | inl ((outcome, db'), e) ↦
          rw e (finalize_deployment_run-Evolves now run_id plan canceled db db' outcome e)
      | inr (e', e) ↦ rw e (Evolves-refl db.runs)
    ]

close_execution-Evolves :
    (now run_id : ℕ) (plan : DeploymentPlan) (progress : Progress)
    → Evolves progress.db.runs (close_execution now run_id plan progress).1.runs
unfolding close_execution
close_execution-Evolves now run_id plan progress =
    subst (λ runs. Evolves runs (close_execution now run_id plan progress).1.runs)
      (runs-mark_not_started now run_id progress)
      (or_keep-Evolves now run_id plan progress.canceled (mark_not_started now run_id progress))

abbrev Executed : Type 0
Executed = Result DeploymentRunOutcome OrchestratorError × Db

db_of_some : {a b : Executed} → ◌≡◌ {A = Option Executed} (some a) (some b) → a.1 ≡ b.1
db_of_some h = ground arith

execute_claimed-Evolves :
    (schedule : Schedule) (run_id : ℕ) (run : ExecutionRunRow) (plan : DeploymentPlan) (db : Db)
    (r : Executed)
    → execute_claimed schedule run_id run plan db ≡ some r
    → Evolves db.runs r.1.runs
unfolding execute_claimed
execute_claimed-Evolves schedule run_id run plan db r h =
    elim (Option-cases (progress_of schedule run_id run plan db)) [
      | inl e ↦ ground arith
      | inr ((err e', db₁), e) ↦
          rw
            (
              ← db_of_some (rw (e, execute_claimed) at h),
              runs-progress_of schedule run_id run plan db (err e', db₁) e,
            )
            (Evolves-refl db.runs)
      | inr ((ok progress, db₁), e) ↦
          let same = runs-progress_of schedule run_id run plan db (ok progress, db₁) e in
          subst (λ runs. Evolves runs r.1.runs) same
            (subst (λ (d : Db). Evolves progress.db.runs d.runs)
              (db_of_some (rw (e, execute_claimed) at h))
              (close_execution-Evolves schedule.now run_id plan progress))
    ]

execute_run-Evolves :
    (read : PlanReader) (schedule : Schedule) (run_id : ℕ) (db : Db) (r : Executed)
    → execute_run read schedule run_id db ≡ some r
    → Evolves db.runs r.1.runs
unfolding execute_run
execute_run-Evolves read schedule run_id db r h =
    elim (Result-cases (claim_deployment_run schedule.now run_id db)) [
      | inr (e', e) ↦ rw (← db_of_some (rw (e, execute_run) at h)) (Evolves-refl db.runs)
      | inl ((run, db₁), e) ↦
          let claim = claim_deployment_run-Evolves schedule.now run_id db db₁ run e in
          elim (Result-cases (stored_plan read run)) [
            | inr (e', bad) ↦ rw (← db_of_some (rw (e, bad, execute_run) at h)) claim
            | inl (plan, good) ↦ Evolves-trans db.runs db₁.runs r.1.runs claim (
                execute_claimed-Evolves schedule run_id run plan db₁ r
                  (rw (e, good, execute_run) at h))
          ]
    ]

module _ {digests : Digests} {read : PlanReader} {write : PlanWriter} where
  -- An operation other than a creation adds no run.
  pub Operation_cases {ℓ} :
      (P : List RunRow → List RunRow → Type ℓ) {db db' : Db}
      → Operation digests read write db db'
      → (Evolves db.runs db'.runs → P db.runs db'.runs)
      → ((catalog : Catalog) (now : ℕ) (input : CreateDeploymentRunInput)
          → Creation digests catalog now input db db'
          → P db.runs db'.runs)
      → P db.runs db'.runs
  Operation_cases P {db} {db'} (creates catalog now input run h) evolves grows =
      grows catalog now input (create_run-Creation digests write catalog now input db db' run h)
  Operation_cases P {db} {db'} (executes schedule run_id result h) evolves grows =
      evolves (execute_run-Evolves read schedule run_id db (result, db') h)
  Operation_cases P {db} {db'} (cancels now run_id actor done h) evolves grows =
      evolves (request_cancellation-Evolves now run_id actor db db' done h)
  Operation_cases P {db} {db'} (recovers now h) evolves grows =
      evolves (rw (← h) (reconcile_interrupted_runs-Evolves now db))
  Operation_cases P {db} {db'} (confirms now run_id actor note outcome h) evolves grows =
      evolves (confirm_interrupted_run_stopped-Evolves now run_id actor note db db' outcome h)
  Operation_cases P {db} {db'} (fails now run_id text done h) evolves grows =
      evolves (fail_run_on_internal_error-Evolves now run_id text db db' done h)

  -- However the operations follow one another, each run keeps its place, its environment, release,
  -- task and stored plan; its status only moves forward; and once it is over, its row never changes.
  pub History-Grows : {db db' : Db} → History digests read write db db' → Grows db.runs db'.runs
  History-Grows {db} begin = Grows-refl db.runs
  History-Grows {db} (after {db₁ = db₁} {db₂ = db₂} before step) =
      Grows-trans db.runs db₁.runs db₂.runs (History-Grows before)
        (Operation_cases Grows step (Evolves-Grows db₁.runs db₂.runs) Creation-Grows)
