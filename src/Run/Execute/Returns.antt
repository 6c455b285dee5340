-- ===== src/Run/Execute/Returns.antt =====
-- That an execution ends (api/src/deployment_orchestrator.rs, `execute_run_with_cancellation`).
use easy_deploy.Prelude.{
  ℕ, suc, ◌≤◌, some, List, [], ◌∷◌, true, false, ◌||◌, length, is_some, Result, ok, err, ◌≡◌, refl,
  arith, Bool-cases, Result-cases, Option-cases, inl, inr,
}
use easy_deploy.Plan.Types.{DeploymentPlan, DeploymentPlanItem}
use easy_deploy.Plan.Waves.{execution_waves}
use easy_deploy.Run.Types.{
  Db, WaveOutcome, OrchestratorError, ExecutionRunRow, DeploymentRunOutcome,
}
use easy_deploy.Run.Claim.{claim_deployment_run, cancellation_requested}
use easy_deploy.Run.Wave.{WaveConfig, execute_wave}
use easy_deploy.Run.Wave.Ending.{execute_wave-returns}
use easy_deploy.Run.Execute.{
  Schedule, PlanReader, run_waves, progress_of, execute_claimed, execute_run, stored_plan,
  wave_config,
}

-- The schedule has as many rounds for each wave as the wave has units.
abbrev pub Covers : Schedule → ℕ → List (List DeploymentPlanItem) → Type 0
Covers schedule index [] = Unit
Covers schedule index (items ∷ waves) =
    (length items ≤ length (schedule.waves index).ticks) × Covers schedule (suc index) waves

run_waves-is_some :
    (schedule : Schedule) (run_id : ℕ) (config : WaveConfig) (index : ℕ)
    (waves : List (List DeploymentPlanItem)) (db : Db)
    → Covers schedule index waves
    → is_some (run_waves schedule run_id config index waves db) ≡ true
unfolding run_waves
run_waves-is_some schedule run_id config index [] db c = refl
run_waves-is_some schedule run_id config index (items ∷ waves) db c =
    let wave = schedule.waves index in
    elim (Result-cases (cancellation_requested run_id db)) [
      | inr (e, failed) ↦ rw (failed, run_waves) refl
      | inl (true, answer) ↦ rw (answer, run_waves) refl
      | inl (false, answer) ↦
          elim (Option-cases (execute_wave config wave.cancelled wave.ticks items db)) [
            | inl short ↦
                let ran = execute_wave-returns config wave.cancelled wave.ticks items db c.0 in
                ground (arith, ran.1)
            | inr ((err e, db₁), ran) ↦ rw (answer, ran, run_waves) refl
            | inr ((ok WaveOutcome.success, db₁), ran) ↦
                rw (answer, ran, run_waves)
                  (run_waves-is_some schedule run_id config (suc index) waves db₁ c.1)
            | inr ((ok WaveOutcome.failed, db₁), ran) ↦ rw (answer, ran, run_waves) refl
            | inr ((ok WaveOutcome.canceled, db₁), ran) ↦ rw (answer, ran, run_waves) refl
          ]
    ]

execute_claimed-is_some :
    (schedule : Schedule) (run_id : ℕ) (run : ExecutionRunRow) (plan : DeploymentPlan) (db : Db)
    → Covers schedule 0 (execution_waves plan.items)
    → is_some (execute_claimed schedule run_id run plan db) ≡ true
unfolding execute_claimed progress_of
execute_claimed-is_some schedule run_id run plan db c =
    elim (Bool-cases (schedule.cancelled || is_some run.cancel_requested_at)) [
      | inl canceled ↦ rw (canceled, execute_claimed, progress_of) refl
      | inr going ↦
          let waves = execution_waves plan.items in
          let config = wave_config run_id run plan in
          let ends = run_waves-is_some schedule run_id config 0 waves db c in
          elim (Option-cases (run_waves schedule run_id config 0 waves db)) [
            | inl short ↦ ground (arith, ends)
            | inr ((err e, db₁), ran) ↦ rw (going, ran, execute_claimed, progress_of) refl
            | inr ((ok progress, db₁), ran) ↦ rw (going, ran, execute_claimed, progress_of) refl
          ]
    ]

execute_run-is_some :
    (read : PlanReader) (schedule : Schedule) (run_id : ℕ) (db : Db)
    → ((run : ExecutionRunRow) (claimed : Db) (plan : DeploymentPlan)
        → claim_deployment_run schedule.now run_id db ≡ ok (run, claimed)
        → stored_plan read run ≡ ok plan
        → Covers schedule 0 (execution_waves plan.items))
    → is_some (execute_run read schedule run_id db) ≡ true
unfolding execute_run
execute_run-is_some read schedule run_id db c =
    elim (Result-cases (claim_deployment_run schedule.now run_id db)) [
      | inr (e, failed) ↦ rw (failed, execute_run) refl
      | inl ((run, db₁), claim) ↦ elim (Result-cases (stored_plan read run)) [
        | inr (e, bad) ↦ rw (claim, bad, execute_run) refl
        | inl (plan, good) ↦
            rw (claim, good, execute_run)
              (execute_claimed-is_some schedule run_id run plan db₁ (c run db₁ plan claim good))
      ]
    ]

-- Executing a run always ends, with an outcome or an error, if the schedule has as many rounds for
-- each wave of the plan that the claimed run stores as the wave has units, if the run can be claimed
-- and its plan be read.
pub execute_run-returns :
    (read : PlanReader) (schedule : Schedule) (run_id : ℕ) (db : Db)
    → ((run : ExecutionRunRow) (claimed : Db) (plan : DeploymentPlan)
        → claim_deployment_run schedule.now run_id db ≡ ok (run, claimed)
        → stored_plan read run ≡ ok plan
        → Covers schedule 0 (execution_waves plan.items))
    → (r : Result DeploymentRunOutcome OrchestratorError × Db) × (execute_run read schedule run_id
          db
        ≡ some r)
execute_run-returns read schedule run_id db c =
    elim (Option-cases (execute_run read schedule run_id db)) [
      | inl short ↦ ground (arith, execute_run-is_some read schedule run_id db c)
      | inr found ↦ found
    ]
