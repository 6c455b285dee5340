-- ===== src/Run/History/WaveRuns.antt =====
-- The waves of an execution leave the table of runs alone.
use easy_deploy.Prelude.{
  ℕ, Option, some, List, [], ◌∷◌, Bool, ◌||◌, ltb, length, ok, err, ◌≡◌, refl, ◌∙◌, arith,
  Bool-cases, Option-cases, inl, inr, Result-cases,
}
use easy_deploy.Plan.Types.{DeploymentPlanItem}
use easy_deploy.Run.Types.{RunRow, Db, WaveOutcome}
use easy_deploy.Run.Claim.{start_unit_result, started}
use easy_deploy.Run.Outcome.{persist_unit_outcome}
use easy_deploy.Run.Wave.{
  Tick, WaveConfig, Wave, Step, fill, join, join_after, observe, fill_if_open, round, Round, next,
  finish, abort, is_idle, wave_loop, new_wave, execute_wave, wave_result,
}
use easy_deploy.Run.Wave.Ending.{goes_on, ends, fails, round_case}
use easy_deploy.Run.Execute.{Progress}

runs-start_unit_result :
    (now run_id task_id : ℕ) (item : DeploymentPlanItem) (db db' : Db) (step_id : ℕ)
    → start_unit_result now run_id task_id item db ≡ ok (step_id, db')
    → db'.runs ≡ db.runs
unfolding start_unit_result started
runs-start_unit_result now run_id task_id item db db' step_id h = ground arith

runs-fill :
    (now : ℕ) (config : WaveConfig) (items : List DeploymentPlanItem) (w : Wave)
    → (fill now config items w).1.db.runs ≡ w.db.runs
unfolding fill
runs-fill now config [] w = refl
runs-fill now config (item ∷ items) w =
    elim (Bool-cases (ltb (length w.running) config.max_parallel)) [
      | inr full ↦ rw full refl
      | inl room ↦
          elim (Result-cases
            (start_unit_result now config.deployment_run_id config.task_id item w.db)) [
              | inr (e, refused) ↦ rw (room, refused) refl
              | inl ((step_id, db), ok_start) ↦
                  rw (room, ok_start)
                    (runs-fill now config items _
                      ∙ runs-start_unit_result now config.deployment_run_id config.task_id item w.db
                          db step_id ok_start)
            ]
    ]

-- The runs that a round leaves, whichever way it goes on.
abbrev pub round_runs : Round → List RunRow
round_runs (next w) = w.db.runs
round_runs (finish w) = w.db.runs
round_runs (abort e w) = w.db.runs

runs-join :
    (tick : Tick) (config : WaveConfig) (rs : List (DeploymentPlanItem × ℕ)) (w : Wave)
    → round_runs (join tick config rs w) ≡ w.db.runs
unfolding join persist_unit_outcome
runs-join tick config [] w = refl
runs-join tick config (first ∷ rest) w = elim (Option-cases tick.outcome) [
  | inl e ↦ rw (e, join) refl
  | inr (outcome, e) ↦ rw (e, join) refl
]

runs-fill_if_open :
    (now : ℕ) (config : WaveConfig) (w : Wave) → (fill_if_open now config w).1.db.runs ≡ w.db.runs
unfolding fill_if_open
runs-fill_if_open now config w = elim (Bool-cases (w.failure_seen || w.cancellation_seen)) [
  | inl e ↦ rw e refl
  | inr e ↦ rw e (runs-fill now config w.waiting w)
]

runs-join_after :
    (tick : Tick) (config : WaveConfig) (r : Step (Unit {0})) (w : Wave)
    → round_runs (join_after tick config (r, w)) ≡ w.db.runs
unfolding join_after
runs-join_after tick config (err e) w = refl
runs-join_after tick config (ok u) w = runs-join tick config w.running w

runs-round :
    (tick : Tick) (config : WaveConfig) (w : Wave) → round_runs (round tick config w) ≡ w.db.runs
unfolding round
runs-round tick config w =
    runs-join_after tick config _ _ ∙ runs-fill_if_open tick.now config (observe tick w)

runs-some :
    {r r' : Step (Unit {0})} {w w' : Wave}
    → ◌≡◌ {A = Option (Step (Unit {0}) × Wave)} (some (r, w)) (some (r', w'))
    → w'.db.runs ≡ w.db.runs
runs-some h = ground arith

runs_wave_result :
    {r : Step WaveOutcome} {db : Db} (r' : Step (Unit {0})) (w : Wave)
    → ◌≡◌ {A = Option (Step WaveOutcome × Db)} (some (wave_result (r', w))) (some (r, db))
    → db.runs ≡ w.db.runs
runs_wave_result (ok u) w h = ground arith
runs_wave_result (err e) w h = ground arith

runs-wave_loop :
    (config : WaveConfig) (ticks : List Tick) (w w' : Wave) (r : Step (Unit {0}))
    → wave_loop config ticks w ≡ some (r, w')
    → w'.db.runs ≡ w.db.runs
unfolding wave_loop
runs-wave_loop config [] w w' r h = elim (Bool-cases (is_idle w)) [
  | inl e ↦ ground arith
  | inr e ↦ ground arith
]
runs-wave_loop config (tick ∷ ticks) w w' r h =
    let kept = runs-round tick config w in
    elim (Bool-cases (is_idle w)) [
      | inl e ↦ ground arith
      | inr more ↦ elim (round_case (round tick config w)) [
        | goes_on w₁ e ↦ runs-wave_loop config ticks w₁ w' r (rw (more, e) at h) ∙ (rw e at kept)
        | ends w₁ e ↦ runs-some (rw (more, e) at h) ∙ (rw e at kept)
        | fails e' w₁ e ↦ runs-some (rw (more, e) at h) ∙ (rw e at kept)
      ]
    ]

pub runs-execute_wave :
    (config : WaveConfig) (cancelled : Bool) (ticks : List Tick) (items : List DeploymentPlanItem)
    (db db' : Db) (r : Step WaveOutcome)
    → execute_wave config cancelled ticks items db ≡ some (r, db')
    → db'.runs ≡ db.runs
unfolding execute_wave
runs-execute_wave config cancelled ticks items db db' r h =
    elim (Option-cases (wave_loop config ticks (new_wave cancelled items db))) [
      | inl e ↦ ground arith
      | inr ((r', w'), e) ↦
          runs_wave_result r' w' (rw (e, execute_wave) at h)
          ∙ runs-wave_loop config ticks (new_wave cancelled items db) w' r' e
    ]

-- Of the waves of an execution: the table of runs of the state that an execution goes on from.
abbrev pub progress_runs : Step Progress × Db → List RunRow
progress_runs (ok progress, db) = progress.db.runs
progress_runs (err e, db) = db.runs
