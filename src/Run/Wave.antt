-- ===== src/Run/Wave.antt =====
-- One wave of units (api/src/deployment_orchestrator.rs, `execute_wave`). What the loop cannot know
-- beforehand is its schedule: whether the cancellation signal is up when a round reads it, which
-- running unit ends first, and how it ends.
pub mod Rounds
pub mod Progress
pub mod Ending
mod Examples
use easy_deploy.Prelude.{
  ℕ, zero, suc, ◌+◌, String, Option, none, some, List, [], ◌∷◌, ◌++◌, Bool, true, false, not, ◌&&◌,
  ◌||◌, length, is_empty, if◌then◌else◌, ltb, Result, ok, err,
}
use easy_deploy.Plan.Types.{DeploymentPlanItem}
use easy_deploy.Run.Types.{WaveOutcome, UnitExecutionOutcome, OrchestratorError, database, lit, Db}
use easy_deploy.Run.Claim.{start_unit_result}
use easy_deploy.Run.Outcome.{persist_unit_outcome}

-- One round of the schedule. A unit whose task panicked has no outcome.
pub record Tick : Type 0 where
  pub now : ℕ
  pub cancelled : Bool
  pub picked : ℕ
  pub outcome : Option UnitExecutionOutcome

-- The arguments that stay the same through the wave.
pub record WaveConfig : Type 0 where
  pub deployment_run_id : ℕ
  pub task_id : ℕ
  pub environment_id : ℕ
  pub target_node_ids : List ℕ
  pub max_parallel : ℕ

-- The variables of the loop; a running unit stands with its step id.
pub record Wave : Type 0 where
  pub waiting : List DeploymentPlanItem
  pub running : List (DeploymentPlanItem × ℕ)
  pub failure_seen : Bool
  pub cancellation_seen : Bool
  pub db : Db

-- A computation that has already committed when it fails.
abbrev pub Step : Type 0 → Type 0
Step A = Result A OrchestratorError

-- The inner loop: starts units while there is room.
unfoldable pub fill : ℕ → WaveConfig → List DeploymentPlanItem → Wave → Step (Unit {0}) × Wave
fill now config [] w = (ok tt, record w { waiting = [] })
fill now config (item ∷ items) w =
    let starting = start_unit_result now config.deployment_run_id config.task_id item w.db in
    if ltb (length w.running) config.max_parallel
    then elim starting [
      | err e ↦ (err e, record w { waiting = items })
      | ok (step_id, db) ↦
          fill now config items (record w { running = w.running ++ (item, step_id) ∷ []; db = db })
    ]
    else (ok tt, record w { waiting = item ∷ items })

-- `join_next`: some running unit; a number past the end means the last.
unfoldable pub take_at {ℓ} : {A : Type ℓ} → ℕ → A → List A → A × List A
take_at zero x xs = (x, xs)
take_at (suc i) x [] = (x, [])
take_at (suc i) x (y ∷ ys) = let (z, rest) = take_at i y ys in (z, x ∷ rest)

unfoldable pub is_failure : UnitExecutionOutcome → Bool
is_failure (UnitExecutionOutcome.failed kind summary exit_code) = true
is_failure _ = false

unfoldable pub is_unknown : UnitExecutionOutcome → Bool
is_unknown (UnitExecutionOutcome.canceled_unknown summary) = true
is_unknown _ = false

unfoldable pub persist :
    ℕ → WaveConfig → DeploymentPlanItem → ℕ → UnitExecutionOutcome → Wave → Wave
persist now config item step_id outcome w = record w {
  failure_seen = w.failure_seen || is_failure outcome;
  cancellation_seen = w.cancellation_seen || is_unknown outcome;
  db =
      persist_unit_outcome now config.deployment_run_id config.task_id step_id config.environment_id
        config.target_node_ids item outcome w.db;
}

-- What a round leads to: the next round, the end of the loop, or an error.
pub data Round : Type 0 where
  next : Wave → Round
  finish : Wave → Round
  abort : OrchestratorError → Wave → Round

-- The end of the round: a running unit is awaited, or there is none.
unfoldable pub join : Tick → WaveConfig → List (DeploymentPlanItem × ℕ) → Wave → Round
unfolding is_failure is_unknown persist
join tick config [] w = finish w
join tick config (first ∷ rest) w =
    let (picked, others) = take_at tick.picked first rest in
    elim tick.outcome [
      | none ↦ abort (database (lit "部署单元执行任务异常终止" ∷ [])) (record w { running = others })
      | some outcome ↦
          next (persist tick.now config picked.0 picked.1 outcome (record w { running = others }))
    ]

unfoldable pub join_after : Tick → WaveConfig → Step (Unit {0}) × Wave → Round
join_after tick config (err e, w) = abort e w
join_after tick config (ok _, w) = join tick config w.running w

-- `if cancellation.is_cancelled() { cancellation_seen = true; }`
unfoldable pub observe : Tick → Wave → Wave
observe tick w = record w { cancellation_seen = w.cancellation_seen || tick.cancelled }

-- The units that may be started: none once a failure or a cancellation was seen.
unfoldable pub fill_if_open : ℕ → WaveConfig → Wave → Step (Unit {0}) × Wave
fill_if_open now config w =
    if w.failure_seen || w.cancellation_seen then (ok tt, w) else fill now config w.waiting w

-- The body of the outer loop.
unfoldable pub round : Tick → WaveConfig → Wave → Round
unfolding observe
round tick config w = join_after tick config (fill_if_open tick.now config (observe tick w))

-- Nothing is left to start or to await.
unfoldable pub is_idle : Wave → Bool
is_idle w = is_empty w.waiting && is_empty w.running

-- The outer loop over a schedule; `none` means that the schedule ended first.
unfoldable pub wave_loop : WaveConfig → List Tick → Wave → Option (Step (Unit {0}) × Wave)
wave_loop config [] w = if is_idle w then some (ok tt, w) else none
wave_loop config (tick ∷ ticks) w =
    if is_idle w then some (ok tt, w) else elim (round tick config w) [
      | next w' ↦ wave_loop config ticks w'
      | finish w' ↦ some (ok tt, w')
      | abort e w' ↦ some (err e, w')
    ]

unfoldable pub wave_outcome : Wave → WaveOutcome
wave_outcome w =
    if w.cancellation_seen
    then WaveOutcome.canceled
    else if w.failure_seen
    then WaveOutcome.failed
    else WaveOutcome.success

-- The wave as it is before the first round.
unfoldable pub new_wave : Bool → List DeploymentPlanItem → Db → Wave
new_wave cancelled items db = record {
  waiting = items;
  running = [];
  failure_seen = false;
  cancellation_seen = cancelled;
  db = db;
}

abbrev pub wave_result : Step (Unit {0}) × Wave → Step WaveOutcome × Db
wave_result (err e, w) = (err e, w.db)
wave_result (ok _, w) = (ok (wave_outcome w), w.db)

unfoldable pub execute_wave :
    WaveConfig → Bool → List Tick → List DeploymentPlanItem → Db → Option (Step WaveOutcome × Db)
unfolding new_wave wave_loop wave_outcome
execute_wave config cancelled ticks items db =
    elim (wave_loop config ticks (new_wave cancelled items db)) [
      | none ↦ none
      | some ended ↦ some (wave_result ended)
    ]
