-- ===== src/Run/History/Exclusion.antt =====
-- The lock of an environment: at most one of its runs is active
-- (api/src/deployment_orchestrator.rs, `create_run` and the operations that end a run).
use easy_deploy.Prelude.{
  ℕ, ◌+◌, ◌≤◌, none, List, [], ◌∷◌, ◌++◌, true, count, ◌==◌, ok, ◌≡◌, refl, arith, Bool-cases,
  Option-cases, Result-cases, inl, inr, if◌then◌else◌, String,
}
use easy_deploy.Plan.Types.{DeploymentMode, DeploymentPlan, Digests}
use easy_deploy.Plan.Build.{build_deployment_plan}
use easy_deploy.Plan.Build.Correct.{build_deployment_plan-environment}
use easy_deploy.Run.Types.{RunRow, Db, CreateDeploymentRunInput}
use easy_deploy.Run.Catalog.{Catalog, load_deployment_plan, select_identity, plan_input}
use easy_deploy.Run.Create.{PlanWriter, is_active_in, last_active, new_run, created}
use easy_deploy.Run.Execute.{PlanReader}
use easy_deploy.Run.History.{History, begin, after}
use easy_deploy.Run.History.Evolution.{Follows, Evolves}
use easy_deploy.Run.History.Creations.{Creation}
use easy_deploy.Run.History.Executions.{Operation_cases}

-- Of each environment at most one run is queued, running or to be reconciled.
pub record IsExclusive (runs : List RunRow) : Type 0 where
  pub at : (environment_id : ℕ) → count (is_active_in environment_id) runs ≤ 1

active_before :
    (e : ℕ) (run run' : RunRow)
    → Follows run run'
    → is_active_in e run' ≡ true
    → is_active_in e run ≡ true
active_before e run run' f h = ground (arith, f.forward, f.environment)

count-Evolves :
    (e : ℕ) (runs runs' : List RunRow)
    → Evolves runs runs'
    → count (is_active_in e) runs' ≤ count (is_active_in e) runs
unfolding count
count-Evolves e [] [] h = omega arith
count-Evolves e [] (x ∷ xs) h = absurd h
count-Evolves e (run ∷ runs) [] h = absurd h
count-Evolves e (run ∷ runs) (run' ∷ runs') h =
    let rest = count-Evolves e runs runs' h.1 in
    let before = active_before e run run' h.0 in
    elim (Bool-cases (is_active_in e run')) [
      | inl now ↦ rw (now, before now) (omega (arith, rest))
      | inr ended ↦ rw ended (ground (arith, rest))
    ]

count-append-one :
    (e : ℕ) (runs : List RunRow) (run : RunRow)
    → count (is_active_in e) (runs ++ run ∷ [])
      ≡ count (is_active_in e) runs + count (is_active_in e) (run ∷ [])
unfolding count
count-append-one e [] run = omega arith
count-append-one e (r ∷ rs) run = omega (arith, count-append-one e rs run)

none_active :
    (e : ℕ) (runs : List RunRow) → last_active e runs ≡ none → count (is_active_in e) runs ≡ 0
unfolding last_active count
none_active e [] h = refl
none_active e (run ∷ runs) h = elim (Option-cases (last_active e runs)) [
  | inl later ↦ ground (arith, none_active e runs later)
  | inr (r, later) ↦ ground arith
]

load_deployment_plan-environment :
    (digests : Digests) (catalog : Catalog) (environment_id app_release_id : ℕ)
    (mode : DeploymentMode) (db : Db) (plan : DeploymentPlan)
    → load_deployment_plan digests catalog environment_id app_release_id mode db ≡ ok plan
    → plan.environment_id ≡ environment_id
unfolding load_deployment_plan plan_input
load_deployment_plan-environment digests catalog environment_id app_release_id mode db plan h =
    elim (Option-cases (select_identity catalog environment_id app_release_id db)) [
      | inl e ↦ ground arith
      | inr (identity, e) ↦
          let input = plan_input digests catalog environment_id app_release_id mode identity db in
          elim (Result-cases (build_deployment_plan digests input)) [
            | inr (e', bad) ↦ ground arith
            | inl (built, good) ↦
                let same : built ≡ plan = ground arith in
                rw (← same) (build_deployment_plan-environment digests input built good)
          ]
    ]

count-new_run :
    (e now id task_id : ℕ) (input : CreateDeploymentRunInput) (plan : DeploymentPlan)
    (json : String)
    → count (is_active_in e) (new_run now id task_id input plan json ∷ [])
      ≡ (if plan.environment_id == e then 1 else 0)
unfolding count new_run
count-new_run e now id task_id input plan json = ground arith

Creation-IsExclusive :
    {digests : Digests} {db db' : Db} (catalog : Catalog) (now : ℕ)
    (input : CreateDeploymentRunInput)
    → Creation digests catalog now input db db'
    → IsExclusive db.runs
    → IsExclusive db'.runs
unfolding created
Creation-IsExclusive {digests} {db} {db'} catalog now input c x = record {
  at = λ e.
      let environment =
        load_deployment_plan-environment digests catalog input.environment_id input.app_release_id
          input.mode db c.plan c.loaded in
      let before = x.at e in
      rw (← c.committed) (
        ground (
          arith,
          count-append-one e db.runs
              (new_run now db.next_run db.next_task input c.plan c.plan_json),
          count-new_run e now db.next_run db.next_task input c.plan c.plan_json,
          none_active input.environment_id db.runs c.idle,
          environment,
          before,
        ));
}

-- From a database in which no environment has two active runs, no history of operations reaches
-- one in which some environment has.
pub History-IsExclusive :
    {digests : Digests} {read : PlanReader} {write : PlanWriter} {db db' : Db}
    → History digests read write db db'
    → IsExclusive db.runs
    → IsExclusive db'.runs
History-IsExclusive begin x = x
History-IsExclusive (after {db₁ = db₁} {db₂ = db₂} before step) x =
    Operation_cases (λ runs runs'. IsExclusive runs → IsExclusive runs') step
      (λ evolves x₁. record {
        at = λ e.
            let less = count-Evolves e db₁.runs db₂.runs evolves in
            let held = x₁.at e in omega (arith, less, held);
      })
      Creation-IsExclusive (History-IsExclusive before x)
