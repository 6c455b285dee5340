-- ===== src/Run/Outcome/Redeploy.antt =====
-- What a successful unit leaves for the next plan (api/src/deployment_orchestrator.rs,
-- `persist_unit_outcome` and `classify_action`).
use mathlib.Core.Logic.{◌≢◌}
use easy_deploy.Prelude.{
  suc, ℕ, String, none, some, List, [], ◌∷◌, Bool, true, false, ◌&&◌, find, contains, ◌==◌, ◌≡◌,
  refl, ap, ◌∙◌, arith, Bool-cases, inl, inr,
}
use easy_deploy.Plan.Types.{
  normal, skip, DeploymentPlanItem, TargetUnitState, CurrentUnitNodeState, DeploymentMode,
}
use easy_deploy.Plan.Build.{is_stop, plan_item}
use easy_deploy.Plan.Classify.{classify_action}
use easy_deploy.Plan.Classify.Verdicts.{Matches, UpToDate, classify_action-skip_iff}
use easy_deploy.Run.Types.{Db, RuntimeStateRow, Message, UnitExecutionOutcome}
use easy_deploy.Run.Catalog.{Catalog, current_state}
use easy_deploy.Run.Outcome.{
  node_state, upsert_state, upsert_states, is_success, outcome_summary, persist_unit_outcome,
}

-- The row of a unit on a node of an environment.
abbrev pub stands_at : ℕ → ℕ → ℕ → RuntimeStateRow → Bool
stands_at environment_id unit_id node_id row =
    (row.environment_id == environment_id) && ((row.unit_id == unit_id) && (row.node_id == node_id))

find-upsert_state :
    (e u n : ℕ) (row : RuntimeStateRow) (rows : List RuntimeStateRow)
    → stands_at e u n row ≡ true
    → find (stands_at e u n) (upsert_state row rows) ≡ some row
unfolding find upsert_state
find-upsert_state e u n row [] h = ground arith
find-upsert_state e u n row (old ∷ rows) h =
    let rest = find-upsert_state e u n row rows h in ground (arith, rest)

find-upsert_state_other :
    (e u n : ℕ) (row : RuntimeStateRow) (rows : List RuntimeStateRow)
    → stands_at e u n row ≡ false
    → find (stands_at e u n) (upsert_state row rows) ≡ find (stands_at e u n) rows
unfolding find upsert_state
find-upsert_state_other e u n row [] h = ground arith
find-upsert_state_other e u n row (old ∷ rows) h =
    let rest = find-upsert_state_other e u n row rows h in ground (arith, rest)

module _ (now run_id e : ℕ) (item : DeploymentPlanItem) (summary : Message) where
  find-upsert_states_other :
      (n : ℕ) (nodes : List ℕ) (rows : List RuntimeStateRow)
      → contains n nodes ≡ false
      → find (stands_at e item.unit_id n) (upsert_states now run_id e item summary nodes rows)
        ≡ find (stands_at e item.unit_id n) rows
  unfolding upsert_states contains node_state
  find-upsert_states_other n [] rows h = refl
  find-upsert_states_other n (node ∷ nodes) rows h =
      find-upsert_states_other n nodes _ (ground arith)
      ∙ find-upsert_state_other e item.unit_id n (node_state now run_id e item summary node) rows
          (ground arith)

  find-upsert_states_in :
      (n : ℕ) (nodes : List ℕ) (rows : List RuntimeStateRow)
      → contains n nodes ≡ true
      → find (stands_at e item.unit_id n) (upsert_states now run_id e item summary nodes rows)
        ≡ some (node_state now run_id e item summary n)
  unfolding upsert_states contains node_state
  find-upsert_states_in n [] rows h = ground arith
  find-upsert_states_in n (node ∷ nodes) rows h = elim (Bool-cases (contains n nodes)) [
    | inl later ↦ find-upsert_states_in n nodes _ later
    | inr here ↦
        let same : node ≡ n = ground arith in
        rw same (
          find-upsert_states_other n nodes _ here
          ∙ find-upsert_state e item.unit_id n (node_state now run_id e item summary n) rows
              (ground arith))
  ]

-- The states of a unit on nodes, as they are reported to the planner.
unfoldable pub reported :
    Catalog → ℕ → ℕ → List RuntimeStateRow → List ℕ → List CurrentUnitNodeState
reported catalog e unit_id rows [] = []
reported catalog e unit_id rows (n ∷ ns) =
    let rest = reported catalog e unit_id rows ns in
    elim (find (stands_at e unit_id n) rows) [
      | none ↦ rest
      | some row ↦ current_state catalog row ∷ rest
    ]

reported-cons :
    (catalog : Catalog) (e unit_id n : ℕ) (rows : List RuntimeStateRow) (ns : List ℕ)
    (row : RuntimeStateRow)
    → find (stands_at e unit_id n) rows ≡ some row
    → reported catalog e unit_id rows (n ∷ ns)
      ≡ current_state catalog row ∷ reported catalog e unit_id rows ns
unfolding reported
reported-cons catalog e unit_id n rows ns row found = rw (found, reported) refl

node_state-Matches :
    (now run_id e : ℕ) (catalog : Catalog) (mode : DeploymentMode) (nodes : List ℕ)
    (current : List CurrentUnitNodeState) (target : TargetUnitState) (summary : Message)
    (version : String) (n : ℕ)
    → is_stop (plan_item mode nodes current target).action ≡ false
    → target.release_version ≡ some version
    → Matches target (
        current_state catalog
          (node_state now run_id e (plan_item mode nodes current target) summary n))
unfolding current_state node_state plan_item
node_state-Matches now run_id e catalog mode nodes current target summary version n runs released =
    record {
      healthy = rw runs refl;
      release = rw runs refl;
      fingerprint = rw runs refl;
      label = rw (runs, released) refl;
    }

module _ (now run_id e : ℕ) (catalog : Catalog) (mode : DeploymentMode) (nodes : List ℕ)
    (current : List CurrentUnitNodeState) (target : TargetUnitState) (summary : Message)
    (version : String) (rows : List RuntimeStateRow) where
  abbrev written : List RuntimeStateRow
  written = upsert_states now run_id e (plan_item mode nodes current target) summary nodes rows

  reported-Matches :
      is_stop (plan_item mode nodes current target).action ≡ false
      → target.release_version ≡ some version
      → (ns : List ℕ) → ((n : ℕ) → contains n ns ≡ true → contains n nodes ≡ true)
      → UpToDate target ns (reported catalog e target.unit_id written ns)
  unfolding reported contains plan_item
  reported-Matches runs released [] h = record { covered = refl; matching = tt }
  reported-Matches runs released (n ∷ ns) h =
      let rest = reported-Matches runs released ns (λ m p. h m (ground (arith, p))) in
      let found =
        find-upsert_states_in now run_id e (plan_item mode nodes current target) summary n nodes
          rows (h n (ground arith)) in
      let first =
        node_state-Matches now run_id e catalog mode nodes current target summary version n runs
          released in
      rw (reported-cons catalog e target.unit_id n written ns _ found)
        (record { covered = ap suc rest.covered; matching = (first, rest.matching) })

-- Once a unit that is not disabled and was not planned to be stopped has succeeded, an unforced
-- deployment of the same target to the same nodes skips it, if the target has a release version: the
-- states that the outcome writes are the ones that the planner asks for, whatever stood in the
-- table before.
pub persist_unit_outcome-skip :
    (now run_id task_id step_id e : ℕ) (catalog : Catalog) (mode : DeploymentMode) (nodes : List ℕ)
    (current : List CurrentUnitNodeState) (target : TargetUnitState) (summary : Message)
    (version : String) (db : Db)
    → target.desired_status ≢ "disabled"
    → is_stop (plan_item mode nodes current target).action ≡ false
    → target.release_version ≡ some version
    → (classify_action normal target nodes (
        reported catalog e target.unit_id
          (persist_unit_outcome now run_id task_id step_id e nodes
            (plan_item mode nodes current target)
            (UnitExecutionOutcome.success summary)
            db).states
          nodes)).0
      ≡ skip
unfolding persist_unit_outcome is_success outcome_summary
persist_unit_outcome-skip now run_id task_id step_id e catalog mode nodes current target summary
      version db active runs released =
    (classify_action-skip_iff normal target nodes _ active).1 (
      refl,
      reported-Matches now run_id e catalog mode nodes current target summary version db.states runs
          released nodes (λ n p. p),
    )
