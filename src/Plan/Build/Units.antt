-- ===== src/Plan/Build/Units.antt =====
-- The items of the target units (api/src/deployment_orchestrator.rs, the second loop of
-- `build_deployment_plan`).
use mathlib.Core.Logic.{◌↔◌, ◌⊎◌}
use easy_deploy.Prelude.{
  ℕ, String, List, [], ◌∷◌, map, Bool, true, false, contains, All, Distinct, ok, ◌≡◌, refl, arith,
  eq_iff, is_none, str_eq, ◌&&◌, ◌||◌, not, sym, ap, ◌∙◌, ◌>>=◌, >>=-eq-ok, ◌≢◌,
}
use easy_deploy.Plan.Types.{
  DeploymentMode, TargetUnitState, CurrentUnitNodeState, DeploymentPlanItem,
}
use easy_deploy.Plan.Build.{plan_item, plan_items}

-- A unit that a plan can be made for: disabled, or active with a release.
abbrev pub IsPlannable : TargetUnitState → Type 0
IsPlannable target =
    (target.desired_status ≡ "disabled")
    ⊎ ((target.desired_status ≡ "active") × (is_none target.unit_release_id ≡ false))

abbrev pub unit_ids : List TargetUnitState → List ℕ
unit_ids = map λ target. target.unit_id

-- Each unit is plannable, new among those met, and new among those before it.
abbrev pub Fresh : List ℕ → List TargetUnitState → Type 0
Fresh seen [] = Unit
Fresh seen (t ∷ ts) =
    (contains t.unit_id seen ≡ false) × IsPlannable t × Fresh (t.unit_id ∷ seen) ts

-- The two checks of a unit.
accepts : TargetUnitState → Bool
accepts t =
    (str_eq t.desired_status "active" || str_eq t.desired_status "disabled")
    && not (str_eq t.desired_status "active" && is_none t.unit_release_id)

active-ne-disabled : (s : String) → str_eq s "active" ≡ true → s ≢ "disabled"
active-ne-disabled s h e = text_differs (sym ((eq_iff s "active").0 h) ∙ e)
  where
    text_differs : ◌≢◌ {A = String} "active" "disabled"
    text_differs p = cc ((eq_iff "active" "disabled").1 p)

accepts_iff : (t : TargetUnitState) → (accepts t ≡ true) ↔ IsPlannable t
unfolding accepts
accepts_iff t = ground (
  arith,
  eq_iff t.desired_status "active",
  eq_iff t.desired_status "disabled",
  active-ne-disabled t.desired_status,
)

module _ (mode : DeploymentMode) (nodes : List ℕ) (current : List CurrentUnitNodeState) where
  -- One round of the loop.
  plan_items-step :
      (seen : List ℕ) (t : TargetUnitState) (ts : List TargetUnitState)
      → (contains t.unit_id seen ≡ false) × (accepts t ≡ true)
      → plan_items mode nodes current seen (t ∷ ts) ≡ (do
        items ← plan_items mode nodes current (t.unit_id ∷ seen) ts
        ok (plan_item mode nodes current t ∷ items))
  unfolding plan_items accepts
  plan_items-step seen t ts h = ground arith

  plan_items-accepts :
      (seen : List ℕ) (t : TargetUnitState) (ts : List TargetUnitState)
      (items : List DeploymentPlanItem)
      → plan_items mode nodes current seen (t ∷ ts) ≡ ok items
      → (contains t.unit_id seen ≡ false) × (accepts t ≡ true)
  unfolding plan_items accepts
  plan_items-accepts seen t ts items h = ground arith

  pub plan_items-Fresh :
      (seen : List ℕ) (targets : List TargetUnitState) (items : List DeploymentPlanItem)
      → plan_items mode nodes current seen targets ≡ ok items
      → Fresh seen targets
  plan_items-Fresh seen [] items h = tt
  plan_items-Fresh seen (t ∷ ts) items h =
      let passed = plan_items-accepts seen t ts items h in
      let (rest, e, _) =
        >>=-eq-ok (plan_items mode nodes current (t.unit_id ∷ seen) ts) _
          (sym (plan_items-step seen t ts passed) ∙ h) in
      (passed.0, (accepts_iff t).0 passed.1, plan_items-Fresh (t.unit_id ∷ seen) ts rest e)

  pub Fresh-plan_items :
      (seen : List ℕ) (targets : List TargetUnitState)
      → Fresh seen targets
      → plan_items mode nodes current seen targets ≡ ok (map (plan_item mode nodes current) targets)
  unfolding plan_items
  Fresh-plan_items seen [] f = refl
  Fresh-plan_items seen (t ∷ ts) f =
      plan_items-step seen t ts (f.0, (accepts_iff t).1 f.1)
      ∙ ap (λ r. r >>= λ items. ok (plan_item mode nodes current t ∷ items))
          (Fresh-plan_items (t.unit_id ∷ seen) ts f.2)

  -- When the loop succeeds it has made one item for each unit, in their order.
  pub plan_items-eq-map :
      (targets : List TargetUnitState) (items : List DeploymentPlanItem)
      → plan_items mode nodes current [] targets ≡ ok items
      → items ≡ map (plan_item mode nodes current) targets
  plan_items-eq-map targets items h =
      cc (h, Fresh-plan_items [] targets (plan_items-Fresh [] targets items h))

-- No id of the second list is in the first.
abbrev Apart : List ℕ → List TargetUnitState → Type 0
Apart seen [] = Unit
Apart seen (t ∷ ts) = (contains t.unit_id seen ≡ false) × Apart seen ts

Apart-cons :
    (a : ℕ) (seen : List ℕ) (ts : List TargetUnitState)
    → Apart (a ∷ seen) ts ↔ (Apart seen ts × (contains a (unit_ids ts) ≡ false))
unfolding contains
Apart-cons a seen [] = (λ _. (tt, refl), λ _. tt)
Apart-cons a seen (t ∷ ts) = (
  λ h.
      let rest = (Apart-cons a seen ts).0 h.1 in
      ((ground (arith, h.0), rest.0), ground (arith, h.0, rest.1)),
  λ h. (ground (arith, h.0.0, h.1), (Apart-cons a seen ts).1 (h.0.1, ground (arith, h.1))),
)

Fresh-Distinct :
    (seen : List ℕ) (ts : List TargetUnitState)
    → Fresh seen ts ↔ (Apart seen ts × Distinct (unit_ids ts) × All IsPlannable ts)
Fresh-Distinct seen [] = (λ _. (tt, tt, tt), λ _. tt)
Fresh-Distinct seen (t ∷ ts) = (
  λ f.
      let rest = (Fresh-Distinct (t.unit_id ∷ seen) ts).0 f.2 in
      let apart = (Apart-cons t.unit_id seen ts).0 rest.0 in
      ((f.0, apart.0), (apart.1, rest.1), (f.1, rest.2)),
  λ h. (
    h.0.0,
    h.2.0,
    (Fresh-Distinct (t.unit_id ∷ seen) ts).1
        ((Apart-cons t.unit_id seen ts).1 (h.0.1, h.1.0), h.1.1, h.2.1),
  ),
)

Apart-nil : (ts : List TargetUnitState) → Apart [] ts
unfolding contains
Apart-nil [] = tt
Apart-nil (t ∷ ts) = (refl, Apart-nil ts)

-- The loop may succeed exactly when the unit ids are distinct and each unit is plannable.
pub Fresh-iff :
    (ts : List TargetUnitState) → Fresh [] ts ↔ (Distinct (unit_ids ts) × All IsPlannable ts)
Fresh-iff ts = (
  λ f. let h = (Fresh-Distinct [] ts).0 f in (h.1, h.2),
  λ h. (Fresh-Distinct [] ts).1 (Apart-nil ts, h.0, h.1),
)
