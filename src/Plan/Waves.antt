-- ===== src/Plan/Waves.antt =====
-- The waves in which a plan is executed (api/src/deployment_orchestrator.rs, `execution_waves`).
pub mod Partition
use easy_deploy.Prelude.{
  ℕ, ℤ, List, [], ◌∷◌, ◌++◌, Bool, true, false, not, ◌&&◌, keep, if◌then◌else◌, eq_int,
}
use easy_deploy.Plan.Types.{DeploymentAction, skip, DeploymentPlanItem}
use easy_deploy.Plan.Build.{is_stop}

unfoldable pub is_skip : DeploymentAction → Bool
is_skip skip = true
is_skip _ = false

-- Equality of the two tests `action == Stop`.
unfoldable pub same_kind : Bool → Bool → Bool
same_kind true b = b
same_kind false b = not b

-- An item joins the wave that `first` opened.
unfoldable pub joins : DeploymentPlanItem → DeploymentPlanItem → Bool
unfolding is_stop same_kind
joins first item =
    same_kind (is_stop first.action) (is_stop item.action) && eq_int first.stage_no item.stage_no

-- The test `append` on the last wave.
unfoldable pub joins_wave : List DeploymentPlanItem → DeploymentPlanItem → Bool
joins_wave [] item = false
joins_wave (first ∷ rest) item = joins first item

-- One round of the loop: the item goes to the back wave or opens a new one.
unfoldable pub add_item :
    List (List DeploymentPlanItem) → DeploymentPlanItem → List (List DeploymentPlanItem)
add_item [] item = (item ∷ []) ∷ []
add_item (wave ∷ []) item =
    if joins_wave wave item then (wave ++ item ∷ []) ∷ [] else wave ∷ (item ∷ []) ∷ []
add_item (wave ∷ next ∷ waves) item = wave ∷ add_item (next ∷ waves) item

unfoldable pub add_items :
    List (List DeploymentPlanItem) → List DeploymentPlanItem → List (List DeploymentPlanItem)
add_items waves [] = waves
add_items waves (item ∷ items) = add_items (add_item waves item) items

abbrev pub executable : DeploymentPlanItem → Bool
executable item = not (is_skip item.action)

unfoldable pub execution_waves : List DeploymentPlanItem → List (List DeploymentPlanItem)
unfolding add_items
execution_waves items = add_items [] (keep executable items)
