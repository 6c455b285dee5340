-- ===== src/Plan/Classify/Versions.antt =====
-- The version comparison of the planner (api/src/deployment_orchestrator.rs, the end of
-- `classify_action`).
use mathlib.Core.Logic.{◌≢◌}
use easy_deploy.Prelude.{
  ℕ, ℤ, Option, none, some, List, [], ◌∷◌, true, false, all, any, length, All, eq_iff, ◌≡◌, refl,
  arith, lt_int,
}
use easy_deploy.Plan.Types.{DeploymentMode, normal, upgrade, TargetUnitState, CurrentUnitNodeState}
use easy_deploy.Plan.Classify.{
  has_status, matches_target, untrusted, current_codes, classify_versions, classify_disabled,
  classify_covered, classify_action,
}

-- A reported version code is below `c`; a node that reports none is not asked.
abbrev pub Below : ℤ → Option ℤ → Type 0
Below c none = Unit
Below c (some code) = lt_int code c ≡ true

Below-cons :
    (c : ℤ) (o : Option ℤ) (codes : List ℤ)
    → all (λ code. lt_int code c) (elim o [ none ↦ codes | some code ↦ code ∷ codes ]) ≡ true
    → Below c o × (all (λ code. lt_int code c) codes ≡ true)
unfolding all
Below-cons c none codes h = (tt, h)
Below-cons c (some code) codes h = ground arith

-- Every reported code is below `c` when the test over the reported codes says so.
current_codes-Below :
    (c : ℤ) (states : List CurrentUnitNodeState)
    → all (λ code. lt_int code c) (current_codes states) ≡ true
    → All (λ s. Below c s.active_version_code) states
unfolding current_codes
current_codes-Below c [] h = tt
current_codes-Below c (s ∷ ss) h =
    let p = Below-cons c s.active_version_code (current_codes ss) h in
    (p.0, current_codes-Below c ss p.1)

classify_versions-upgrade :
    (code : Option ℤ) (states : List CurrentUnitNodeState)
    → (classify_versions code (current_codes states)).0 ≡ upgrade
    → (c : ℤ) × (code ≡ some c) × All (λ s. Below c s.active_version_code) states
unfolding classify_versions
classify_versions-upgrade none states h = ground arith
classify_versions-upgrade (some c) states h = (c, refl, current_codes-Below c states (ground arith))

-- A unit is upgraded only to a known version code that no target node's known code reaches, in a
-- deployment that is not forced, with a state from each target node, all of them trusted, not all
-- stopped, and not all up to date.
pub classify_action-upgrade :
    (mode : DeploymentMode) (target : TargetUnitState) (target_node_ids : List ℕ)
    (states : List CurrentUnitNodeState)
    → (classify_action mode target target_node_ids states).0 ≡ upgrade
    → ((c : ℤ) × (target.release_version_code ≡ some c)
        × All (λ s. Below c s.active_version_code) states)
      × (target.desired_status ≢ "disabled")
      × (mode ≡ normal)
      × (length states ≡ length target_node_ids)
      × (any untrusted states ≡ false)
      × (all (has_status "stopped") states ≡ false)
      × (all (matches_target target) states ≡ false)
unfolding classify_action classify_disabled classify_covered
classify_action-upgrade mode target nodes states h = (
  classify_versions-upgrade target.release_version_code states (ground arith),
  ground (arith, eq_iff target.desired_status "disabled"),
  ground arith,
  ground arith,
  ground arith,
  ground arith,
  ground arith,
)
