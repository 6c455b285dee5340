-- ===== src/Plan/Classify/Verdicts.antt =====
-- When a unit is skipped, stopped or upgraded (api/src/deployment_orchestrator.rs,
-- `classify_action`).
use mathlib.Core.Logic.{◌≢◌, ◌↔◌}
use easy_deploy.Prelude.{
  ℕ, ℤ, String, Option, none, some, List, [], ◌∷◌, true, all, length, All, all_sound, all_complete,
  All-imp, eq_iff, ◌≡◌, arith,
}
use easy_deploy.Plan.Types.{
  DeploymentMode, normal, skip, stop, TargetUnitState, CurrentUnitNodeState,
}
use easy_deploy.Plan.Classify.{
  opt_id_eq, opt_text_eq, has_status, matches_target, current_codes, classify_versions,
  classify_disabled, classify_covered, classify_action,
}

-- The state of a node agrees with the target in all that the planner compares.
pub record Matches (target : TargetUnitState) (state : CurrentUnitNodeState) : Type 0 where
  pub healthy : state.runtime_status ≡ "healthy"
  pub release : state.active_unit_release_id ≡ target.unit_release_id
  pub fingerprint : state.active_fingerprint ≡ target.target_fingerprint
  pub label : some state.container_version_label ≡ target.release_version

-- Every target node reports a state, and every state agrees with the target.
pub record UpToDate (target : TargetUnitState) (target_node_ids : List ℕ)
    (states : List CurrentUnitNodeState) : Type 0 where
  pub covered : length states ≡ length target_node_ids
  pub matching : All (Matches target) states

opt_id_eq_iff : (a b : Option ℕ) → (opt_id_eq a b ≡ true) ↔ (a ≡ b)
unfolding opt_id_eq
opt_id_eq_iff none none = ground arith
opt_id_eq_iff none (some b) = ground arith
opt_id_eq_iff (some a) none = ground arith
opt_id_eq_iff (some a) (some b) = ground arith

opt_text_eq_iff : (a b : Option String) → (opt_text_eq a b ≡ true) ↔ (a ≡ b)
unfolding opt_text_eq
opt_text_eq_iff none none = ground arith
opt_text_eq_iff none (some b) = ground arith
opt_text_eq_iff (some a) none = ground arith
opt_text_eq_iff (some a) (some b) = ground (arith, eq_iff a b)

module _ (target : TargetUnitState) (state : CurrentUnitNodeState) where
  matches_target-Matches : matches_target target state ≡ true → Matches target state
  unfolding matches_target
  matches_target-Matches h = ground (
    arith,
    eq_iff state.runtime_status "healthy",
    opt_id_eq_iff state.active_unit_release_id target.unit_release_id,
    eq_iff state.active_fingerprint target.target_fingerprint,
    opt_text_eq_iff (some state.container_version_label) target.release_version,
  )

  Matches-matches_target : Matches target state → matches_target target state ≡ true
  unfolding matches_target
  Matches-matches_target m = ground (
    arith,
    eq_iff state.runtime_status "healthy",
    opt_id_eq_iff state.active_unit_release_id target.unit_release_id,
    eq_iff state.active_fingerprint target.target_fingerprint,
    opt_text_eq_iff (some state.container_version_label) target.release_version,
  )

classify_versions-ne_skip :
    (code : Option ℤ) (codes : List ℤ) → (classify_versions code codes).0 ≢ skip
unfolding classify_versions
classify_versions-ne_skip none codes = ground arith
classify_versions-ne_skip (some c) codes = ground arith

classify_covered-skip :
    (target : TargetUnitState) (states : List CurrentUnitNodeState)
    → ((classify_covered target states).0 ≡ skip) ↔ (all (matches_target target) states ≡ true)
unfolding classify_covered
classify_covered-skip target states =
    ground (arith, classify_versions-ne_skip target.release_version_code (current_codes states))

module _ (mode : DeploymentMode) (target : TargetUnitState) (target_node_ids : List ℕ)
    (states : List CurrentUnitNodeState) where
  classify_action-skip_only :
      target.desired_status ≢ "disabled"
      → (classify_action mode target target_node_ids states).0 ≡ skip
      → (mode ≡ normal) × UpToDate target target_node_ids states
  unfolding classify_action
  classify_action-skip_only active h = (
    ground (arith, eq_iff target.desired_status "disabled"),
    record {
      covered = ground (arith, eq_iff target.desired_status "disabled");
      matching =
          All-imp (λ s. matches_target target s ≡ true) (Matches target)
            (matches_target-Matches target) states
            (all_sound (matches_target target) states (
              ground (
                arith,
                eq_iff target.desired_status "disabled",
                classify_covered-skip target states,
              )));
    },
  )

  classify_action-skip_if :
      target.desired_status ≢ "disabled"
      → (mode ≡ normal) × UpToDate target target_node_ids states
      → (classify_action mode target target_node_ids states).0 ≡ skip
  unfolding classify_action
  classify_action-skip_if active (m, u) = ground (
    arith,
    eq_iff target.desired_status "disabled",
    classify_covered-skip target states,
    u.covered,
    all_complete (matches_target target) states (
        All-imp (Matches target) (λ s. matches_target target s ≡ true)
          (Matches-matches_target target) states u.matching),
  )

-- A unit that is not disabled is skipped exactly when the deployment is not forced and every target
-- node reports a healthy state whose release, fingerprint and version label agree with the target.
pub classify_action-skip_iff :
    (mode : DeploymentMode) (target : TargetUnitState) (target_node_ids : List ℕ)
    (states : List CurrentUnitNodeState)
    → target.desired_status ≢ "disabled"
    → ((classify_action mode target target_node_ids states).0 ≡ skip)
      ↔ ((mode ≡ normal) × UpToDate target target_node_ids states)
classify_action-skip_iff mode target target_node_ids states active = (
  classify_action-skip_only mode target target_node_ids states active,
  classify_action-skip_if mode target target_node_ids states active,
)

classify_versions-ne_stop :
    (code : Option ℤ) (codes : List ℤ) → (classify_versions code codes).0 ≢ stop
unfolding classify_versions
classify_versions-ne_stop none codes = ground arith
classify_versions-ne_stop (some c) codes = ground arith

classify_covered-ne_stop :
    (target : TargetUnitState) (states : List CurrentUnitNodeState)
    → (classify_covered target states).0 ≢ stop
unfolding classify_covered
classify_covered-ne_stop target states =
    ground (arith, classify_versions-ne_stop target.release_version_code (current_codes states))

all_stopped_iff :
    (states : List CurrentUnitNodeState)
    → (all (has_status "stopped") states ≡ true) ↔ All (λ s. s.runtime_status ≡ "stopped") states
all_stopped_iff states = (
  λ h.
      All-imp (λ s. has_status "stopped" s ≡ true) (λ s. s.runtime_status ≡ "stopped")
        (λ s. (eq_iff s.runtime_status "stopped").0) states
        (all_sound (has_status "stopped") states h),
  λ h. all_complete (has_status "stopped") states (
      All-imp (λ s. s.runtime_status ≡ "stopped") (λ s. has_status "stopped" s ≡ true)
        (λ s. (eq_iff s.runtime_status "stopped").1) states h),
)

-- A unit is stopped exactly when the target release disables it, some target node has a state of
-- it, and not every target node is known to have it stopped. The mode does not matter.
pub classify_action-stop_iff :
    (mode : DeploymentMode) (target : TargetUnitState) (target_node_ids : List ℕ)
    (states : List CurrentUnitNodeState)
    → ((classify_action mode target target_node_ids states).0 ≡ stop) ↔ (
        (target.desired_status ≡ "disabled")
        × (states ≢ [])
        × ¬ (
            (length states ≡ length target_node_ids)
            × All (λ s. s.runtime_status ≡ "stopped") states))
unfolding classify_action classify_disabled
classify_action-stop_iff mode target nodes [] =
    ground (arith, eq_iff target.desired_status "disabled", classify_covered-ne_stop target [])
classify_action-stop_iff mode target nodes (s ∷ ss) =
    let stopped = all_stopped_iff (s ∷ ss) in
    ground (
      arith,
      eq_iff target.desired_status "disabled",
      classify_covered-ne_stop target (s ∷ ss),
      stopped,
    )
