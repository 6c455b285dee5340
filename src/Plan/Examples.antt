-- ===== src/Plan/Examples.antt =====
-- The planner at a small input.
use mathlib.Core.Logic.{◌↔◌, ◌≢◌}
use mathlib.Core.List.{Perm}
use easy_deploy.Prelude.{
  ℕ, ℤ, some, [], ◌∷◌, map, keep, contains, length, all, any, All, ltb, lt_int, find, eq_int,
  neg_i64, le_int, false, ok, eq_iff, ◌≡◌, refl, arith,
}
use easy_deploy.Prelude.Sorting.{sort_by, insert_by, IsSorted}
use easy_deploy.Prelude.Ids.{sort_ids, dedup}
use easy_deploy.Plan.Types.{normal, skip, stop, upgrade, DeploymentPlan}
use easy_deploy.Plan.Classify.{
  classify_action, classify_disabled, classify_covered, classify_versions, current_codes, is_force,
  opt_id_eq, opt_text_eq, matches_target, untrusted, has_status, common_previous_fingerprint,
}
use easy_deploy.Plan.Classify.Verdicts.{
  UpToDate, classify_action-skip_iff, classify_action-stop_iff,
}
use easy_deploy.Plan.Classify.Versions.{Below, classify_action-upgrade}
use easy_deploy.Plan.Build.{
  build_deployment_plan, draft_plan, seal_plan, plan_items, plan_item, collect_states, lookup_state,
  unit_states, item_le, key_le, sort_key, is_stop, hashed_plan, hash_document,
}
use easy_deploy.Plan.Build.Order.{planned_before}
use easy_deploy.Plan.Build.Correct.{
  IsValid, build_deployment_plan-IsValid, build_deployment_plan-nodes, build_deployment_plan-items,
}
use easy_deploy.Plan.Build.Sorted.{
  HasRange, build_deployment_plan-IsSorted, build_deployment_plan-nodes_set,
}
use easy_deploy.Plan.Waves.{execution_waves, executable}
use easy_deploy.Plan.Waves.Partition.{
  concat, IsWave, AreMaximal, concat-execution_waves, execution_waves-AreMaximal,
}
use easy_deploy.Plan.Fixtures.{
  digests, web, worker, legacy, web_on, legacy_on, web_updated, input, items,
}

abbrev plan : DeploymentPlan
plan = record {
  app_id = 7;
  environment_id = 5;
  app_release_id = 4;
  config_revision_id = 6;
  mode = normal;
  target_node_ids = 1 ∷ 2 ∷ [];
  items = items;
  plan_hash = "digest";
}

planned : build_deployment_plan digests input ≡ ok plan
unfolding build_deployment_plan draft_plan seal_plan plan_items plan_item collect_states
    lookup_state unit_states item_le key_le sort_key is_stop hashed_plan hash_document
    classify_action classify_disabled classify_covered classify_versions current_codes is_force
    opt_id_eq opt_text_eq matches_target untrusted common_previous_fingerprint sort_by insert_by
    sort_ids dedup find contains all any lt_int eq_int neg_i64 le_int
planned = refl

web_active : web.desired_status ≢ "disabled"
web_active p = ground (arith, eq_iff "active" "disabled", p)

build_deployment_plan-IsValid_example :
    ((plan : DeploymentPlan) × (build_deployment_plan digests input ≡ ok plan)) ↔ IsValid input
build_deployment_plan-IsValid_example =
    build_deployment_plan-IsValid digests input (λ document. (0 ∷ [], refl))

in_range : All HasRange input.target_units
unfolding eq_int
in_range = ((refl, refl), ((refl, refl), ((refl, refl), tt)))

build_deployment_plan-IsSorted_example : IsSorted planned_before items
build_deployment_plan-IsSorted_example =
    build_deployment_plan-IsSorted digests input plan in_range planned

build_deployment_plan-nodes_example :
    IsSorted ltb (1 ∷ 2 ∷ []) × ((a : ℕ) → contains a (1 ∷ 2 ∷ []) ≡ contains a (2 ∷ 1 ∷ 2 ∷ []))
build_deployment_plan-nodes_example = build_deployment_plan-nodes digests input plan planned

build_deployment_plan-items_example :
    Perm items
      (map (plan_item normal (1 ∷ 2 ∷ []) input.current_states) (web ∷ worker ∷ legacy ∷ []))
build_deployment_plan-items_example = build_deployment_plan-items digests input plan planned

same_nodes : (a : ℕ) → contains a (1 ∷ 2 ∷ []) ≡ contains a (2 ∷ 1 ∷ 2 ∷ [])
unfolding contains
same_nodes a = ground arith

build_deployment_plan-nodes_set_example :
    build_deployment_plan digests (record input { target_node_ids = 1 ∷ 2 ∷ [] })
    ≡ build_deployment_plan digests input
build_deployment_plan-nodes_set_example =
    build_deployment_plan-nodes_set digests input (1 ∷ 2 ∷ []) same_nodes

classify_action-skip_iff_example :
    ((classify_action normal web (1 ∷ 2 ∷ []) (web_updated 1 ∷ web_updated 2 ∷ [])).0 ≡ skip)
    ↔ ((normal ≡ normal) × UpToDate web (1 ∷ 2 ∷ []) (web_updated 1 ∷ web_updated 2 ∷ []))
classify_action-skip_iff_example =
    classify_action-skip_iff normal web (1 ∷ 2 ∷ []) (web_updated 1 ∷ web_updated 2 ∷ []) web_active

classify_action-stop_iff_example :
    ((classify_action normal legacy (1 ∷ 2 ∷ []) (legacy_on 1 ∷ [])).0 ≡ stop) ↔ (
      (legacy.desired_status ≡ "disabled")
      × ((legacy_on 1 ∷ []) ≢ [])
      × ¬ (
          (length (legacy_on 1 ∷ []) ≡ 2)
          × All (λ s. s.runtime_status ≡ "stopped") (legacy_on 1 ∷ [])))
classify_action-stop_iff_example =
    classify_action-stop_iff normal legacy (1 ∷ 2 ∷ []) (legacy_on 1 ∷ [])

web_upgrades : (classify_action normal web (1 ∷ 2 ∷ []) (web_on 1 ∷ web_on 2 ∷ [])).0 ≡ upgrade
unfolding classify_action classify_covered all matches_target opt_id_eq any untrusted current_codes
    lt_int classify_versions is_force
web_upgrades = refl

classify_action-upgrade_example :
    ((c : ℤ) × (web.release_version_code ≡ some c)
      × All (λ s. Below c s.active_version_code) (web_on 1 ∷ web_on 2 ∷ []))
    × (web.desired_status ≢ "disabled")
    × (normal ≡ normal)
    × (length (web_on 1 ∷ web_on 2 ∷ []) ≡ 2)
    × (any untrusted (web_on 1 ∷ web_on 2 ∷ []) ≡ false)
    × (all (has_status "stopped") (web_on 1 ∷ web_on 2 ∷ []) ≡ false)
    × (all (matches_target web) (web_on 1 ∷ web_on 2 ∷ []) ≡ false)
classify_action-upgrade_example =
    classify_action-upgrade normal web (1 ∷ 2 ∷ []) (web_on 1 ∷ web_on 2 ∷ []) web_upgrades

concat-execution_waves_example : concat (execution_waves items) ≡ keep executable items
concat-execution_waves_example = concat-execution_waves items

execution_waves-AreMaximal_example :
    All IsWave (execution_waves items) × AreMaximal (execution_waves items)
execution_waves-AreMaximal_example = execution_waves-AreMaximal items
