-- ===== src/Plan/Build/Order.antt =====
-- The order of the plan's items (api/src/deployment_orchestrator.rs, the sort of
-- `build_deployment_plan`).
use easy_deploy.Prelude.{
  zero, suc, ℤ, Bool, true, false, ◌&&◌, ◌||◌, if◌then◌else◌, leb, eq_int, le_int, lt_int, neg_i64,
  ◌≡◌, refl, arith, eq_int_sound, eq_int_refl, le_int_trans, le_int_antisymm, i64_min,
}
use easy_deploy.Plan.Types.{DeploymentPlanItem}
use easy_deploy.Plan.Build.{SortKey, sort_key, key_le, item_le, is_stop}

le_int-total : (a b : ℤ) → le_int a b ≡ false → le_int b a ≡ true
unfolding le_int
le_int-total (ℤ.pos a) (ℤ.pos b) h = ground arith
le_int-total (ℤ.pos a) (ℤ.negsuc b) h = ground arith
le_int-total (ℤ.negsuc a) (ℤ.pos b) h = ground arith
le_int-total (ℤ.negsuc a) (ℤ.negsuc b) h = ground arith

eq_int_comm : (a b : ℤ) → eq_int a b ≡ eq_int b a
unfolding eq_int
eq_int_comm (ℤ.pos a) (ℤ.pos b) = ground arith
eq_int_comm (ℤ.pos a) (ℤ.negsuc b) = refl
eq_int_comm (ℤ.negsuc a) (ℤ.pos b) = refl
eq_int_comm (ℤ.negsuc a) (ℤ.negsuc b) = ground arith

key_le-total : (a b : SortKey) → key_le a b ≡ false → key_le b a ≡ true
unfolding key_le
key_le-total a b h = ground (
  arith,
  eq_int_comm a.stage b.stage,
  eq_int_comm a.order b.order,
  le_int-total b.stage a.stage,
  le_int-total b.order a.order,
)

key_le_trans : (a b c : SortKey) → key_le a b ≡ true → key_le b c ≡ true → key_le a c ≡ true
unfolding key_le
key_le_trans a b c p q = ground (
  arith,
  eq_int_sound a.stage b.stage,
  eq_int_sound b.stage c.stage,
  eq_int_sound a.stage c.stage,
  eq_int_sound a.order b.order,
  eq_int_sound b.order c.order,
  eq_int_sound a.order c.order,
  eq_int_refl a.stage,
  eq_int_refl a.order,
  eq_int_refl b.stage,
  eq_int_refl b.order,
  eq_int_comm b.stage a.stage,
  eq_int_comm b.order a.order,
  le_int_trans c.stage b.stage a.stage,
  le_int_trans c.order b.order a.order,
  le_int_antisymm c.stage b.stage,
  le_int_antisymm a.stage b.stage,
  le_int_antisymm c.order b.order,
  le_int_antisymm a.order b.order,
)

-- The order that a plan promises: units to stop come first, the highest stage and within it the
-- highest removal order first; the other units follow, the lowest stage and within it the lowest
-- unit order first; ties go by unit id.
unfoldable pub planned_before : DeploymentPlanItem → DeploymentPlanItem → Bool
planned_before a b =
    if is_stop a.action
    then (if is_stop b.action
        then lt_int b.stage_no a.stage_no
          || (eq_int a.stage_no b.stage_no
              && (lt_int b.removal_order a.removal_order
                  || (eq_int a.removal_order b.removal_order && leb a.unit_id b.unit_id)))
        else true)
    else if is_stop b.action
    then false
    else lt_int a.stage_no b.stage_no
      || (eq_int a.stage_no b.stage_no
          && (lt_int a.unit_order b.unit_order
              || (eq_int a.unit_order b.unit_order && leb a.unit_id b.unit_id)))

-- A number that has an opposite in 64 bits.
abbrev pub HasOpposite : ℤ → Type 0
HasOpposite x = eq_int x i64_min ≡ false

le_int-neg_i64 :
    (a b : ℤ) → HasOpposite a → HasOpposite b → le_int (neg_i64 b) (neg_i64 a) ≡ le_int a b
unfolding le_int neg_i64 eq_int
le_int-neg_i64 (ℤ.pos zero) (ℤ.pos zero) h k = refl
le_int-neg_i64 (ℤ.pos zero) (ℤ.pos (suc b)) h k = ground arith
le_int-neg_i64 (ℤ.pos (suc a)) (ℤ.pos zero) h k = ground arith
le_int-neg_i64 (ℤ.pos (suc a)) (ℤ.pos (suc b)) h k = ground arith
le_int-neg_i64 (ℤ.pos zero) (ℤ.negsuc b) h k = ground arith
le_int-neg_i64 (ℤ.pos (suc a)) (ℤ.negsuc b) h k = ground arith
le_int-neg_i64 (ℤ.negsuc a) (ℤ.pos zero) h k = ground arith
le_int-neg_i64 (ℤ.negsuc a) (ℤ.pos (suc b)) h k = ground arith
le_int-neg_i64 (ℤ.negsuc a) (ℤ.negsuc b) h k = ground arith

eq_int-neg_i64 :
    (a b : ℤ) → HasOpposite a → HasOpposite b → eq_int (neg_i64 a) (neg_i64 b) ≡ eq_int a b
unfolding neg_i64 eq_int
eq_int-neg_i64 (ℤ.pos zero) (ℤ.pos zero) h k = refl
eq_int-neg_i64 (ℤ.pos zero) (ℤ.pos (suc b)) h k = ground arith
eq_int-neg_i64 (ℤ.pos (suc a)) (ℤ.pos zero) h k = ground arith
eq_int-neg_i64 (ℤ.pos (suc a)) (ℤ.pos (suc b)) h k = ground arith
eq_int-neg_i64 (ℤ.pos zero) (ℤ.negsuc b) h k = ground arith
eq_int-neg_i64 (ℤ.pos (suc a)) (ℤ.negsuc b) h k = ground arith
eq_int-neg_i64 (ℤ.negsuc a) (ℤ.pos zero) h k = ground arith
eq_int-neg_i64 (ℤ.negsuc a) (ℤ.pos (suc b)) h k = ground arith
eq_int-neg_i64 (ℤ.negsuc a) (ℤ.negsuc b) h k = ground arith

le_int_split : (a b : ℤ) → le_int a b ≡ (lt_int a b || eq_int a b)
unfolding le_int lt_int eq_int
le_int_split (ℤ.pos a) (ℤ.pos b) = ground arith
le_int_split (ℤ.pos a) (ℤ.negsuc b) = refl
le_int_split (ℤ.negsuc a) (ℤ.pos b) = refl
le_int_split (ℤ.negsuc a) (ℤ.negsuc b) = ground arith

lt_int_irrefl : (a b : ℤ) → eq_int a b ≡ true → lt_int a b ≡ false
unfolding lt_int eq_int
lt_int_irrefl (ℤ.pos a) (ℤ.pos b) h = ground arith
lt_int_irrefl (ℤ.pos a) (ℤ.negsuc b) h = refl
lt_int_irrefl (ℤ.negsuc a) (ℤ.pos b) h = ground arith
lt_int_irrefl (ℤ.negsuc a) (ℤ.negsuc b) h = ground arith

-- Both numbers that the sort negates have an opposite.
abbrev pub InRange : DeploymentPlanItem → Type 0
InRange item = HasOpposite item.stage_no × HasOpposite item.unit_order

-- The key order is the promised order.
pub item_le-planned_before :
    (a b : DeploymentPlanItem) → InRange a → InRange b → item_le a b ≡ planned_before a b
unfolding item_le key_le sort_key planned_before
item_le-planned_before a b h k = ground (
  arith,
  le_int-neg_i64 a.stage_no b.stage_no h.0 k.0,
  le_int-neg_i64 a.unit_order b.unit_order h.1 k.1,
  eq_int-neg_i64 a.stage_no b.stage_no h.0 k.0,
  eq_int-neg_i64 a.unit_order b.unit_order h.1 k.1,
  le_int_split a.stage_no b.stage_no,
  le_int_split a.unit_order b.unit_order,
  le_int_split b.stage_no a.stage_no,
  le_int_split b.removal_order a.removal_order,
  eq_int_comm b.stage_no a.stage_no,
  eq_int_comm b.removal_order a.removal_order,
  lt_int_irrefl a.stage_no b.stage_no,
  lt_int_irrefl a.unit_order b.unit_order,
  lt_int_irrefl b.stage_no a.stage_no,
  lt_int_irrefl b.removal_order a.removal_order,
)

pub item_le-total : (a b : DeploymentPlanItem) → item_le a b ≡ false → item_le b a ≡ true
unfolding item_le
item_le-total a b = key_le-total (sort_key a) (sort_key b)

pub item_le_trans :
    (a b c : DeploymentPlanItem) → item_le a b ≡ true → item_le b c ≡ true → item_le a c ≡ true
unfolding item_le
item_le_trans a b c = key_le_trans (sort_key a) (sort_key b) (sort_key c)
