-- ===== src/Plan/Waves/Partition.antt =====
-- The waves partition the executable items (api/src/deployment_orchestrator.rs,
-- `execution_waves`).
use mathlib.Core.List.{append-nil, append_assoc}
use easy_deploy.Prelude.{
  List, [], ◌∷◌, ◌++◌, true, false, keep, All, All-append, ◌≡◌, refl, sym, ap, ◌∙◌, Bool-cases, inl,
  inr, ◌↔◌, ◌≢◌, arith, eq_int, eq_int_sound, eq_int_refl, All-imp,
}
use easy_deploy.Plan.Types.{DeploymentAction, stop, DeploymentPlanItem}
use easy_deploy.Plan.Build.{is_stop}
use easy_deploy.Plan.Waves.{
  same_kind, joins, joins_wave, add_item, add_items, executable, execution_waves,
}

abbrev pub concat : List (List DeploymentPlanItem) → List DeploymentPlanItem
concat [] = []
concat (w ∷ ws) = w ++ concat ws

concat-add_item :
    (waves : List (List DeploymentPlanItem)) (item : DeploymentPlanItem)
    → concat (add_item waves item) ≡ concat waves ++ item ∷ []
unfolding add_item
concat-add_item [] item = refl
concat-add_item (wave ∷ []) item = elim (Bool-cases (joins_wave wave item)) [
  | inl e ↦ rw e (simp append-nil)
  | inr e ↦ rw e (simp append-nil)
]
concat-add_item (wave ∷ next ∷ waves) item =
    rw append_assoc (ap (λ rest. wave ++ rest) (concat-add_item (next ∷ waves) item))

concat-add_items :
    (waves : List (List DeploymentPlanItem)) (items : List DeploymentPlanItem)
    → concat (add_items waves items) ≡ concat waves ++ items
unfolding add_items
concat-add_items waves [] = sym (append-nil _)
concat-add_items waves (item ∷ items) =
    concat-add_items (add_item waves item) items
    ∙ ap (λ xs. xs ++ items) (concat-add_item waves item)
    ∙ append_assoc (concat waves) (item ∷ []) items

-- The waves, one after another, hold exactly the items that are not skipped, in the plan's order.
pub concat-execution_waves :
    (items : List DeploymentPlanItem) → concat (execution_waves items) ≡ keep executable items
unfolding execution_waves
concat-execution_waves items = concat-add_items [] (keep executable items)

-- A wave is not empty, and its items pass the test against its first.
abbrev Joined : List DeploymentPlanItem → Type 0
Joined [] = ⊥
Joined (first ∷ rest) = All (λ item. joins first item ≡ true) rest

-- Each wave is followed by one whose first item fails the test against it.
abbrev Parted : List (List DeploymentPlanItem) → Type 0
Parted [] = Unit
Parted (w ∷ []) = Unit
Parted (w ∷ [] ∷ ws) = ⊥
Parted (w ∷ (item ∷ items) ∷ ws) = (joins_wave w item ≡ false) × Parted ((item ∷ items) ∷ ws)

Joined-append :
    (wave : List DeploymentPlanItem) (item : DeploymentPlanItem)
    → Joined wave
    → joins_wave wave item ≡ true
    → Joined (wave ++ item ∷ [])
unfolding joins_wave
Joined-append [] item w h = absurd w
Joined-append (first ∷ rest) item w h = All-append _ rest (item ∷ []) w (h, tt)

All-Joined-add_item :
    (waves : List (List DeploymentPlanItem)) (item : DeploymentPlanItem)
    → All Joined waves
    → All Joined (add_item waves item)
unfolding add_item
All-Joined-add_item [] item h = (tt, tt)
All-Joined-add_item (wave ∷ []) item h = elim (Bool-cases (joins_wave wave item)) [
  | inl e ↦ rw e (Joined-append wave item h.0 e, tt)
  | inr e ↦ rw e (h.0, (tt, tt))
]
All-Joined-add_item (wave ∷ next ∷ waves) item h =
    (h.0, All-Joined-add_item (next ∷ waves) item h.1)

joins_wave-append :
    (wave : List DeploymentPlanItem) (x item : DeploymentPlanItem)
    → Joined wave
    → joins_wave (wave ++ x ∷ []) item ≡ joins_wave wave item
unfolding joins_wave
joins_wave-append [] x item w = absurd w
joins_wave-append (first ∷ rest) x item w = refl

Parted-add_item :
    (waves : List (List DeploymentPlanItem)) (item : DeploymentPlanItem)
    → All Joined waves
    → Parted waves
    → Parted (add_item waves item)
unfolding add_item
Parted-add_item [] item w h = tt
Parted-add_item (wave ∷ []) item w h = elim (Bool-cases (joins_wave wave item)) [
  | inl e ↦ rw e tt
  | inr e ↦ rw e (e, tt)
]
Parted-add_item (wave ∷ [] ∷ waves) item w h = absurd h
Parted-add_item (wave ∷ (x ∷ xs) ∷ []) item w h = elim (Bool-cases (joins_wave (x ∷ xs) item)) [
  | inl e ↦ rw e h
  | inr e ↦ rw e (h.0, (e, tt))
]
Parted-add_item (wave ∷ (x ∷ xs) ∷ next ∷ waves) item w h =
    (h.0, Parted-add_item ((x ∷ xs) ∷ next ∷ waves) item w.1 h.1)

add_items-waves :
    (waves : List (List DeploymentPlanItem)) (items : List DeploymentPlanItem)
    → All Joined waves
    → Parted waves
    → All Joined (add_items waves items) × Parted (add_items waves items)
unfolding add_items
add_items-waves waves [] w m = (w, m)
add_items-waves waves (item ∷ items) w m =
    add_items-waves (add_item waves item) items (All-Joined-add_item waves item w)
      (Parted-add_item waves item w m)

execution_waves-Joined :
    (items : List DeploymentPlanItem)
    → All Joined (execution_waves items) × Parted (execution_waves items)
unfolding execution_waves
execution_waves-Joined items = add_items-waves [] (keep executable items) tt tt

-- Two items that one wave may hold: they have one stage, and both are stops or neither is.
pub record Together (a b : DeploymentPlanItem) : Type 0 where
  pub stage : a.stage_no ≡ b.stage_no
  pub stops : (a.action ≡ stop) ↔ (b.action ≡ stop)

-- A wave is not empty, and each of its items goes together with its first.
abbrev pub IsWave : List DeploymentPlanItem → Type 0
IsWave [] = ⊥
IsWave (first ∷ rest) = All (Together first) rest

-- The first item of each wave does not go together with the first of the wave before it.
abbrev pub AreMaximal : List (List DeploymentPlanItem) → Type 0
AreMaximal [] = Unit
AreMaximal (w ∷ []) = Unit
AreMaximal ([] ∷ w ∷ ws) = ⊥
AreMaximal ((a ∷ xs) ∷ [] ∷ ws) = ⊥
AreMaximal ((a ∷ xs) ∷ (b ∷ ys) ∷ ws) = ¬ Together a b × AreMaximal ((b ∷ ys) ∷ ws)

is_stop-stop : (action : DeploymentAction) → is_stop action ≡ true → action ≡ stop
unfolding is_stop
is_stop-stop action h = ground (arith, h)

not_stop : (action : DeploymentAction) → is_stop action ≡ false → action ≢ stop
unfolding is_stop
not_stop action h = λ e. ground (arith, rw e at h)

joins-Together : (a b : DeploymentPlanItem) → joins a b ≡ true → Together a b
unfolding joins same_kind
joins-Together a b h = elim (Bool-cases (is_stop a.action)) [
  | inl p ↦
      let q : is_stop b.action ≡ true = ground (arith, rw p at h) in
      record {
        stage = eq_int_sound a.stage_no b.stage_no (ground (arith, rw p at h));
        stops = (λ _. is_stop-stop b.action q, λ _. is_stop-stop a.action p);
      }
  | inr p ↦
      let q : is_stop b.action ≡ false = ground (arith, rw p at h) in
      record {
        stage = eq_int_sound a.stage_no b.stage_no (ground (arith, rw p at h));
        stops = (λ e. absurd (not_stop a.action p e), λ e. absurd (not_stop b.action q e));
      }
]

same_stops :
    (a b : DeploymentAction) → ((a ≡ stop) ↔ (b ≡ stop)) → same_kind (is_stop a) (is_stop b) ≡ true
unfolding same_kind is_stop
same_stops a b h = elim (Bool-cases (is_stop a)) [
  | inl p ↦ rw (h.0 (is_stop-stop a p), p) refl
  | inr p ↦ elim (Bool-cases (is_stop b)) [
    | inl q ↦ absurd (not_stop a p (h.1 (is_stop-stop b q)))
    | inr q ↦ rw (p, q) refl
  ]
]

apart_items : (a b : DeploymentPlanItem) → joins a b ≡ false → ¬ Together a b
unfolding joins
apart_items a b h = λ t.
    let kind = same_stops a.action b.action t.stops in
    let stage : eq_int a.stage_no b.stage_no ≡ true = rw t.stage (eq_int_refl b.stage_no) in
    ground (arith, kind, stage, h)

Joined-IsWave : (wave : List DeploymentPlanItem) → Joined wave → IsWave wave
Joined-IsWave [] w = w
Joined-IsWave (first ∷ rest) w = All-imp _ (Together first) (joins-Together first) rest w

Parted-AreMaximal :
    (waves : List (List DeploymentPlanItem)) → All Joined waves → Parted waves → AreMaximal waves
unfolding joins_wave
Parted-AreMaximal [] w m = tt
Parted-AreMaximal (wave ∷ []) w m = tt
Parted-AreMaximal ([] ∷ wave ∷ waves) w m = w.0
Parted-AreMaximal ((a ∷ xs) ∷ [] ∷ waves) w m = m
Parted-AreMaximal ((a ∷ xs) ∷ (b ∷ ys) ∷ waves) w m =
    (apart_items a b m.0, Parted-AreMaximal ((b ∷ ys) ∷ waves) w.1 m.1)

-- No wave is empty; all items of a wave have one stage and are either all stops or none; and a wave
-- ends only where the next item has another stage or kind.
pub execution_waves-AreMaximal :
    (items : List DeploymentPlanItem)
    → All IsWave (execution_waves items) × AreMaximal (execution_waves items)
execution_waves-AreMaximal items =
    let (joined, parted) = execution_waves-Joined items in
    (
      All-imp Joined IsWave Joined-IsWave (execution_waves items) joined,
      Parted-AreMaximal (execution_waves items) joined parted,
    )
