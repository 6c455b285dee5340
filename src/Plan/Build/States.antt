-- ===== src/Plan/Build/States.antt =====
-- The map of current states (api/src/deployment_orchestrator.rs, the first loop of
-- `build_deployment_plan`).
use mathlib.Core.Logic.{◌↔◌}
use easy_deploy.Prelude.{
  ℕ, Option, none, some, List, [], ◌∷◌, ◌++◌, false, find, All, ok, ◌≡◌, refl, arith, Option-cases,
  is_some,
}
use easy_deploy.Plan.Types.{CurrentUnitNodeState}
use easy_deploy.Plan.Build.{lookup_state, collect_states, unit_states}

-- Two states are about one unit on one node.
abbrev pub SamePlace : CurrentUnitNodeState → CurrentUnitNodeState → Type 0
SamePlace s t = (s.unit_id ≡ t.unit_id) × (s.node_id ≡ t.node_id)

-- No unit has two states on one node.
abbrev pub DistinctPlaces : List CurrentUnitNodeState → Type 0
DistinctPlaces [] = Unit
DistinctPlaces (s ∷ ss) = All (λ t. ¬ SamePlace s t) ss × DistinctPlaces ss

-- What the map holds after the loop, at any place.
orelse : Option CurrentUnitNodeState → Option CurrentUnitNodeState → Option CurrentUnitNodeState
orelse none o = o
orelse (some s) o = some s

lookup-collect :
    (u n : ℕ) (collected states current : List CurrentUnitNodeState)
    → collect_states collected states ≡ ok current
    → lookup_state u n current ≡ orelse (lookup_state u n collected) (lookup_state u n states)
unfolding collect_states lookup_state orelse find
lookup-collect u n collected [] current h =
    ground (arith, Option-cases (lookup_state u n collected))
lookup-collect u n collected (s ∷ ss) current h =
    ground (arith, lookup-collect u n (s ∷ collected) ss current)

-- The map holds the state that was reported for each unit and node.
pub lookup_state-collect_states :
    (u n : ℕ) (states current : List CurrentUnitNodeState)
    → collect_states [] states ≡ ok current
    → lookup_state u n current ≡ lookup_state u n states
unfolding orelse lookup_state find
lookup_state-collect_states u n states current h = lookup-collect u n [] states current h

-- So each unit is judged by the reported states.
pub unit_states-collect_states :
    (u : ℕ) (nodes : List ℕ) (states current : List CurrentUnitNodeState)
    → collect_states [] states ≡ ok current
    → unit_states current u nodes ≡ unit_states states u nodes
unfolding unit_states
unit_states-collect_states u [] states current h = refl
unit_states-collect_states u (n ∷ ns) states current h = ground (
  arith,
  lookup_state-collect_states u n states current h,
  unit_states-collect_states u ns states current h,
)

free_iff :
    (s : CurrentUnitNodeState) (collected : List CurrentUnitNodeState)
    → (is_some (lookup_state s.unit_id s.node_id collected) ≡ false)
      ↔ All (λ t. ¬ SamePlace t s) collected
unfolding lookup_state find
free_iff s [] = (λ _. tt, λ _. refl)
free_iff s (t ∷ ts) = (
  λ h. (ground arith, (free_iff s ts).0 (ground arith)),
  λ h. ground (arith, h.0, (free_iff s ts).1 h.1),
)

-- The states are free of each other and of those collected.
abbrev Free : List CurrentUnitNodeState → List CurrentUnitNodeState → Type 0
Free collected [] = Unit
Free collected (s ∷ ss) = All (λ t. ¬ SamePlace t s) collected × Free (s ∷ collected) ss

collect_states-Free :
    (collected states current : List CurrentUnitNodeState)
    → collect_states collected states ≡ ok current
    → Free collected states
unfolding collect_states
collect_states-Free collected [] current h = tt
collect_states-Free collected (s ∷ ss) current h = (
  (free_iff s collected).0 (ground arith),
  collect_states-Free (s ∷ collected) ss current (ground arith),
)

Free-collect_states :
    (collected states : List CurrentUnitNodeState)
    → Free collected states
    → (current : List CurrentUnitNodeState) × (collect_states collected states ≡ ok current)
unfolding collect_states
Free-collect_states collected [] f = (collected, refl)
Free-collect_states collected (s ∷ ss) f =
    let (current, e) = Free-collect_states (s ∷ collected) ss f.1 in
    (current, rw ((free_iff s collected).1 f.0) e)

All-swap :
    (P : CurrentUnitNodeState → Type 0) (s t : CurrentUnitNodeState)
    (before collected : List CurrentUnitNodeState)
    → All P (before ++ s ∷ t ∷ collected)
    → All P (before ++ t ∷ s ∷ collected)
All-swap P s t [] collected h = (h.1.0, (h.0, h.1.1))
All-swap P s t (x ∷ xs) collected h = (h.0, All-swap P s t xs collected h.1)

Free-swap :
    (s t : CurrentUnitNodeState) (before collected states : List CurrentUnitNodeState)
    → Free (before ++ s ∷ t ∷ collected) states
    → Free (before ++ t ∷ s ∷ collected) states
Free-swap s t before collected [] f = tt
Free-swap s t before collected (x ∷ xs) f =
    (All-swap _ s t before collected f.0, Free-swap s t (x ∷ before) collected xs f.1)

Free-drop :
    (s : CurrentUnitNodeState) (collected states : List CurrentUnitNodeState)
    → Free (s ∷ collected) states
    → All (λ t. ¬ SamePlace s t) states × Free collected states
Free-drop s collected [] f = (tt, tt)
Free-drop s collected (t ∷ ts) f =
    let rest = Free-swap t s [] collected ts f.1 in
    (
      (f.0.0, (Free-drop s (t ∷ collected) ts rest).0),
      (f.0.1, (Free-drop s (t ∷ collected) ts rest).1),
    )

Free-add :
    (s : CurrentUnitNodeState) (collected states : List CurrentUnitNodeState)
    → All (λ t. ¬ SamePlace s t) states
    → Free collected states
    → Free (s ∷ collected) states
Free-add s collected [] h f = tt
Free-add s collected (t ∷ ts) h f =
    ((h.0, f.0), Free-swap s t [] collected ts (Free-add s (t ∷ collected) ts h.1 f.1))

Free-DistinctPlaces : (states : List CurrentUnitNodeState) → Free [] states ↔ DistinctPlaces states
Free-DistinctPlaces [] = (λ _. tt, λ _. tt)
Free-DistinctPlaces (s ∷ ss) = (
  λ f. let rest = Free-drop s [] ss f.1 in (rest.0, (Free-DistinctPlaces ss).0 rest.1),
  λ d. (tt, Free-add s [] ss d.0 ((Free-DistinctPlaces ss).1 d.1)),
)

-- The loop succeeds exactly when no unit has two states on one node.
pub collect_states-DistinctPlaces :
    (states : List CurrentUnitNodeState)
    → ((current : List CurrentUnitNodeState) × (collect_states [] states ≡ ok current))
      ↔ DistinctPlaces states
collect_states-DistinctPlaces states = (
  λ (current, h). (Free-DistinctPlaces states).0 (collect_states-Free [] states current h),
  λ d. Free-collect_states [] states ((Free-DistinctPlaces states).1 d),
)
