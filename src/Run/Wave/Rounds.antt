-- ===== src/Run/Wave/Rounds.antt =====
-- What one round of a wave does to its variables (api/src/deployment_orchestrator.rs,
-- `execute_wave`).
use easy_deploy.Prelude.{
  ℕ, zero, suc, ◌+◌, ◌≤◌, ◌<◌, List, [], ◌∷◌, ◌++◌, Bool, true, false, ◌||◌, length, length-append,
  is_empty, ltb, ok, Result-cases, ◌≡◌, refl, arith, Bool-cases, Option-cases, inl, inr, ap,
}
use easy_deploy.Plan.Types.{DeploymentPlanItem}
use easy_deploy.Run.Claim.{start_unit_result}
use easy_deploy.Run.Wave.{Tick, WaveConfig, Wave, fill, take_at, join, next, persist}

-- The units that are waiting or running.
abbrev pub size : Wave → ℕ
size w = length w.waiting + length w.running

-- What a call of `fill` on `w` and `items` leads to.
pub record Filled (config : WaveConfig) (items : List DeploymentPlanItem) (w w' : Wave)
    : Type 0 where
  pub within : length w.running ≤ config.max_parallel → length w'.running ≤ config.max_parallel
  pub total : length w'.waiting + length w'.running ≤ length items + length w.running
  pub failure : w'.failure_seen ≡ w.failure_seen
  pub cancellation : w'.cancellation_seen ≡ w.cancellation_seen

pub fill-Filled :
    (now : ℕ) (config : WaveConfig) (items : List DeploymentPlanItem) (w : Wave)
    → Filled config items w (fill now config items w).1
unfolding fill
fill-Filled now config [] w = record {
  within = λ h. h;
  total = omega arith;
  failure = refl;
  cancellation = refl;
}
fill-Filled now config (item ∷ items) w =
    elim (Bool-cases (ltb (length w.running) config.max_parallel)) [
      | inr full ↦
          rw full
            (record { within = λ h. h; total = omega arith; failure = refl; cancellation = refl })
      | inl room ↦
          elim (Result-cases
            (start_unit_result now config.deployment_run_id config.task_id item w.db)) [
              | inr (e, refused) ↦
                  rw (room, refused)
                    (record {
                      within = λ h. h;
                      total = omega arith;
                      failure = refl;
                      cancellation = refl;
                    })
              | inl ((step_id, db), started) ↦
                  let w₁ = record w { running = w.running ++ (item, step_id) ∷ []; db = db } in
                  let more = length-append w.running ((item, step_id) ∷ []) in
                  let rest = fill-Filled now config items w₁ in
                  rw (room, started)
                    (record {
                      within = λ h. rest.within (ground (arith, more));
                      total = omega (arith, rest.total, more);
                      failure = rest.failure;
                      cancellation = rest.cancellation;
                    })
            ]
    ]

-- With room for a unit, nothing is left waiting unless something runs.
unfoldable pub Busy : Wave → Type 0
Busy w = is_empty w.running ≡ true → is_empty w.waiting ≡ true

pub fill-Busy :
    (now : ℕ) (config : WaveConfig) (items : List DeploymentPlanItem) (w : Wave)
    → 0 < config.max_parallel
    → (fill now config items w).0 ≡ ok tt
    → Busy (fill now config items w).1
unfolding fill Busy
fill-Busy now config [] w room h = λ _. refl
fill-Busy now config (item ∷ items) w positive h =
    elim (Bool-cases (ltb (length w.running) config.max_parallel)) [
      | inr full ↦ rw full (full_running w.running full)
      | inl room ↦
          elim (Result-cases
            (start_unit_result now config.deployment_run_id config.task_id item w.db)) [
              | inr (e, refused) ↦ ground arith
              | inl ((step_id, db), started) ↦
                  rw (room, started)
                    (fill-Busy now config items
                      (record w { running = w.running ++ (item, step_id) ∷ []; db = db }) positive
                      (rw (room, started) at h))
            ]
    ]
  where
    full_running :
        (rs : List (DeploymentPlanItem × ℕ))
        → ltb (length rs) config.max_parallel ≡ false
        → is_empty rs ≡ true
        → is_empty (item ∷ items) ≡ true
    full_running [] f e = ground arith
    full_running (r ∷ rs) f e = cc

length-take_at {ℓ} :
    {A : Type ℓ} (i : ℕ) (x : A) (xs : List A) → length (take_at i x xs).1 ≡ length xs
unfolding take_at
length-take_at zero x xs = refl
length-take_at (suc i) x [] = refl
length-take_at (suc i) x (y ∷ ys) = ap suc (length-take_at i y ys)

-- A failure or a cancellation was seen: nothing more is started.
abbrev pub halted : Wave → Bool
halted w = w.failure_seen || w.cancellation_seen

-- What the awaiting of a unit leads to.
pub record Joined (rs : List (DeploymentPlanItem × ℕ)) (w w' : Wave) : Type 0 where
  pub one_less : length w'.running + 1 ≡ length rs
  pub waiting : w'.waiting ≡ w.waiting
  pub halted_stays : halted w ≡ true → halted w' ≡ true

pub join-Joined :
    (tick : Tick) (config : WaveConfig) (rs : List (DeploymentPlanItem × ℕ)) (w w' : Wave)
    → join tick config rs w ≡ next w'
    → Joined rs w w'
unfolding join
join-Joined tick config [] w w' h = ground arith
join-Joined tick config (first ∷ rest) w w' h = elim (Option-cases tick.outcome) [
  | inl panicked ↦ ground arith
  | inr (outcome, e) ↦
      let less = length-take_at tick.picked first rest in
      let (picked, others) = take_at tick.picked first rest in
      let same : persist tick.now config picked.0 picked.1 outcome (record w { running = others })
          ≡ w' =
        ground arith in
      rw (← same) (record {
        one_less = omega (arith, less);
        waiting = refl;
        halted_stays = λ stopped. ground arith;
      })
]
