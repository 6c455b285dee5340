-- ===== src/Run/Wave/Ending.antt =====
-- That a wave ends, and how (api/src/deployment_orchestrator.rs, `execute_wave`).
use mathlib.Core.Logic.{◌≢◌}
use easy_deploy.Prelude.{
  ℕ, ◌+◌, ◌≤◌, ◌<◌, Option, some, List, [], ◌∷◌, Bool, true, ◌&&◌, length, is_empty, ok, err, ◌≡◌,
  refl, arith, Bool-cases, inl, inr, ◌⊎◌,
}
use easy_deploy.Plan.Types.{DeploymentPlanItem}
use easy_deploy.Run.Types.{OrchestratorError, WaveOutcome, Db}
use easy_deploy.Run.Wave.{
  Tick, WaveConfig, Wave, Step, join, join_after, observe, fill_if_open, round, Round, next, finish,
  abort, is_idle, wave_loop, new_wave, wave_outcome, execute_wave, wave_result,
}
use easy_deploy.Run.Wave.Rounds.{size, Busy, fill-Busy, halted}
use easy_deploy.Run.Wave.Progress.{round-Advanced}

-- The three ways on from a round.
pub data RoundCase (r : Round) : Type 0 where
  goes_on : (w : Wave) → r ≡ next w → RoundCase r
  ends : (w : Wave) → r ≡ finish w → RoundCase r
  fails : (e : OrchestratorError) (w : Wave) → r ≡ abort e w → RoundCase r

pub round_case : (r : Round) → RoundCase r
round_case (next w) = goes_on w refl
round_case (finish w) = ends w refl
round_case (abort e w) = fails e w refl

idle_of_size :
    (waiting : List DeploymentPlanItem) (running : List (DeploymentPlanItem × ℕ))
    → length waiting + length running ≤ 0
    → (is_empty waiting && is_empty running) ≡ true
idle_of_size [] [] h = refl
idle_of_size [] (r ∷ rs) h = absurd (omega arith)
idle_of_size (i ∷ is) rs h = absurd (omega arith)

-- A schedule with a round for each unit that waits or runs is long enough.
pub wave_loop-returns :
    (config : WaveConfig) (ticks : List Tick) (w : Wave)
    → size w ≤ length ticks
    → (r : Step (Unit {0}) × Wave) × (wave_loop config ticks w ≡ some r)
unfolding wave_loop is_idle
wave_loop-returns config [] w h =
    ((ok tt, w), rw (idle_of_size w.waiting w.running (omega arith)) refl)
wave_loop-returns config (tick ∷ ticks) w h = elim (Bool-cases (is_idle w)) [
  | inl idle ↦ ((ok tt, w), rw idle refl)
  | inr more ↦ elim (round_case (round tick config w)) [
    | goes_on w' e ↦
        let smaller = (round-Advanced tick config w w' e).smaller in
        let (r, ended) = wave_loop-returns config ticks w' (omega (arith, smaller)) in
        (r, rw (more, e) ended)
    | ends w' e ↦ ((ok tt, w'), rw (more, e) refl)
    | fails e' w' e ↦ ((err e', w'), rw (more, e) refl)
  ]
]

-- Nothing runs any more, and nothing waits unless the wave was halted.
pub record Ended (w : Wave) : Type 0 where
  pub none_runs : is_empty w.running ≡ true
  pub none_waits : (halted w ≡ true) ⊎ (is_empty w.waiting ≡ true)

join-finish :
    (tick : Tick) (config : WaveConfig) (rs : List (DeploymentPlanItem × ℕ)) (w w' : Wave)
    → join tick config rs w ≡ finish w'
    → (is_empty rs ≡ true) × (w ≡ w')
unfolding join
join-finish tick config [] w w' h = (refl, ground arith)
join-finish tick config (first ∷ rest) w w' h = ground arith

join_after-finish :
    (tick : Tick) (config : WaveConfig) (r : Step (Unit {0})) (w w' : Wave)
    → join_after tick config (r, w) ≡ finish w'
    → (r ≡ ok tt) × (is_empty w.running ≡ true) × (w ≡ w')
unfolding join_after
join_after-finish tick config (err e) w w' h = ground arith
join_after-finish tick config (ok u) w w' h =
    let j = join-finish tick config w.running w w' h in (refl, j.0, j.1)

-- Filling succeeded: the wave is halted, or keeps something running while something waits.
fill_if_open-Busy :
    (now : ℕ) (config : WaveConfig) (w : Wave)
    → 0 < config.max_parallel
    → (fill_if_open now config w).0 ≡ ok tt
    → (halted (fill_if_open now config w).1 ≡ true) ⊎ Busy (fill_if_open now config w).1
unfolding fill_if_open
fill_if_open-Busy now config w positive h = elim (Bool-cases (halted w)) [
  | inl stopped ↦ rw stopped (inl stopped)
  | inr going ↦ rw going (inr (fill-Busy now config w.waiting w positive (rw going at h)))
]

Ended-of_Busy : (w : Wave) → is_empty w.running ≡ true → (halted w ≡ true) ⊎ Busy w → Ended w
unfolding Busy
Ended-of_Busy w idle (inl stopped) = record { none_runs = idle; none_waits = inl stopped }
Ended-of_Busy w idle (inr busy) = record { none_runs = idle; none_waits = inr (busy idle) }

round-finish :
    (tick : Tick) (config : WaveConfig) (w w' : Wave)
    → 0 < config.max_parallel
    → round tick config w ≡ finish w'
    → Ended w'
unfolding round
round-finish tick config w w' positive h =
    let opened = fill_if_open tick.now config (observe tick w) in
    let j = join_after-finish tick config opened.0 opened.1 w' h in
    rw (← j.2)
      (Ended-of_Busy opened.1 j.1 (fill_if_open-Busy tick.now config (observe tick w) positive j.0))

idle-Ended : (w : Wave) → is_idle w ≡ true → Ended w
unfolding is_idle
idle-Ended w h = record { none_runs = ground arith; none_waits = inr (ground arith) }

some-ok :
    {w w' : Wave} {u : Unit {0}}
    → ◌≡◌ {A = Option (Step (Unit {0}) × Wave)} (some (ok tt, w)) (some (ok u, w'))
    → w ≡ w'
some-ok h = ground arith

wave_loop-Ended :
    (config : WaveConfig) (ticks : List Tick) (w w' : Wave)
    → 0 < config.max_parallel
    → wave_loop config ticks w ≡ some (ok tt, w')
    → Ended w'
unfolding wave_loop
wave_loop-Ended config [] w w' positive h = elim (Bool-cases (is_idle w)) [
  | inl idle ↦ rw (← some-ok (rw idle at h)) (idle-Ended w idle)
  | inr more ↦ ground arith
]
wave_loop-Ended config (tick ∷ ticks) w w' positive h = elim (Bool-cases (is_idle w)) [
  | inl idle ↦ rw (← some-ok (rw idle at h)) (idle-Ended w idle)
  | inr more ↦ elim (round_case (round tick config w)) [
    | goes_on w₁ e ↦ wave_loop-Ended config ticks w₁ w' positive (rw (more, e) at h)
    | ends w₁ e ↦ rw (← some-ok (rw (more, e) at h)) (round-finish tick config w w₁ positive e)
    | fails e' w₁ e ↦ ground arith
  ]
]

-- A wave always ends: however its units end and whenever it is canceled, as many rounds as it has
-- units are enough.
pub execute_wave-returns :
    (config : WaveConfig) (cancelled : Bool) (ticks : List Tick) (items : List DeploymentPlanItem)
    (db : Db)
    → length items ≤ length ticks
    → (r : Step WaveOutcome × Db) × (execute_wave config cancelled ticks items db ≡ some r)
unfolding execute_wave
execute_wave-returns config cancelled ticks items db h =
    let (r, ended) = wave_loop-returns config ticks (new_wave cancelled items db) (omega arith) in
    (wave_result r, rw (ended, execute_wave) refl)

-- If at least one unit may run at a time, a wave that ends without an error leaves no unit running,
-- and if it reports success, it leaves none waiting either.
pub wave_loop-success :
    (config : WaveConfig) (cancelled : Bool) (ticks : List Tick) (items : List DeploymentPlanItem)
    (db : Db) (w : Wave)
    → 0 < config.max_parallel
    → wave_loop config ticks (new_wave cancelled items db) ≡ some (ok tt, w)
    → (is_empty w.running ≡ true)
      × ((wave_outcome w ≢ WaveOutcome.success) ⊎ (is_empty w.waiting ≡ true))
unfolding wave_outcome
wave_loop-success config cancelled ticks items db w positive h =
    let e = wave_loop-Ended config ticks (new_wave cancelled items db) w positive h in
    (e.none_runs, elim e.none_waits [ inl stopped ↦ inl (λ s. ground arith) | inr done ↦ inr done ])
