-- ===== src/Run/Wave/Progress.antt =====
-- The wave as a whole: how many units run at once, that it ends, and when it starts no more
-- (api/src/deployment_orchestrator.rs, `execute_wave`).
use easy_deploy.Prelude.{
  ℕ, ◌≤◌, ◌<◌, List, Bool, true, length, ok, err, ◌≡◌, refl, ap, ◌∙◌, arith, Bool-cases, inl, inr,
}
use easy_deploy.Plan.Types.{DeploymentPlanItem}
use easy_deploy.Run.Types.{Db}
use easy_deploy.Run.Wave.{
  Tick, WaveConfig, Wave, Step, join_after, observe, fill_if_open, round, next, new_wave,
}
use easy_deploy.Run.Wave.Rounds.{size, fill-Filled, halted, join-Joined}

-- What the first half of a round leads to.
pub record Opened (config : WaveConfig) (w w' : Wave) : Type 0 where
  pub within : length w.running ≤ config.max_parallel → length w'.running ≤ config.max_parallel
  pub total : size w' ≤ size w
  pub same_flags : halted w' ≡ halted w
  pub frozen : halted w ≡ true → w'.waiting ≡ w.waiting

fill_if_open-Opened :
    (now : ℕ) (config : WaveConfig) (w : Wave) → Opened config w (fill_if_open now config w).1
unfolding fill_if_open
fill_if_open-Opened now config w = elim (Bool-cases (halted w)) [
  | inl stopped ↦
      rw stopped
        (record { within = λ h. h; total = omega arith; same_flags = refl; frozen = λ _. refl })
  | inr going ↦
      let f = fill-Filled now config w.waiting w in
      rw going (record {
        within = f.within;
        total = f.total;
        same_flags = rw (f.failure, f.cancellation) refl;
        frozen = λ h. ground arith;
      })
]

-- One round that goes on.
pub record Advanced (config : WaveConfig) (w w' : Wave) : Type 0 where
  pub within : length w.running ≤ config.max_parallel → length w'.running ≤ config.max_parallel
  pub smaller : size w' < size w
  pub halted_stays : halted w ≡ true → halted w' ≡ true
  pub frozen : halted w ≡ true → w'.waiting ≡ w.waiting

join_after-Advanced :
    (tick : Tick) (config : WaveConfig) (w w' : Wave) (r : Step (Unit {0})) (filled : Wave)
    → Opened config (observe tick w) filled
    → join_after tick config (r, filled) ≡ next w'
    → Advanced config w w'
unfolding join_after observe
join_after-Advanced tick config w w' (err e) filled o h = ground arith
join_after-Advanced tick config w w' (ok u) filled o h =
    let j = join-Joined tick config filled.running filled w' h in
    record {
      within = λ b. omega (arith, o.within b, j.one_less);
      smaller = omega (arith, o.total, j.one_less, ap length j.waiting);
      halted_stays = λ s. j.halted_stays (o.same_flags ∙ ground (arith, s));
      frozen = λ s. j.waiting ∙ o.frozen (ground (arith, s));
    }

pub round-Advanced :
    (tick : Tick) (config : WaveConfig) (w w' : Wave)
    → round tick config w ≡ next w'
    → Advanced config w w'
unfolding round
round-Advanced tick config w w' h =
    join_after-Advanced tick config w w' _ _ (fill_if_open-Opened tick.now config (observe tick w))
      h

-- The states that the loop passes through.
pub data Reaches (config : WaveConfig) (w : Wave) : Wave → Type 0 where
  here : Reaches config w w
  onward :
      {w₁ w₂ : Wave} (tick : Tick)
      → Reaches config w w₁
      → round tick config w₁ ≡ next w₂
      → Reaches config w w₂

Reaches-within :
    {config : WaveConfig} {w w' : Wave}
    → Reaches config w w'
    → length w.running ≤ config.max_parallel
    → length w'.running ≤ config.max_parallel
Reaches-within here h = h
Reaches-within {config} (onward {w₁ = w₁} {w₂ = w₂} tick r e) h =
    (round-Advanced tick config w₁ w₂ e).within (Reaches-within r h)

-- In every round of a wave, however its units end and whenever it is canceled, no more units run at
-- once than the limit, also after the round has started new ones.
pub max_parallel-respected :
    (config : WaveConfig) (cancelled : Bool) (items : List DeploymentPlanItem) (db : Db) (w : Wave)
    (tick : Tick)
    → Reaches config (new_wave cancelled items db) w
    → length (fill_if_open tick.now config (observe tick w)).1.running ≤ config.max_parallel
unfolding new_wave observe
max_parallel-respected config cancelled items db w tick r =
    (fill_if_open-Opened tick.now config (observe tick w)).within (Reaches-within r (omega arith))

-- Once a failure or a cancellation was seen, no unit is started in any later round.
pub halted-starts_nothing :
    {config : WaveConfig} {w w' : Wave}
    → Reaches config w w'
    → halted w ≡ true
    → (w'.waiting ≡ w.waiting) × (halted w' ≡ true)
halted-starts_nothing here h = (refl, h)
halted-starts_nothing {config} (onward {w₁ = w₁} {w₂ = w₂} tick r e) h =
    let before = halted-starts_nothing r h in
    let step = round-Advanced tick config w₁ w₂ e in
    (step.frozen before.1 ∙ before.0, step.halted_stays before.1)
