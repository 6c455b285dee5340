-- ===== src/Run/Wave/Examples.antt =====
-- A wave of three units, two at a time, of which the first fails.
use mathlib.Core.Logic.{◌≢◌}
use easy_deploy.Prelude.{
  [], ◌∷◌, none, some, ok, ◌≡◌, refl, arith, false, true, ◌≤◌, length, is_empty, ◌⊎◌, count,
}
use easy_deploy.Prelude.Table.{update_where}
use easy_deploy.Run.Claim.{start_result, started, start_unit_result}
use easy_deploy.Run.Fixtures.{config, items, db_pending, tick, failing}
use easy_deploy.Run.Outcome.{finish_result, persist_unit_outcome}
use easy_deploy.Run.Types.{Db, WaveOutcome}
use easy_deploy.Run.Wave.{
  Wave, Step, Round, next, finish, abort, new_wave, observe, fill_if_open, round, wave_loop,
  wave_outcome, execute_wave, fill, join, join_after, take_at, is_idle,
}
use easy_deploy.Run.Wave.Ending.{execute_wave-returns, wave_loop-success}
use easy_deploy.Run.Wave.Progress.{here, onward, max_parallel-respected, halted-starts_nothing}
use easy_deploy.Run.Wave.Rounds.{halted}

abbrev wave : Wave
wave = new_wave false items db_pending

abbrev next_wave : Wave → Round → Wave
next_wave w (next w') = w'
next_wave w (finish w') = w
next_wave w (abort e w') = w

abbrev wave₁ : Wave
wave₁ = next_wave wave (round failing config wave)

abbrev wave₂ : Wave
wave₂ = next_wave wave₁ (round tick config wave₁)

first_round : round failing config wave ≡ next wave₁
unfolding fill join join_after fill_if_open round execute_wave start_result started
    start_unit_result count update_where
first_round = refl

second_round : round tick config wave₁ ≡ next wave₂
unfolding fill take_at join join_after fill_if_open round execute_wave start_result started
    start_unit_result count update_where
second_round = refl

wave₁-halted : halted wave₁ ≡ true
unfolding fill join join_after fill_if_open round execute_wave start_result started
    start_unit_result count update_where
wave₁-halted = refl

max_parallel-respected_example :
    length (fill_if_open tick.now config (observe tick wave₁)).1.running ≤ 2
max_parallel-respected_example =
    max_parallel-respected config false items db_pending wave₁ tick
      (onward failing here first_round)

halted-starts_nothing_example : (wave₂.waiting ≡ wave₁.waiting) × (halted wave₂ ≡ true)
halted-starts_nothing_example = halted-starts_nothing (onward tick here second_round) wave₁-halted

execute_wave-returns_example :
    (r : Step WaveOutcome × Db) × (execute_wave config false
        (failing ∷ tick ∷ tick ∷ [])
        items
        db_pending
      ≡ some r)
execute_wave-returns_example =
    execute_wave-returns config false (failing ∷ tick ∷ tick ∷ []) items db_pending (omega arith)

abbrev ended : Step (Unit {0}) × Wave
ended = elim (wave_loop config (tick ∷ tick ∷ tick ∷ []) wave) [ none ↦ (ok tt, wave) | some r ↦ r ]

loop_ends : wave_loop config (tick ∷ tick ∷ tick ∷ []) wave ≡ some (ok tt, ended.1)
unfolding fill take_at join join_after fill_if_open round is_idle execute_wave start_result started
    start_unit_result finish_result persist_unit_outcome count update_where
loop_ends = refl

wave_loop-success_example :
    (is_empty ended.1.running ≡ true)
    × ((wave_outcome ended.1 ≢ WaveOutcome.success) ⊎ (is_empty ended.1.waiting ≡ true))
wave_loop-success_example =
    wave_loop-success config false (tick ∷ tick ∷ tick ∷ []) items db_pending ended.1 (omega arith)
      loop_ends
