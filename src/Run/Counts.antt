-- ===== src/Run/Counts.antt =====
-- The counts over a run's unit results, and the ids that a statement addresses
-- (api/src/deployment_orchestrator.rs, the aggregate SELECTs).
use easy_deploy.Prelude.{
  ℕ, Option, none, some, List, [], ◌∷◌, Bool, false, ◌&&◌, count, find, ◌==◌, if◌then◌else◌, Result,
  ok, err,
}
use easy_deploy.Run.Types.{ResultRow, RunRow, Message, lit, num, OrchestratorError, database}
use easy_deploy.Run.Status.Units
use easy_deploy.Run.Claim.{run_id_is}

abbrev pub of_run : ℕ → ResultRow → Bool
of_run run_id row = row.deployment_run_id == run_id

-- SUM(CASE WHEN status IN ('success', 'skipped') THEN 1 ELSE 0 END), and so on, of one run.
unfoldable pub done_count : ℕ → List ResultRow → ℕ
done_count run_id = count λ row. of_run run_id row && Units.is_done row.status

unfoldable pub missed_count : ℕ → List ResultRow → ℕ
missed_count run_id = count λ row. of_run run_id row && Units.is_missed row.status

unfoldable pub unknown_count : ℕ → List ResultRow → ℕ
unknown_count run_id = count λ row. of_run run_id row && Units.is_unknown row.status

unfoldable pub total_count : ℕ → List ResultRow → ℕ
total_count run_id = count (of_run run_id)

-- SUM over no rows is NULL, which does not decode as an i64: the aggregate SELECT fails there.
unfoldable pub require_rows : ℕ → List ResultRow → Result (Unit {0}) OrchestratorError
unfolding total_count
require_rows run_id results =
    if total_count run_id results == 0
    then err (database (lit "unexpected null; try decoding as an `Option`" ∷ []))
    else ok tt

-- The sentence on the counts that two summaries share.
abbrev pub counts_text : ℕ → ℕ → ℕ → ℕ → Message
counts_text total done missed unknown =
    num total
    ∷ lit " 个部署单元：成功或跳过 "
    ∷ num done
    ∷ lit "，失败或未启动 "
    ∷ num missed
    ∷ lit "，取消状态未知 "
    ∷ num unknown
    ∷ []

-- SELECT task_id FROM environment_deployment_runs WHERE id = ?1, as a subquery.
unfoldable pub task_of_run : ℕ → List RunRow → Option ℕ
task_of_run run_id runs = elim (find (run_id_is run_id) runs) [
  | none ↦ none
  | some run ↦ run.task_id
]

-- SELECT environment_id FROM environment_deployment_runs WHERE id = ?1, as a subquery.
unfoldable pub environment_of_run : ℕ → List RunRow → Option ℕ
environment_of_run run_id runs = elim (find (run_id_is run_id) runs) [
  | none ↦ none
  | some run ↦ some run.environment_id
]

-- `id = (SELECT ..)`: false when the subquery yields NULL.
abbrev pub is_id : Option ℕ → ℕ → Bool
is_id none id = false
is_id (some wanted) id = id == wanted
