-- ===== src/Run/Examples.antt =====
-- A run that is created and executed in a small database.
use mathlib.Core.Logic.{◌≢◌}
use easy_deploy.Plan.Build.{
  is_stop, plan_item, collect_states, unit_states, plan_items, seal_plan, draft_plan,
  build_deployment_plan,
}
use easy_deploy.Plan.Classify.{
  classify_action, common_previous_fingerprint, classify_covered, matches_target, opt_id_eq,
  untrusted, current_codes,
}
use easy_deploy.Plan.Fixtures.{web, web_on, digests}
use easy_deploy.Plan.Types.{normal, skip, DeploymentPlan}
use easy_deploy.Plan.Waves.{execution_waves, is_skip, add_items, add_item}
use easy_deploy.Prelude.{
  eq_iff, keep, false, subst, [], ◌∷◌, none, some, Result, ok, err, ◌≡◌, refl, arith, count, any,
  find, contains, all, lt_int,
}
use easy_deploy.Prelude.Ids.{dedup, sort_ids}
use easy_deploy.Prelude.Table.{update_where}
use easy_deploy.Prelude.Text.{trim}
use easy_deploy.Run.Catalog.{
  deployment_target_fingerprint, is_enabled, select_identity, unit_release, target_unit,
  target_nodes, plan_input, load_deployment_plan,
}
use easy_deploy.Run.Claim.{
  select_claimable, start_run, claimed, claim_deployment_run, cancellation_requested,
  start_unit_result,
}
use easy_deploy.Run.Create.{
  create_run, created, last_active, task_refused, insert_run, plan_and_insert, new_run, new_task,
  new_result,
}
use easy_deploy.Prelude.Pairwise.{Pairwise}
use easy_deploy.Prelude.{str_eq, if◌then◌else◌, err}
use easy_deploy.Run.Claim.{claim_deployment_run}
use easy_deploy.Run.Execute.{
  PlanReader, stored_plan, execute_run, wave_config, run_waves, progress_of, execute_claimed,
}
use easy_deploy.Run.Execute.Returns.{Covers, execute_run-returns}
use easy_deploy.Run.Fixtures.{db, catalog, request, plan, run, write, read, schedule}
use easy_deploy.Run.History.{History, begin, after, creates, executes}
use easy_deploy.Run.History.Evolution.{Grows}
use easy_deploy.Run.History.Exclusion.{IsExclusive, History-IsExclusive}
use easy_deploy.Run.History.Executions.{History-Grows}
use easy_deploy.Run.Outcome.{persist_unit_outcome}
use easy_deploy.Run.Outcome.Redeploy.{reported, persist_unit_outcome-skip}
use easy_deploy.Run.Recover.{reconcile_interrupted_runs}
use easy_deploy.Run.Recover.Restart.{Restarted, reconcile_interrupted_runs-Restarted}
use easy_deploy.Run.Types.{
  UnitExecutionOutcome, ExecutionRunRow, Db, DeploymentRunOutcome, OrchestratorError, database,
}
use easy_deploy.Run.Wave.{
  round, fill, take_at, join, join_after, fill_if_open, is_idle, execute_wave,
}

abbrev db_created : Db
db_created = created 10 request plan "plan" db

creates_run : create_run digests write catalog 10 request db ≡ ok (run, db_created)
unfolding last_active task_refused insert_run plan_and_insert create_run
    deployment_target_fingerprint is_enabled select_identity unit_release target_unit target_nodes
    plan_input load_deployment_plan collect_states unit_states plan_item plan_items seal_plan
    draft_plan build_deployment_plan classify_action common_previous_fingerprint trim any keep find
    contains dedup sort_ids
creates_run = refl

abbrev executed : Result DeploymentRunOutcome OrchestratorError × Db
executed = elim (execute_run read schedule 1 db_created) [
  | none ↦ (err (database []), db_created)
  | some r ↦ r
]

executes_run : execute_run read schedule 1 db_created ≡ some executed
unfolding created wave_config run_waves stored_plan progress_of execute_claimed execute_run
    select_claimable start_run claimed claim_deployment_run cancellation_requested start_unit_result
    fill take_at join join_after fill_if_open round is_idle execute_wave is_skip add_item
    execution_waves keep find count update_where new_run new_task new_result
executes_run = refl

history : History digests read write db executed.1
history =
    after (after begin (creates catalog 10 request run creates_run))
      (executes schedule 1 executed.0 executes_run)

none_active : IsExclusive db.runs
unfolding count
none_active = record { at = λ environment_id. omega arith }

History-IsExclusive_example : IsExclusive executed.1.runs
History-IsExclusive_example = History-IsExclusive history none_active

executed-History : History digests read write db_created executed.1
executed-History = after begin (executes schedule 1 executed.0 executes_run)

History-Grows_example : Grows db_created.runs executed.1.runs
History-Grows_example = History-Grows executed-History

Covers-plan : Covers schedule 0 (execution_waves plan.items)
unfolding execution_waves keep is_skip add_items add_item
Covers-plan = (omega arith, tt)

-- A reader that knows one document.
abbrev reads_plan : PlanReader
reads_plan text = if str_eq text "plan" then ok plan else err "expected value at line 1 column 1"

covers :
    (row : ExecutionRunRow) (claimed : Db) (read_plan : DeploymentPlan)
    → claim_deployment_run schedule.now 1 db_created ≡ ok (row, claimed)
    → stored_plan reads_plan row ≡ ok read_plan
    → Covers schedule 0 (execution_waves read_plan.items)
unfolding stored_plan
covers row claimed read_plan _ h =
    let same : plan ≡ read_plan = ground (arith, h) in
    subst (λ (p : DeploymentPlan). Covers schedule 0 (execution_waves p.items)) same Covers-plan

execute_run-returns_example :
    (r : Result DeploymentRunOutcome OrchestratorError × Db) × (execute_run reads_plan schedule 1
        db_created
      ≡ some r)
execute_run-returns_example = execute_run-returns reads_plan schedule 1 db_created covers

reconcile_interrupted_runs-Restarted_example :
    Pairwise Restarted db_created.runs (reconcile_interrupted_runs 40 db_created).1.runs
reconcile_interrupted_runs-Restarted_example = reconcile_interrupted_runs-Restarted 40 db_created

web_active : web.desired_status ≢ "disabled"
web_active p = ground (arith, eq_iff "active" "disabled", p)

web_is_upgraded :
    is_stop (plan_item normal (1 ∷ 2 ∷ []) (web_on 1 ∷ web_on 2 ∷ []) web).action ≡ false
unfolding plan_item is_stop classify_action unit_states find classify_covered all matches_target
    opt_id_eq any untrusted current_codes lt_int
web_is_upgraded = refl

persist_unit_outcome-skip_example :
    (classify_action normal web (1 ∷ 2 ∷ []) (
      reported catalog 5 1
        (persist_unit_outcome 50 1 1 1 5
          (1 ∷ 2 ∷ [])
          (plan_item normal (1 ∷ 2 ∷ []) (web_on 1 ∷ web_on 2 ∷ []) web)
          (UnitExecutionOutcome.success [])
          db).states
        (1 ∷ 2 ∷ []))).0
    ≡ skip
persist_unit_outcome-skip_example =
    persist_unit_outcome-skip 50 1 1 1 5 catalog normal (1 ∷ 2 ∷ []) (web_on 1 ∷ web_on 2 ∷ []) web
      [] "1.2.0" db web_active web_is_upgraded refl
