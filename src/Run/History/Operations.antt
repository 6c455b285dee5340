-- ===== src/Run/History/Operations.antt =====
-- Claiming, canceling and finalizing let the table of runs evolve.
use easy_deploy.Prelude.{
  ℕ, String, List, Bool, true, find, is_some, ok, ◌≡◌, refl, arith, Bool-cases, Option-cases, inl,
  inr,
}
use easy_deploy.Run.Counts.{done_count, missed_count, unknown_count}
use easy_deploy.Prelude.Text.{trim, text_is_empty}
use easy_deploy.Plan.Types.{DeploymentPlan}
use easy_deploy.Run.Types.{RunStatus, RunRow, Db, Message, ExecutionRunRow, DeploymentRunOutcome}
use easy_deploy.Run.Status.Runs
use easy_deploy.Run.Claim.{
  is_queued_run, start_run, claimed, claim_deployment_run, select_claimable,
}
use easy_deploy.Run.Cancel.{
  accepts_request, mark_requested, cancel_queued_run, cancel_before_start, request_stop,
  record_request, decide_request, request_cancellation, has_task,
}
use easy_deploy.Run.Finalize.{
  is_running_run, finish_run, close_run, finalize_deployment_run, final_status, run_verdict,
  final_summary,
}
use easy_deploy.Run.History.Evolution.{
  Follows, Evolves, Evolves-refl, Evolves-trans, Evolves-update_where, may_become,
}

start_run-Follows :
    (now id : ℕ) (run : RunRow) → is_queued_run id run ≡ true → Follows run (start_run now run)
unfolding start_run
start_run-Follows now id run h = record {
  id = refl;
  environment = refl;
  release = refl;
  task = refl;
  plan = refl;
  plan_hash = refl;
  forward = ground arith;
  settled = λ over. ground arith;
}

claimed-Evolves :
    (now id : ℕ) (run : ExecutionRunRow) (db : Db) → Evolves db.runs (claimed now id run db).runs
unfolding claimed
claimed-Evolves now id run db =
    Evolves-update_where (is_queued_run id) (start_run now) (start_run-Follows now id) db.runs

pub claim_deployment_run-Evolves :
    (now id : ℕ) (db db' : Db) (run : ExecutionRunRow)
    → claim_deployment_run now id db ≡ ok (run, db')
    → Evolves db.runs db'.runs
unfolding claim_deployment_run
claim_deployment_run-Evolves now id db db' run h = elim (Option-cases (select_claimable id db)) [
  | inl e ↦ ground arith
  | inr (row, e) ↦
      let same : claimed now id row db ≡ db' = ground arith in
      rw (← same) (claimed-Evolves now id row db)
]

-- A run that was over cannot pass a test for an active status.
mark_requested-Follows :
    (now id : ℕ) (actor : String) (run : RunRow)
    → accepts_request id run ≡ true
    → Follows run (mark_requested now actor run)
unfolding mark_requested
mark_requested-Follows now id actor run h = record {
  id = refl;
  environment = refl;
  release = refl;
  task = refl;
  plan = refl;
  plan_hash = refl;
  forward = ground arith;
  settled = λ over. ground arith;
}

pub cancel_queued_run-Evolves :
    (now id : ℕ) (summary : Message) (runs : List RunRow)
    → Evolves runs (cancel_queued_run now id summary runs)
unfolding cancel_queued_run
cancel_queued_run-Evolves now id summary runs =
    Evolves-update_where (is_queued_run id) _
      (λ run h. record {
        id = refl;
        environment = refl;
        release = refl;
        task = refl;
        plan = refl;
        plan_hash = refl;
        forward = ground arith;
        settled = λ over. ground arith;
      })
      runs

record_request-Evolves :
    (now id task_id : ℕ) (status : RunStatus) (actor : String) (db : Db)
    → Evolves db.runs (record_request now id task_id status actor db).runs
unfolding record_request cancel_before_start request_stop
record_request-Evolves now id task_id status actor db =
    let marked =
      Evolves-update_where (accepts_request id) (mark_requested now actor)
        (mark_requested-Follows now id actor) db.runs in
    elim (Bool-cases (Runs.is_queued status)) [
      | inl e ↦ rw e (Evolves-trans db.runs _ _ marked (cancel_queued_run-Evolves now id _ _))
      | inr e ↦ rw e marked
    ]

decide_request-Evolves :
    (now id task_id : ℕ) (actor : String) (run : RunRow) (db db' : Db) (done : Bool)
    → decide_request now id task_id actor run db ≡ ok (done, db')
    → Evolves db.runs db'.runs
unfolding decide_request
decide_request-Evolves now id task_id actor run db db' done h =
    elim (Bool-cases (Runs.is_cancelable run.status)) [
      | inr e ↦ ground arith
      | inl e ↦ elim (Bool-cases (is_some run.cancel_requested_at)) [
        | inl again ↦ let same : db ≡ db' = ground arith in rw (← same) (Evolves-refl db.runs)
        | inr fresh ↦
            let same : record_request now id task_id run.status actor db ≡ db' = ground arith in
            rw (← same) (record_request-Evolves now id task_id run.status actor db)
      ]
    ]

pub request_cancellation-Evolves :
    (now id : ℕ) (actor : String) (db db' : Db) (done : Bool)
    → request_cancellation now id actor db ≡ ok (done, db')
    → Evolves db.runs db'.runs
unfolding request_cancellation
request_cancellation-Evolves now id actor db db' done h =
    elim (Bool-cases (text_is_empty (trim actor))) [
      | inl e ↦ ground arith
      | inr e ↦ elim (Option-cases (find (has_task id) db.runs)) [
        | inl missing ↦ ground arith
        | inr (run, found) ↦ elim (Option-cases run.task_id) [
          | inl missing ↦ ground arith
          | inr (task_id, has) ↦
              decide_request-Evolves now id task_id (trim actor) run db db' done (ground arith)
        ]
      ]
    ]

finish_run-Follows :
    (now id : ℕ) (status : RunStatus) (summary : Message) (run : RunRow)
    → may_become RunStatus.running status ≡ true
    → is_running_run id run ≡ true
    → Follows run (finish_run now status summary run)
unfolding finish_run
finish_run-Follows now id status summary run final h = record {
  id = refl;
  environment = refl;
  release = refl;
  task = refl;
  plan = refl;
  plan_hash = refl;
  forward = ground arith;
  settled = λ over. ground arith;
}

final_status-final :
    (done missed unknown : ℕ) (canceled : Bool)
    → may_become RunStatus.running (final_status done missed unknown canceled) ≡ true
unfolding final_status
final_status-final done missed unknown canceled = ground arith

close_run-Evolves :
    (now id done missed unknown : ℕ) (plan : DeploymentPlan) (canceled : Bool) (summary : Message)
    (db : Db)
    → Evolves db.runs
        (close_run now id plan (final_status done missed unknown canceled) canceled summary db).runs
unfolding close_run
close_run-Evolves now id done missed unknown plan canceled summary db =
    Evolves-update_where (is_running_run id) _
      (λ run.
        finish_run-Follows now id (final_status done missed unknown canceled) summary run
          (final_status-final done missed unknown canceled))
      db.runs

pub finalize_deployment_run-Evolves :
    (now id : ℕ) (plan : DeploymentPlan) (canceled : Bool) (db db' : Db)
    (outcome : DeploymentRunOutcome)
    → finalize_deployment_run now id plan canceled db ≡ ok (outcome, db')
    → Evolves db.runs db'.runs
unfolding finalize_deployment_run run_verdict
finalize_deployment_run-Evolves now id plan canceled db db' outcome h =
    let status = run_verdict id canceled db.results in
    let same : close_run now id plan status canceled (final_summary id status canceled db.results)
          db
        ≡ db' =
      ground arith in
    rw (← same) (
      close_run-Evolves now id (done_count id db.results) (missed_count id db.results)
        (unknown_count id db.results) plan canceled (final_summary id status canceled db.results)
        db)
