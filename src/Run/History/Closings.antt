-- ===== src/Run/History/Closings.antt =====
-- Recovering, confirming and failing interrupted runs let the table of runs evolve.
use easy_deploy.Prelude.{
  ℕ, String, Option, none, some, List, [], ◌∷◌, Bool, true, find, ok, ◌≡◌, refl, arith,
  Option-cases, inl, inr,
}
use easy_deploy.Run.Counts.{done_count, unknown_count}
use easy_deploy.Prelude.Text.{trim}
use easy_deploy.Run.Types.{RunStatus, RunRow, Db, Message, DeploymentRunOutcome}
use easy_deploy.Run.Claim.{run_id_is}
use easy_deploy.Run.Finalize.{is_running_run}
use easy_deploy.Run.Recover.{
  cancel_queued, park_run, park_running, for_each, reconcile_interrupted_runs, interrupt_results,
}
use easy_deploy.Run.Close.{
  is_reconciling_run, confirm_run, confirm_tasks, confirmed, confirm_interrupted_run_stopped,
  is_open_run, fail_run, failed, fail_selected, fail_run_on_internal_error, broken_status,
  confirmation_text,
}
use easy_deploy.Run.History.Operations.{cancel_queued_run-Evolves}
use easy_deploy.Run.History.Evolution.{
  Follows, Evolves, Evolves-refl, Evolves-trans, Evolves-update_where, may_become,
}

park_running-Evolves : (now id : ℕ) (db : Db) → Evolves db.runs (park_running now id db).runs
unfolding park_running park_run
park_running-Evolves now id db =
    Evolves-update_where (is_running_run id) _
      (λ run h. record {
        id = refl;
        environment = refl;
        release = refl;
        task = refl;
        plan = refl;
        plan_hash = refl;
        forward = ground arith;
        settled = λ over. ground arith;
      })
      db.runs

cancel_queued-Evolves : (now id : ℕ) (db : Db) → Evolves db.runs (cancel_queued now id db).runs
unfolding cancel_queued
cancel_queued-Evolves now id db = cancel_queued_run-Evolves now id _ db.runs

for_each-Evolves :
    (body : ℕ → Db → Db)
    → ((id : ℕ) (db : Db) → Evolves db.runs (body id db).runs)
    → (ids : List ℕ) (db : Db) → Evolves db.runs (for_each body ids db).runs
unfolding for_each
for_each-Evolves body each [] db = Evolves-refl db.runs
for_each-Evolves body each (id ∷ ids) db =
    Evolves-trans db.runs _ _ (each id db) (for_each-Evolves body each ids (body id db))

pub reconcile_interrupted_runs-Evolves :
    (now : ℕ) (db : Db) → Evolves db.runs (reconcile_interrupted_runs now db).1.runs
unfolding reconcile_interrupted_runs
reconcile_interrupted_runs-Evolves now db =
    Evolves-trans db.runs _ _
      (for_each-Evolves (cancel_queued now) (cancel_queued-Evolves now) _ db)
      (for_each-Evolves (park_running now) (park_running-Evolves now) _ _)

broken_status-final :
    (done unknown : ℕ) → may_become RunStatus.reconciling (broken_status done unknown) ≡ true
unfolding broken_status
broken_status-final done unknown = ground arith

confirm_run-Follows :
    (now id done unknown : ℕ) (summary : Message) (actor note : String) (run : RunRow)
    → is_reconciling_run id run ≡ true
    → Follows run (confirm_run now (broken_status done unknown) summary actor note run)
unfolding confirm_run
confirm_run-Follows now id done unknown summary actor note run h =
    let final = broken_status-final done unknown in
    record {
      id = refl;
      environment = refl;
      release = refl;
      task = refl;
      plan = refl;
      plan_hash = refl;
      forward = ground (arith, final);
      settled = λ over. ground arith;
    }

runs-confirm_tasks :
    (now : ℕ) (status : RunStatus) (summary : Message) (actor note : String) (task : Option ℕ)
    (db : Db)
    → (confirm_tasks now status summary actor note task db).runs ≡ db.runs
unfolding confirm_tasks
runs-confirm_tasks now status summary actor note none db = refl
runs-confirm_tasks now status summary actor note (some id) db = refl

confirmed-Evolves :
    (now done unknown : ℕ) (row : RunRow) (summary : Message) (actor note : String) (db : Db)
    → Evolves db.runs (confirmed now row (broken_status done unknown) summary actor note db).runs
unfolding confirmed
confirmed-Evolves now done unknown row summary actor note db = rw runs-confirm_tasks (
    Evolves-update_where (is_reconciling_run row.id) _
      (confirm_run-Follows now row.id done unknown summary actor note) db.runs)

pub confirm_interrupted_run_stopped-Evolves :
    (now id : ℕ) (actor note : String) (db db' : Db) (outcome : DeploymentRunOutcome)
    → confirm_interrupted_run_stopped now id actor note db ≡ ok (outcome, db')
    → Evolves db.runs db'.runs
unfolding confirm_interrupted_run_stopped
confirm_interrupted_run_stopped-Evolves now id actor note db db' outcome h =
    elim (Option-cases (find (run_id_is id) db.runs)) [
      | inl missing ↦ ground arith
      | inr (run, found) ↦
          let done = done_count id db.results in
          let unknown = unknown_count id db.results in
          let text = confirmation_text id db.results (trim note) in
          let same : confirmed now run (broken_status done unknown) text (trim actor) (trim note) db
              ≡ db' =
            ground arith in
          rw (← same) (confirmed-Evolves now done unknown run text (trim actor) (trim note) db)
    ]

fail_run-Follows :
    (now id done unknown : ℕ) (summary : Message) (run : RunRow)
    → is_open_run id run ≡ true
    → Follows run (fail_run now (broken_status done unknown) summary run)
unfolding fail_run
fail_run-Follows now id done unknown summary run h =
    let final = broken_status-final done unknown in
    record {
      id = refl;
      environment = refl;
      release = refl;
      task = refl;
      plan = refl;
      plan_hash = refl;
      forward = ground (arith, final);
      settled = λ over. ground arith;
    }

failed-Evolves :
    (now id task_id environment_id : ℕ) (summary : Message) (db : Db)
    → Evolves db.runs (failed now id task_id environment_id summary db).runs
unfolding failed
failed-Evolves now id task_id environment_id summary db =
    Evolves-update_where (is_open_run id) _
      (fail_run-Follows now id (done_count id db.results) (unknown_count id db.results) summary)
      db.runs

interrupted : ℕ → ℕ → Message → Db → Db
interrupted now id summary db = record db {
  results = interrupt_results now id "orchestrator_internal_error" (λ _. summary) db.results;
}

fail_selected-Evolves :
    (now id : ℕ) (summary : Message) (run : Option RunRow) (db db' : Db) (done : Bool)
    → fail_selected now id summary run db ≡ ok (done, db')
    → Evolves db.runs db'.runs
unfolding fail_selected interrupted
fail_selected-Evolves now id summary none db db' done h =
    let same : db ≡ db' = ground arith in rw (← same) (Evolves-refl db.runs)
fail_selected-Evolves now id summary (some run) db db' done h = elim (Option-cases run.task_id) [
  | inl missing ↦ ground arith
  | inr (task_id, has) ↦
      let same : failed now id task_id run.environment_id summary (interrupted now id summary db)
          ≡ db' =
        ground arith in
      rw (← same)
        (failed-Evolves now id task_id run.environment_id summary (interrupted now id summary db))
]

pub fail_run_on_internal_error-Evolves :
    (now id : ℕ) (text : String) (db db' : Db) (done : Bool)
    → fail_run_on_internal_error now id text db ≡ ok (done, db')
    → Evolves db.runs db'.runs
unfolding fail_run_on_internal_error
fail_run_on_internal_error-Evolves now id text db db' done =
    fail_selected-Evolves now id _ (find (is_open_run id) db.runs) db db' done
