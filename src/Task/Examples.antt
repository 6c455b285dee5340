-- ===== src/Task/Examples.antt =====
-- A task that waits and a task that runs.
use easy_deploy.Prelude.{
  ℕ, String, none, some, [], ◌∷◌, true, false, ◌≡◌, refl, arith, Result, ok, err, any, count, ◌⊎◌,
}
use easy_deploy.Run.Types.{TaskStatus, StepStatus}
use easy_deploy.Task.Types.{TaskError, OperationTask, TaskPhase, TaskDb, StartTaskPhaseInput}
use easy_deploy.Task.Service.{mark_running, cancel_queued}
use easy_deploy.Task.Phases.{update_phase, start_phase}
use easy_deploy.Task.Lifecycle.{mark_running-once}
use easy_deploy.Task.Cancellation.{IsFree, Canceled, cancel_queued-Canceled}
use easy_deploy.Prelude.Pairwise.{Pairwise}
use easy_deploy.Task.Endings.{fails, end_by, IsOver, end_by-IsOver}
use easy_deploy.Task.Exclusive.{IsExclusive, starts, begin, further, Moves-IsExclusive}
use easy_deploy.Task.Current.{IsIn, update_phase-IsIn}

abbrev task : ℕ → ℕ → String → TaskStatus → String → OperationTask
task id app_id kind status phase = record {
  id = id;
  task_kind = kind;
  title = "deploy";
  app_id = some app_id;
  release_id = none;
  node_id = none;
  environment_id = none;
  status = status;
  phase = phase;
  command = "";
  summary = "";
  exit_code = none;
  created_by = "admin";
  started_at = none;
  finished_at = none;
  updated_at = 0;
}

abbrev prepare : TaskPhase
prepare = record {
  id = 1;
  task_id = 2;
  phase_no = 1;
  phase_key = "prepare";
  title = "准备发布";
  status = StepStatus.running;
  summary = "";
  started_at = some 5;
  finished_at = none;
  updated_at = 5;
}

abbrev db : TaskDb
db = record {
  tasks =
      task 1 7 "compose.up" TaskStatus.queued "queued"
      ∷ task 2 8 "release.deploy" TaskStatus.running "prepare"
      ∷ [];
  phases = prepare ∷ [];
  steps = [];
  logs = [];
  node_results = [];
  runs = [];
  next_task_id = 3;
  next_phase_id = 2;
  next_step_id = 1;
}

abbrev result_or {ℓ} : {A E : Type ℓ} → A → Result A E → A
result_or a (ok b) = b
result_or a (err _) = a

cancel_queued-Canceled_example :
    (IsFree 1 db
      × ((db' : TaskDb) × (cancel_queued "missing" 10 1 "admin" db ≡ ok db')
          × Pairwise (Canceled 10 1) db.tasks db'.tasks))
    ⊎ ((¬ IsFree 1 db)
        × ((failure : TaskError) × (cancel_queued "missing" 10 1 "admin" db ≡ err failure)))
cancel_queued-Canceled_example = cancel_queued-Canceled "missing" 10 1 "admin" db

started : TaskDb
started = (result_or (false, db) (mark_running "missing" 10 1 "docker compose up" "executing" db)).1

starts_first : mark_running "missing" 10 1 "docker compose up" "executing" db ≡ ok (true, started)
unfolding started mark_running
starts_first = refl

mark_running-once_example :
    ¬ (mark_running "missing" 20 1 "docker compose up" "deploy" started ≡ ok (true, started))
mark_running-once_example =
    mark_running-once "missing" 10 20 1 "docker compose up" "executing" "docker compose up" "deploy"
      db started started starts_first

end_by-IsOver_example :
    (db' : TaskDb) × (end_by "missing" 30 2 (fails "timeout") db ≡ ok db') × IsOver 2 db'
unfolding any
end_by-IsOver_example = end_by-IsOver "missing" 30 2 (fails "timeout") db refl

db-IsExclusive : IsExclusive db
unfolding count
db-IsExclusive = λ app_id. ground arith

Moves-IsExclusive_example : IsExclusive started
Moves-IsExclusive_example =
    Moves-IsExclusive "missing"
      (further begin (starts 10 1 "docker compose up" "executing" starts_first)) db-IsExclusive

moved : TaskDb
moved = result_or db (update_phase 40 2 "deploy" db)

moves_now : update_phase 40 2 "deploy" db ≡ ok moved
unfolding moved update_phase
moves_now = refl

update_phase-IsIn_example : IsIn 2 "deploy" moved.phases
unfolding any
update_phase-IsIn_example = update_phase-IsIn 40 2 "deploy" db moved refl moves_now

abbrev input : StartTaskPhaseInput
input = record { task_id = 2; phase_key = "smoke"; title = "Smoke test" }

phased : TaskDb
phased = (result_or (0, db) (start_phase "missing" 50 input db)).1
