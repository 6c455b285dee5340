-- ===== src/Task/Endings.antt =====
-- A task that ended has no phase that still runs (api/src/tasks.rs, `finish_success`, `fail_task`,
-- `finish_with_compose_output`, `finish_open_phases`).
use easy_deploy.Prelude.{
  ℕ, String, none, some, List, true, false, All, ◌≡◌, refl, sym, ◌∙◌, any, Result-cases, subst, pos,
  arith, Bool-cases, inl, inr, Result, ok,
}
use easy_deploy.Prelude.Table.{update_where, All-update_where_plain}
use easy_deploy.Run.Types.{TaskStatus, StepStatus}
use easy_deploy.Task.Types.{TaskError, OperationTask, TaskPhase, TaskDb, ComposeCommandOutput}
use easy_deploy.Task.Names.{normalize_step_status, normalize_log_stream}
use easy_deploy.Task.Service.{task_is, phase_of, is_open, runs_now, append_log}
use easy_deploy.Task.Finish.{
  is_open_phase, close_phase, finish_open_phases, end_task, compose_summary, finish_composed,
  finish_with_compose_output, finish_success, fail_task,
}
use easy_deploy.Prelude.Searches.{any-update_where}
use easy_deploy.Task.Lifecycle.{is_ok, append_log-rows, append_log-ok}

pub data Ending : Type 0 where
  composes : ComposeCommandOutput → Ending
  succeeds : String → String → Ending
  fails : String → Ending

-- The call that ends a task so.
unfoldable pub end_by : String → ℕ → ℕ → Ending → TaskDb → Result TaskDb TaskError
end_by missing now task_id (composes output) db =
    finish_with_compose_output missing now task_id output db
end_by missing now task_id (succeeds command summary) db =
    finish_success missing now task_id command summary db
end_by missing now task_id (fails message) db = fail_task missing now task_id message db

-- The task is over, and so are its phases.
pub record IsOver (task_id : ℕ) (db : TaskDb) : Type 0 where
  pub task : All (λ t. task_is task_id t ≡ true → is_open t.status ≡ false) db.tasks
  pub phases : All (λ p. phase_of task_id p ≡ true → runs_now p.status ≡ false) db.phases

closed :
    (now task_id : ℕ) (status : StepStatus) (phases : List TaskPhase)
    → runs_now status ≡ false
    → All
        (λ p. phase_of task_id p ≡ true → runs_now p.status ≡ false)
        (update_where (is_open_phase task_id) (close_phase now status) phases)
unfolding close_phase
closed now task_id status phases over =
    All-update_where_plain (λ p. phase_of task_id p ≡ true → runs_now p.status ≡ false)
      (is_open_phase task_id) (close_phase now status) (λ p _ _. over)
      (λ p still own. ground (arith, still, own)) phases

ended :
    (task_id : ℕ) (change : OperationTask → OperationTask) (tasks : List OperationTask)
    → ((t : OperationTask) → is_open (change t).status ≡ false)
    → All
        (λ t. task_is task_id t ≡ true → is_open t.status ≡ false)
        (update_where (task_is task_id) change tasks)
ended task_id change tasks over =
    All-update_where_plain (λ t. task_is task_id t ≡ true → is_open t.status ≡ false)
      (task_is task_id) change (λ t _ _. over t)
      (λ t missed own. absurd (ground (arith, missed, own))) tasks

logged-IsOver :
    (missing : String) (task_id : ℕ) (stream content : String) (db db' : TaskDb)
    → append_log missing task_id stream content db ≡ ok db'
    → IsOver task_id db
    → IsOver task_id db'
logged-IsOver missing task_id stream content db db' e over =
    let (tasks, phases) = append_log-rows missing task_id stream content db db' e in
    record {
      task = subst (All _) (sym tasks) over.task;
      phases = subst (All _) (sym phases) over.phases;
    }

finish_composed-IsOver :
    (missing : String) (now task_id : ℕ) (status : TaskStatus) (phase phase_status : String)
    (step : StepStatus) (output : ComposeCommandOutput) (db db' : TaskDb)
    → is_open status ≡ false
    → runs_now step ≡ false
    → normalize_step_status phase_status ≡ ok step
    → finish_composed missing now task_id status phase phase_status output db ≡ ok db'
    → IsOver task_id db'
unfolding finish_composed finish_open_phases end_task
finish_composed-IsOver missing now task_id status phase phase_status step output db db' over still n
      e =
    logged-IsOver missing task_id "combined" output.output _ db' (rw (finish_composed, n) at e)
      (record {
        task =
            ended task_id
              (end_task now status phase (some output.command) (compose_summary output)
                output.status_code)
              db.tasks (λ t. over);
        phases = closed now task_id step db.phases still;
      })

ended_by-IsOver :
    (missing : String) (now task_id : ℕ) (ending : Ending) (db db' : TaskDb)
    → end_by missing now task_id ending db ≡ ok db'
    → IsOver task_id db'
unfolding end_by finish_with_compose_output finish_success fail_task finish_open_phases
    normalize_step_status end_task
ended_by-IsOver missing now task_id (succeeds command summary) db db' e =
    logged-IsOver missing task_id "system" summary _ db' e (record {
      task =
          ended task_id
            (end_task now TaskStatus.success "completed" (some command) summary (some (pos 0)))
            db.tasks (λ t. refl);
      phases = closed now task_id StepStatus.success db.phases refl;
    })
ended_by-IsOver missing now task_id (fails message) db db' e =
    logged-IsOver missing task_id "system" message _ db' e (record {
      task =
          ended task_id (end_task now TaskStatus.failed "failed" none message none) db.tasks
            (λ t. refl);
      phases = closed now task_id StepStatus.failed db.phases refl;
    })
ended_by-IsOver missing now task_id (composes output) db db' e = elim (Bool-cases output.success) [
  | inl q ↦
      finish_composed-IsOver missing now task_id TaskStatus.success "completed" "success"
        StepStatus.success output db db' refl refl refl (rw (finish_with_compose_output, q) at e)
  | inr q ↦
      finish_composed-IsOver missing now task_id TaskStatus.failed "failed" "failed"
        StepStatus.failed output db db' refl refl refl (rw (finish_with_compose_output, q) at e)
]

tasks_kept :
    (task_id : ℕ) (change : OperationTask → OperationTask) (tasks : List OperationTask)
    → ((t : OperationTask) → (change t).id ≡ t.id)
    → any (task_is task_id) (update_where (task_is task_id) change tasks)
      ≡ any (task_is task_id) tasks
tasks_kept task_id change tasks same =
    any-update_where (task_is task_id) (task_is task_id) change (λ t. rw (same t) refl) tasks

finish_composed-ok :
    (missing : String) (now task_id : ℕ) (status : TaskStatus) (phase phase_status : String)
    {step : StepStatus} (output : ComposeCommandOutput) (db : TaskDb)
    → normalize_step_status phase_status ≡ ok step
    → is_ok (finish_composed missing now task_id status phase phase_status output db)
      ≡ any (task_is task_id) db.tasks
unfolding finish_composed finish_open_phases end_task normalize_log_stream
finish_composed-ok missing now task_id status phase phase_status output db n = rw n (
    append_log-ok missing task_id "combined" output.output _ refl
    ∙ tasks_kept task_id _ db.tasks (λ t. refl))

end_by-ok :
    (missing : String) (now task_id : ℕ) (ending : Ending) (db : TaskDb)
    → is_ok (end_by missing now task_id ending db) ≡ any (task_is task_id) db.tasks
unfolding end_by finish_with_compose_output finish_success fail_task finish_open_phases
    normalize_step_status normalize_log_stream end_task
end_by-ok missing now task_id (succeeds command summary) db =
    append_log-ok missing task_id "system" summary _ refl
    ∙ tasks_kept task_id _ db.tasks (λ t. refl)
end_by-ok missing now task_id (fails message) db =
    append_log-ok missing task_id "system" message _ refl
    ∙ tasks_kept task_id _ db.tasks (λ t. refl)
end_by-ok missing now task_id (composes output) db = elim (Bool-cases output.success) [
  | inl q ↦ rw q (
      finish_composed-ok missing now task_id TaskStatus.success "completed" "success" output db
        refl)
  | inr q ↦
      rw q
        (finish_composed-ok missing now task_id TaskStatus.failed "failed" "failed" output db refl)
]

-- A call that ends a task that exists, successfully or not, succeeds and leaves the task neither
-- queued nor running, and none of its phases running, whatever state they were in.
pub end_by-IsOver :
    (missing : String) (now task_id : ℕ) (ending : Ending) (db : TaskDb)
    → any (task_is task_id) db.tasks ≡ true
    → (db' : TaskDb) × (end_by missing now task_id ending db ≡ ok db') × IsOver task_id db'
end_by-IsOver missing now task_id ending db exists =
    elim (Result-cases (end_by missing now task_id ending db)) [
      | inl (db', e) ↦ (db', e, ended_by-IsOver missing now task_id ending db db' e)
      | inr (x, e) ↦ absurd (ground (arith, end_by-ok missing now task_id ending db, e, exists))
    ]
