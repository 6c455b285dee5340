-- ===== src/Task/Shrinks.antt =====
-- The calls that open no task (api/src/tasks.rs, `TaskService`).
use Prim.Native.String.{◌++◌ as text_append}
use easy_deploy.Prelude.{
  ℕ, ℤ, String, Option, none, some, List, [], ◌∷◌, Bool, true, false, any, ◌≡◌, refl, ap, sym, pos,
  ◌∙◌, arith, Bool-cases, Result-cases, inl, inr, ok,
}
use easy_deploy.Prelude.Table.{update_where}
use easy_deploy.Run.Types.{TaskStatus, StepStatus}
use easy_deploy.Task.Types.{OperationTask, TaskDb, ComposeCommandOutput}
use easy_deploy.Task.Names.{normalize_task_phase, normalize_step_status}
use easy_deploy.Task.Service.{
  task_is, is_open, guards_app, is_queued_task, start_task, mark_running, is_cancelable,
  cancel_task, holds_task, raw_status, cancel_queued,
}
use easy_deploy.Task.Finish.{
  end_task, finish_open_phases, compose_summary, finish_composed, finish_with_compose_output,
  finish_success, fail_task,
}
use easy_deploy.Task.Phases.{is_running_task, set_phase, enter_phase, insert_phase, update_phase}
use easy_deploy.Task.Lifecycle.{append_log-rows, mark_running-rows}
use easy_deploy.Task.Endings.{Ending, composes, succeeds, fails, end_by}

-- Each move either adds the task that the trigger lets through, or updates rows without opening any.
pub record Shrinks (before after : TaskDb) : Type 0 where
  pub select : OperationTask → Bool
  pub change : OperationTask → OperationTask
  pub rows : after.tasks ≡ update_where select change before.tasks
  pub opens_none :
      (app_id : ℕ) (t : OperationTask)
      → select t ≡ true
      → guards_app app_id (change t) ≡ true
      → guards_app app_id t ≡ true

pub mark_running-Shrinks :
    (missing : String) (now task_id : ℕ) (command phase : String) (db db' : TaskDb)
    → mark_running missing now task_id command phase db ≡ ok (true, db')
    → Shrinks db db'
unfolding start_task
mark_running-Shrinks missing now task_id command phase db db' e = record {
  select = is_queued_task task_id;
  change = start_task now phase command;
  rows = (mark_running-rows missing now task_id command phase db db' e).1;
  opens_none = λ app_id t h g. ground (arith, h, g);
}

abbrev never : OperationTask → Bool
never _ = false

never-update_where : (tasks : List OperationTask) → update_where never (λ t. t) tasks ≡ tasks
unfolding update_where
never-update_where [] = refl
never-update_where (t ∷ tasks) = ap (◌∷◌ t) (never-update_where tasks)

unchanged-Shrinks : (db db' : TaskDb) → db'.tasks ≡ db.tasks → Shrinks db db'
unchanged-Shrinks db db' e = record {
  select = never;
  change = λ t. t;
  rows = e ∙ sym (never-update_where db.tasks);
  opens_none = λ app_id t h g. g;
}

enter_phase-rows :
    (now task_id : ℕ) (phase : String) (db : TaskDb)
    → (enter_phase now task_id phase db).tasks ≡ db.tasks
unfolding enter_phase insert_phase
enter_phase-rows now task_id phase db = ground arith

pub update_phase-Shrinks :
    (now task_id : ℕ) (phase : String) (db db' : TaskDb)
    → update_phase now task_id phase db ≡ ok db'
    → Shrinks db db'
unfolding update_phase set_phase
update_phase-Shrinks now task_id phase db db' e = elim (Result-cases (normalize_task_phase phase)) [
  | inr (x, n) ↦ absurd (ground (arith, rw (update_phase, n) at e))
  | inl (p, n) ↦
      let e₁ = rw (update_phase, n) at e in
      elim (Bool-cases (any (is_running_task task_id) db.tasks)) [
        | inl q ↦
            let moved = record db {
              tasks = update_where (is_running_task task_id) (set_phase now p) db.tasks;
            } in
            let same : enter_phase now task_id p moved ≡ db' = ground (arith, rw q at e₁) in
            record {
              select = is_running_task task_id;
              change = set_phase now p;
              rows = sym (ap (λ d. d.tasks) same) ∙ enter_phase-rows now task_id p moved;
              opens_none = λ app_id t h g. g;
            }
        | inr q ↦
            let same : db ≡ db' = ground (arith, rw q at e₁) in
            unchanged-Shrinks db db' (sym (ap (λ d. d.tasks) same))
      ]
]

pub cancel_queued-Shrinks :
    (missing : String) (now task_id : ℕ) (actor : String) (db db' : TaskDb)
    → cancel_queued missing now task_id actor db ≡ ok db'
    → Shrinks db db'
unfolding cancel_queued cancel_task
cancel_queued-Shrinks missing now task_id actor db db' e =
    elim (Bool-cases (any (is_cancelable db task_id) db.tasks)) [
      | inl q ↦
          let message = text_append actor " 取消了排队任务" in
          record {
            select = is_cancelable db task_id;
            change = cancel_task now message;
            rows =
                (append_log-rows missing task_id "system" message _ db'
                  (rw (cancel_queued, q) at e)).0;
            opens_none = λ app_id t h g. ground (arith, g);
          }
      | inr q ↦
          let e₁ = rw (cancel_queued, q) at e in
          elim (Bool-cases (any (holds_task task_id) db.runs)) [
            | inl a ↦ absurd (ground (arith, rw a at e₁))
            | inr a ↦ elim (Result-cases (raw_status task_id db)) [
              | inl (s, b) ↦ absurd (ground (arith, rw (a, b) at e₁))
              | inr (x, b) ↦ absurd (ground (arith, rw (a, b) at e₁))
            ]
          ]
    ]

end_task-closes :
    (now app_id : ℕ) (status : TaskStatus) (phase : String) (command : Option String)
    (summary : String) (exit_code : Option ℤ) (t : OperationTask)
    → is_open status ≡ false
    → guards_app app_id (end_task now status phase command summary exit_code t) ≡ true
    → guards_app app_id t ≡ true
unfolding end_task
end_task-closes now app_id status phase command summary exit_code t over g =
    absurd (ground (arith, over, g))

finish_composed-Shrinks :
    (missing : String) (now task_id : ℕ) (status : TaskStatus) (phase phase_status : String)
    (step : StepStatus) (output : ComposeCommandOutput) (db db' : TaskDb)
    → is_open status ≡ false
    → normalize_step_status phase_status ≡ ok step
    → finish_composed missing now task_id status phase phase_status output db ≡ ok db'
    → Shrinks db db'
unfolding finish_composed finish_open_phases
finish_composed-Shrinks missing now task_id status phase phase_status step output db db' over n e =
    record {
      select = task_is task_id;
      change =
          end_task now status phase (some output.command) (compose_summary output)
            output.status_code;
      rows =
          (append_log-rows missing task_id "combined" output.output _ db'
            (rw (finish_composed, n) at e)).0;
      opens_none = λ app_id t _ g.
          end_task-closes now app_id status phase (some output.command) (compose_summary output)
            output.status_code t over g;
    }

pub end_by-Shrinks :
    (missing : String) (now task_id : ℕ) (ending : Ending) (db db' : TaskDb)
    → end_by missing now task_id ending db ≡ ok db'
    → Shrinks db db'
unfolding end_by finish_with_compose_output finish_success fail_task finish_open_phases
    normalize_step_status
end_by-Shrinks missing now task_id (succeeds command summary) db db' e = record {
  select = task_is task_id;
  change = end_task now TaskStatus.success "completed" (some command) summary (some (pos 0));
  rows = (append_log-rows missing task_id "system" summary _ db' e).0;
  opens_none = λ app_id t _ g.
      end_task-closes now app_id TaskStatus.success "completed" (some command) summary
        (some (pos 0)) t refl g;
}
end_by-Shrinks missing now task_id (fails message) db db' e = record {
  select = task_is task_id;
  change = end_task now TaskStatus.failed "failed" none message none;
  rows = (append_log-rows missing task_id "system" message _ db' e).0;
  opens_none = λ app_id t _ g.
      end_task-closes now app_id TaskStatus.failed "failed" none message none t refl g;
}
end_by-Shrinks missing now task_id (composes output) db db' e = elim (Bool-cases output.success) [
  | inl q ↦
      finish_composed-Shrinks missing now task_id TaskStatus.success "completed" "success"
        StepStatus.success output db db' refl refl (rw (finish_with_compose_output, q) at e)
  | inr q ↦
      finish_composed-Shrinks missing now task_id TaskStatus.failed "failed" "failed"
        StepStatus.failed output db db' refl refl (rw (finish_with_compose_output, q) at e)
]
