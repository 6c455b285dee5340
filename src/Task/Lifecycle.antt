-- ===== src/Task/Lifecycle.antt =====
-- How a task is started, and when it is canceled (api/src/tasks.rs).
use Prim.Native.String.{◌++◌ as text_append}
use easy_deploy.Prelude.{
  ℕ, String, none, List, [], ◌∷◌, Bool, true, false, any, ◌≡◌, refl, ap, sym, ◌∙◌, arith,
  Bool-cases, Result-cases, inl, inr, Result, ok, err, >>=-eq-ok,
}
use easy_deploy.Prelude.Table.{update_where}
use easy_deploy.Prelude.Searches.{any-update_where, any_weaken}
use easy_deploy.Run.Types.{TaskStatus}
use easy_deploy.Task.Types.{OperationTask, TaskLog, TaskDb, LogStream}
use easy_deploy.Task.Names.{normalize_task_phase, normalize_log_stream, is_one_of, task_phases}
use easy_deploy.Task.Service.{
  task_is, is_queued_task, is_cancelable, start_task, mark_running, cancel_task, cancel_queued,
  holds_task, raw_status, append_log, insert_log, log_of, not_started,
}

abbrev pub is_ok {ℓ} : {A E : Type ℓ} → Result A E → Bool
is_ok (ok _) = true
is_ok (err _) = false

pub append_log-ok :
    (missing : String) (task_id : ℕ) (stream : String) {s : LogStream} (content : String)
    (db : TaskDb)
    → normalize_log_stream stream ≡ ok s
    → is_ok (append_log missing task_id stream content db) ≡ any (task_is task_id) db.tasks
unfolding append_log insert_log
append_log-ok missing task_id stream content db n =
    elim (Bool-cases (any (task_is task_id) db.tasks)) [
      | inl e ↦ rw (n, e) refl
      | inr e ↦ rw (n, e) refl
    ]

pub insert_log-rows :
    (missing : String) (log : TaskLog) (db db' : TaskDb)
    → insert_log missing log db ≡ ok db'
    → (db'.tasks ≡ db.tasks) × (db'.phases ≡ db.phases)
unfolding insert_log
insert_log-rows missing log db db' e = elim (Bool-cases (any (task_is log.task_id) db.tasks)) [
  | inl a ↦ (ground (arith, rw (insert_log, a) at e), ground (arith, rw (insert_log, a) at e))
  | inr a ↦ absurd (ground (arith, rw (insert_log, a) at e))
]

pub append_log-rows :
    (missing : String) (task_id : ℕ) (stream content : String) (db db' : TaskDb)
    → append_log missing task_id stream content db ≡ ok db'
    → (db'.tasks ≡ db.tasks) × (db'.phases ≡ db.phases)
unfolding append_log
append_log-rows missing task_id stream content db db' e =
    let (s, _, inserted) =
      >>=-eq-ok (normalize_log_stream stream)
        (λ s. insert_log missing (log_of task_id none s content) db) e in
    insert_log-rows missing (log_of task_id none s content) db db' inserted

pub cancel_queued-ok :
    (missing : String) (now task_id : ℕ) (actor : String) (db : TaskDb)
    → is_ok (cancel_queued missing now task_id actor db) ≡ any (is_cancelable db task_id) db.tasks
unfolding cancel_queued cancel_task normalize_log_stream
cancel_queued-ok missing now task_id actor db =
    elim (Bool-cases (any (is_cancelable db task_id) db.tasks)) [
      | inl e ↦ rw e (
          append_log-ok missing task_id "system" _ _ refl
          ∙ any-update_where (task_is task_id) (is_cancelable db task_id) (cancel_task now _)
              (λ t. refl) db.tasks
          ∙ any_weaken _ (task_is task_id) (λ t h. ground (arith, h)) db.tasks e)
      | inr e ↦ elim (Bool-cases (any (holds_task task_id) db.runs)) [
        | inl a ↦ rw (e, a) refl
        | inr a ↦ elim (Result-cases (raw_status task_id db)) [
          | inl (s, b) ↦ rw (e, a, b) refl
          | inr (x, b) ↦ rw (e, a, b) refl
        ]
      ]
    ]

pub normalize_same :
    (phase normal : String) → normalize_task_phase phase ≡ ok normal → normal ≡ phase
unfolding normalize_task_phase
normalize_same phase normal e = elim (Bool-cases (is_one_of task_phases phase)) [
  | inl q ↦ ground (arith, rw q at e)
  | inr q ↦ absurd (ground (arith, rw q at e))
]

not_started-false :
    (db db' : TaskDb) (status : TaskStatus)
    → ¬ (not_started status (ok (false, db)) ≡ ok (true, db'))
not_started-false db db' TaskStatus.queued = λ e. ground (arith, e)
not_started-false db db' TaskStatus.running = λ e. ground (arith, e)
not_started-false db db' TaskStatus.success = λ e. ground (arith, e)
not_started-false db db' TaskStatus.failed = λ e. ground (arith, e)
not_started-false db db' TaskStatus.canceled = λ e. ground (arith, e)

pub mark_running-rows :
    (missing : String) (now task_id : ℕ) (command phase : String) (db db' : TaskDb)
    → mark_running missing now task_id command phase db ≡ ok (true, db')
    → (any (is_queued_task task_id) db.tasks ≡ true)
      × (db'.tasks ≡ update_where (is_queued_task task_id) (start_task now phase command) db.tasks)
unfolding mark_running
mark_running-rows missing now task_id command phase db db' e =
    elim (Result-cases (normalize_task_phase phase)) [
      | inr (x, n) ↦ absurd (ground (arith, rw (mark_running, n) at e))
      | inl (p, n) ↦
          let e₁ = rw (mark_running, n) at e in
          let same : p ≡ phase = normalize_same phase p n in
          elim (Bool-cases (any (is_queued_task task_id) db.tasks)) [
            | inl q ↦
                let start = record db {
                  tasks = update_where (is_queued_task task_id) (start_task now p command) db.tasks;
                } in
                let text = text_append "开始执行: " command in
                elim (Result-cases (append_log missing task_id "system" text start)) [
                  | inl (d, a) ↦
                      let last : d ≡ db' = ground (arith, rw (q, a) at e₁) in
                      let (rows, _) = append_log-rows missing task_id "system" text start d a in
                      (
                        q,
                        sym (ap (λ d. d.tasks) last)
                            ∙ rows
                            ∙ ap
                                (λ r.
                                  update_where (is_queued_task task_id) (start_task now r command)
                                    db.tasks)
                                same,
                      )
                  | inr (x, a) ↦ absurd (ground (arith, rw (q, a) at e₁))
                ]
            | inr q ↦ elim (Result-cases (raw_status task_id db)) [
              | inl (status, r) ↦ absurd (not_started-false db db' status (rw (q, r) at e₁))
              | inr (x, r) ↦ absurd (ground (arith, rw (q, r) at e₁))
            ]
          ]
    ]

started_none :
    (now task_id : ℕ) (command phase : String) (tasks : List OperationTask)
    → any
        (is_queued_task task_id)
        (update_where (is_queued_task task_id) (start_task now phase command) tasks)
      ≡ false
unfolding any update_where start_task
started_none now task_id command phase [] = refl
started_none now task_id command phase (task ∷ tasks) =
    let rest = started_none now task_id command phase tasks in
    elim (Bool-cases (is_queued_task task_id task)) [
      | inl e ↦ rw (e, rest) (ground (arith, e))
      | inr e ↦ rw (e, rest) (ground (arith, e))
    ]

-- Once a task was started, no later call starts it again, as long as nothing else happens.
pub mark_running-once :
    (missing : String) (now later task_id : ℕ) (command phase command' phase' : String)
    (db db' db'' : TaskDb)
    → mark_running missing now task_id command phase db ≡ ok (true, db')
    → ¬ (mark_running missing later task_id command' phase' db' ≡ ok (true, db''))
mark_running-once missing now later task_id command phase command' phase' db db' db'' e = λ again.
    let (_, rows) = mark_running-rows missing now task_id command phase db db' e in
    let (queued, _) = mark_running-rows missing later task_id command' phase' db' db'' again in
    let none_left =
      ap (any (is_queued_task task_id)) rows ∙ started_none now task_id command phase db.tasks in
    ground (arith, queued, none_left)
