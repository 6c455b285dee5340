-- ===== src/Task/Cancellation.antt =====
-- What `cancel_queued` does to the table of tasks (api/src/tasks.rs).
use Prim.Native.String.{◌++◌ as text_append}
use easy_deploy.Prelude.{
  ℕ, String, some, List, [], ◌∷◌, Bool, true, false, All, any, ◌≡◌, ◌⊎◌, inl, inr, refl, sym, ap,
  subst, ◌∙◌, arith, Bool-cases, Result-cases, Option-cases, ok, err,
}
use easy_deploy.Prelude.Table.{update_where}
use easy_deploy.Prelude.Searches.{any-All_not, All_not-any}
use easy_deploy.Prelude.Pairwise.{Pairwise, Pairwise-update_where}
use easy_deploy.Run.Types.{RunStatus, TaskStatus, RunRow}
use easy_deploy.Run.Status.Runs
use easy_deploy.Task.Types.{TaskError, OperationTask, TaskDb}
use easy_deploy.Task.Service.{
  task_is, is_queued_task, is_queued, is_cancelable, cancel_task, cancel_queued, holds_task,
}
use easy_deploy.Task.Lifecycle.{is_ok, cancel_queued-ok, append_log-rows}

abbrev pub Exists : {A : Type 0} → (A → Type 0) → List A → Type 0
Exists P [] = ⊥
Exists P (x ∷ xs) = P x ⊎ Exists P xs

pub record Waits (task_id : ℕ) (task : OperationTask) : Type 0 where
  pub id : task.id ≡ task_id
  pub status : task.status ≡ TaskStatus.queued

-- An unfinished run of an environment executes the task.
pub record Holds (task_id : ℕ) (run : RunRow) : Type 0 where
  pub task : run.task_id ≡ some task_id
  pub status :
      (run.status ≡ RunStatus.queued)
      ⊎ ((run.status ≡ RunStatus.running) ⊎ (run.status ≡ RunStatus.reconciling))

-- The task may be canceled.
pub record IsFree (task_id : ℕ) (db : TaskDb) : Type 0 where
  pub waits : Exists (Waits task_id) db.tasks
  pub unheld : All (λ run. ¬ Holds task_id run) db.runs

-- A row before and after: the task is canceled if it waited, and any other task is the same.
pub record Canceled (now task_id : ℕ) (before after : OperationTask) : Type 0 where
  pub canceled :
      Waits task_id before
      → (after.status ≡ TaskStatus.canceled)
        × (after.phase ≡ "canceled")
        × (after.finished_at ≡ some now)
  pub same_id : after.id ≡ before.id
  pub others : ¬ Waits task_id before → after ≡ before

queued_status : (s : TaskStatus) → is_queued s ≡ true → s ≡ TaskStatus.queued
queued_status s h = ground (arith, h)

is_queued_task-Waits :
    (task_id : ℕ) (task : OperationTask) → is_queued_task task_id task ≡ true → Waits task_id task
is_queued_task-Waits task_id task h = record {
  id = ground (arith, h);
  status = queued_status task.status (ground (arith, h));
}

Waits-is_queued_task :
    (task_id : ℕ) (task : OperationTask) → Waits task_id task → is_queued_task task_id task ≡ true
Waits-is_queued_task task_id task w = rw w.status (ground (arith, w.id))

holding_status :
    (s : RunStatus)
    → Runs.is_active s ≡ true
    → (s ≡ RunStatus.queued) ⊎ ((s ≡ RunStatus.running) ⊎ (s ≡ RunStatus.reconciling))
holding_status RunStatus.queued h = inl refl
holding_status RunStatus.running h = inr (inl refl)
holding_status RunStatus.reconciling h = inr (inr refl)
holding_status RunStatus.success h = cc
holding_status RunStatus.partial_failed h = cc
holding_status RunStatus.all_failed h = cc
holding_status RunStatus.canceled h = cc

Holds-holds_task : (task_id : ℕ) (run : RunRow) → Holds task_id run → holds_task task_id run ≡ true
Holds-holds_task task_id run h = elim h.status [
  | inl e ↦ rw (h.task, e) (ground arith)
  | inr (inl e) ↦ rw (h.task, e) (ground arith)
  | inr (inr e) ↦ rw (h.task, e) (ground arith)
]

any-Exists :
    {A : Type 0} (P : A → Type 0) (p : A → Bool)
    → ((x : A) → p x ≡ true → P x)
    → (xs : List A) → any p xs ≡ true
    → Exists P xs
unfolding any
any-Exists P p f [] h = cc
any-Exists P p f (x ∷ xs) h = elim (Bool-cases (p x)) [
  | inl e ↦ inl (f x e)
  | inr e ↦ inr (any-Exists P p f xs (ground (arith, e, h)))
]

Exists-any :
    {A : Type 0} (P : A → Type 0) (p : A → Bool)
    → ((x : A) → P x → p x ≡ true)
    → (xs : List A) → Exists P xs
    → any p xs ≡ true
unfolding any
Exists-any P p f [] h = absurd h
Exists-any P p f (x ∷ xs) (inl h) = rw (f x h) refl
Exists-any P p f (x ∷ xs) (inr h) = ground (arith, Exists-any P p f xs h)

any_never : {A : Type 0} (p : A → Bool) → ((x : A) → p x ≡ false) → (xs : List A) → any p xs ≡ false
unfolding any
any_never p h [] = refl
any_never p h (x ∷ xs) = rw (h x) (any_never p h xs)

holds_task-Holds : (task_id : ℕ) (run : RunRow) → holds_task task_id run ≡ true → Holds task_id run
holds_task-Holds task_id run h = elim (Option-cases run.task_id) [
  | inl e ↦ absurd (ground (arith, rw e at h))
  | inr (id, e) ↦
      let same : id ≡ task_id = ground (arith, rw e at h) in
      record {
        task = e ∙ ap (λ n. some n) same;
        status = holding_status run.status (ground (arith, h));
      }
]

module _ (task_id : ℕ) (db : TaskDb) where
  -- Where a run holds the task, the statement of the cancellation finds no row.
  held_none :
      any (holds_task task_id) db.runs ≡ true
      → (task : OperationTask) → is_cancelable db task_id task ≡ false
  held_none held task = elim (Bool-cases (task_is task_id task)) [
    | inl e ↦ let same : task.id ≡ task_id = ground (arith, e) in rw same (ground (arith, held))
    | inr e ↦ ground (arith, e)
  ]

  free_waiting :
      any (holds_task task_id) db.runs ≡ false
      → (task : OperationTask) → Waits task_id task
      → is_cancelable db task_id task ≡ true
  free_waiting unheld task w =
      let waiting = Waits-is_queued_task task_id task w in
      rw w.id (ground (arith, rw w.id at waiting, unheld))

  cancelable-IsFree : any (is_cancelable db task_id) db.tasks ≡ true → IsFree task_id db
  cancelable-IsFree e = elim (Bool-cases (any (holds_task task_id) db.runs)) [
    | inl held ↦
        absurd (ground (arith, e, any_never (is_cancelable db task_id) (held_none held) db.tasks))
    | inr unheld ↦ record {
      waits =
          any-Exists (Waits task_id) (is_cancelable db task_id)
            (λ task h. is_queued_task-Waits task_id task (ground (arith, h))) db.tasks e;
      unheld =
          any-All_not (Holds task_id) (holds_task task_id) (Holds-holds_task task_id) db.runs
            unheld;
    }
  ]

  unheld_of : All (λ run. ¬ Holds task_id run) db.runs → any (holds_task task_id) db.runs ≡ false
  unheld_of free =
      All_not-any (Holds task_id) (holds_task task_id) (holds_task-Holds task_id) db.runs free

  IsFree-cancelable : IsFree task_id db → any (is_cancelable db task_id) db.tasks ≡ true
  IsFree-cancelable free =
      Exists-any (Waits task_id) (is_cancelable db task_id) (free_waiting (unheld_of free.unheld))
        db.tasks free.waits

  cancel_task-Canceled :
      (now : ℕ) (message : String)
      → IsFree task_id db
      → Pairwise
          (Canceled now task_id)
          db.tasks
          (update_where (is_cancelable db task_id) (cancel_task now message) db.tasks)
  unfolding cancel_task
  cancel_task-Canceled now message free =
      Pairwise-update_where (Canceled now task_id) (is_cancelable db task_id)
        (cancel_task now message)
        (λ task h. record {
          canceled = λ _. (refl, refl, refl);
          same_id = refl;
          others = λ n. absurd (n (is_queued_task-Waits task_id task (ground (arith, h))));
        })
        (λ task h. record {
          canceled = λ w. absurd (ground (arith, h, free_waiting (unheld_of free.unheld) task w));
          same_id = refl;
          others = λ _. refl;
        })
        db.tasks

  cancel_queued-rows :
      (missing : String) (now : ℕ) (actor : String) (db' : TaskDb)
      → IsFree task_id db
      → cancel_queued missing now task_id actor db ≡ ok db'
      → Pairwise (Canceled now task_id) db.tasks db'.tasks
  unfolding cancel_queued
  cancel_queued-rows missing now actor db' free e =
      let message = text_append actor " 取消了排队任务" in
      let marked = record db {
        tasks = update_where (is_cancelable db task_id) (cancel_task now message) db.tasks;
      } in
      let (rows, _) =
        append_log-rows missing task_id "system" message marked db'
          (rw (cancel_queued, IsFree-cancelable free) at e) in
      subst (Pairwise (Canceled now task_id) db.tasks) (sym rows)
        (cancel_task-Canceled now message free)

-- A task that waits, and that no queued, running or reconciling run of an environment holds, is
-- canceled, which changes no other task; in every other case the call fails.
pub cancel_queued-Canceled :
    (missing : String) (now task_id : ℕ) (actor : String) (db : TaskDb)
    → (IsFree task_id db
        × ((db' : TaskDb) × (cancel_queued missing now task_id actor db ≡ ok db')
            × Pairwise (Canceled now task_id) db.tasks db'.tasks))
      ⊎ ((¬ IsFree task_id db)
          × ((failure : TaskError) × (cancel_queued missing now task_id actor db ≡ err failure)))
cancel_queued-Canceled missing now task_id actor db =
    let succeeds = cancel_queued-ok missing now task_id actor db in
    elim (Result-cases (cancel_queued missing now task_id actor db)) [
      | inl (db', e) ↦
          let free = cancelable-IsFree task_id db (sym succeeds ∙ ap is_ok e) in
          inl (free, (db', e, cancel_queued-rows task_id db missing now actor db' free e))
      | inr (failure, e) ↦
          inr
            ((λ free. ground (arith, succeeds, e, IsFree-cancelable task_id db free)), (failure, e))
    ]
