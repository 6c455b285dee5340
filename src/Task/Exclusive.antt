-- ===== src/Task/Exclusive.antt =====
-- No application has two open deploying tasks at once (api/src/tasks.rs, `create_task`, and the trigger
-- `trg_operation_tasks_reject_active_deploy_environment` of its table).
use easy_deploy.Prelude.{
  ℕ, String, List, [], ◌∷◌, ◌++◌, Bool, true, false, ◌+◌, ◌≤◌, any, count, ◌≡◌, refl, subst, arith,
  Bool-cases, Option-cases, inl, inr, ok, if◌then◌else◌,
}
use easy_deploy.Prelude.Table.{update_where}
use easy_deploy.Task.Types.{TaskDb, CreateTaskInput}
use easy_deploy.Task.Service.{
  guards_app, trigger_refuses, new_task, create_task, mark_running, cancel_queued,
}
use easy_deploy.Task.Phases.{update_phase}
use easy_deploy.Task.Endings.{Ending, end_by}
use easy_deploy.Task.Shrinks.{
  Shrinks, mark_running-Shrinks, update_phase-Shrinks, cancel_queued-Shrinks, end_by-Shrinks,
}

abbrev pub IsExclusive : TaskDb → Type 0
IsExclusive db = (app_id : ℕ) → count (guards_app app_id) db.tasks ≤ 1

-- A call that writes `operation_tasks`, and succeeds.
pub data Move (missing : String) (db : TaskDb) : TaskDb → Type 0 where
  creates :
      {db' : TaskDb} (now : ℕ) (input : CreateTaskInput) (id : ℕ)
      → create_task now input db ≡ ok (id, db')
      → Move missing db db'
  starts :
      {db' : TaskDb} (now task_id : ℕ) (command phase : String)
      → mark_running missing now task_id command phase db ≡ ok (true, db')
      → Move missing db db'
  enters :
      {db' : TaskDb} (now task_id : ℕ) (phase : String)
      → update_phase now task_id phase db ≡ ok db'
      → Move missing db db'
  cancels :
      {db' : TaskDb} (now task_id : ℕ) (actor : String)
      → cancel_queued missing now task_id actor db ≡ ok db'
      → Move missing db db'
  ends :
      {db' : TaskDb} (now task_id : ℕ) (ending : Ending)
      → end_by missing now task_id ending db ≡ ok db'
      → Move missing db db'

pub data Moves (missing : String) (db : TaskDb) : TaskDb → Type 0 where
  begin : Moves missing db db
  further :
      {before db' : TaskDb}
      → Moves missing db before
      → Move missing before db'
      → Moves missing db db'

count-update_where_le {ℓ} :
    {A : Type ℓ} (q p : A → Bool) (f : A → A)
    → ((x : A) → p x ≡ true → q (f x) ≡ true → q x ≡ true)
    → (xs : List A) → count q (update_where p f xs) ≤ count q xs
unfolding count update_where
count-update_where_le q p f h [] = omega arith
count-update_where_le q p f h (x ∷ xs) =
    let rest = count-update_where_le q p f h xs in
    elim (Bool-cases (p x)) [
      | inr e ↦ rw e (ground (arith, rest))
      | inl e ↦ rw e (elim (Bool-cases (q (f x))) [
        | inl y ↦ rw (y, h x e y) (omega (arith, rest))
        | inr n ↦ rw n (elim (Bool-cases (q x)) [
          | inl y ↦ rw y (omega (arith, rest))
          | inr m ↦ rw m (omega (arith, rest))
        ])
      ])
    ]

count_last {ℓ} :
    {A : Type ℓ} (q : A → Bool) (xs : List A) (y : A)
    → count q (xs ++ y ∷ []) ≡ count q xs + (if q y then 1 else 0)
unfolding count
count_last q [] y = omega arith
count_last q (x ∷ xs) y = omega (arith, count_last q xs y)

count_absent {ℓ} : {A : Type ℓ} (q : A → Bool) (xs : List A) → any q xs ≡ false → count q xs ≡ 0
unfolding count any
count_absent q [] h = refl
count_absent q (x ∷ xs) h = ground (arith, count_absent q xs)

Shrinks-IsExclusive :
    (before after : TaskDb) → Shrinks before after → IsExclusive before → IsExclusive after
Shrinks-IsExclusive before after s h = λ app_id.
    let fewer =
      count-update_where_le (guards_app app_id) s.select s.change (s.opens_none app_id)
        before.tasks in
    rw s.rows (omega (arith, fewer, h app_id))

let_through :
    (now id app_id : ℕ) (input : CreateTaskInput) (db : TaskDb)
    → trigger_refuses input db ≡ false
    → guards_app app_id (new_task now id input) ≡ true
    → any (guards_app app_id) db.tasks ≡ false
unfolding trigger_refuses new_task
let_through now id app_id input db passes guarded = elim (Option-cases input.app_id) [
  | inl e ↦ absurd (ground (arith, e, guarded))
  | inr (own, e) ↦
      let same : own ≡ app_id = ground (arith, rw (new_task, e) at guarded) in
      let passed = rw (trigger_refuses, e) at passes in
      subst (λ a. any (guards_app a) db.tasks ≡ false) same (ground (arith, passed, guarded))
]

create_task-IsExclusive :
    (now : ℕ) (input : CreateTaskInput) (id : ℕ) (db db' : TaskDb)
    → create_task now input db ≡ ok (id, db')
    → IsExclusive db
    → IsExclusive db'
unfolding create_task
create_task-IsExclusive now input id db db' e h = λ app_id.
    elim (Bool-cases (trigger_refuses input db)) [
      | inl r ↦ absurd (ground (arith, rw (create_task, r) at e))
      | inr r ↦
          let new = new_task now db.next_task_id input in
          let rows : db'.tasks ≡ db.tasks ++ new ∷ [] = ground (arith, rw (create_task, r) at e) in
          let counted = count_last (guards_app app_id) db.tasks new in
          rw rows (elim (Bool-cases (guards_app app_id new)) [
            | inl g ↦
                let absent =
                  count_absent (guards_app app_id) db.tasks
                    (let_through now db.next_task_id app_id input db r g) in
                omega (arith, rw g at counted, absent)
            | inr g ↦ omega (arith, rw g at counted, h app_id)
          ])
    ]

Move-IsExclusive :
    (missing : String) (db db' : TaskDb) → Move missing db db' → IsExclusive db → IsExclusive db'
Move-IsExclusive missing db db' (creates now input id e) h =
    create_task-IsExclusive now input id db db' e h
Move-IsExclusive missing db db' (starts now task_id command phase e) h =
    Shrinks-IsExclusive db db' (mark_running-Shrinks missing now task_id command phase db db' e) h
Move-IsExclusive missing db db' (enters now task_id phase e) h =
    Shrinks-IsExclusive db db' (update_phase-Shrinks now task_id phase db db' e) h
Move-IsExclusive missing db db' (cancels now task_id actor e) h =
    Shrinks-IsExclusive db db' (cancel_queued-Shrinks missing now task_id actor db db' e) h
Move-IsExclusive missing db db' (ends now task_id ending e) h =
    Shrinks-IsExclusive db db' (end_by-Shrinks missing now task_id ending db db' e) h

-- However tasks are created, started, moved to a phase, canceled and ended, no application has more
-- than one queued or running task of a guarded kind outside of its environments, if none has at first.
pub Moves-IsExclusive :
    (missing : String) {db db' : TaskDb} → Moves missing db db' → IsExclusive db → IsExclusive db'
Moves-IsExclusive missing begin h = h
Moves-IsExclusive missing (further {before} {db'} moves move) h =
    Move-IsExclusive missing before db' move (Moves-IsExclusive missing moves h)
