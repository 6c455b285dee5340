-- ===== src/Task/Current.antt =====
-- The phase that a task is in (api/src/tasks.rs, `update_phase`, `start_phase`).
use Prim.Native.String.{◌++◌ as text_append}
use easy_deploy.Prelude.{
  ℕ, String, List, [], ◌∷◌, true, ◌&&◌, ◌+◌, any, All, All-append, ==_refl, str_eq, ◌≡◌, refl,
  subst, arith, eq_iff, Bool-cases, Result-cases, inl, inr, ok,
}
use easy_deploy.Prelude.Table.{update_where, All-update_where, All-update_where_plain}
use easy_deploy.Prelude.Searches.{any_last}
use easy_deploy.Run.Types.{StepStatus}
use easy_deploy.Task.Types.{TaskPhase, TaskDb}
use easy_deploy.Task.Names.{normalize_task_phase, task_phase_title}
use easy_deploy.Task.Service.{runs_now}
use easy_deploy.Task.Finish.{is_open_phase, close_phase}
use easy_deploy.Task.Lifecycle.{normalize_same}
use easy_deploy.Task.Phases.{
  has_key, is_other_open, reopen_phase, new_phase, last_phase_no, insert_phase, enter_phase,
  is_running_task, set_phase, update_phase,
}

-- The task runs the phase of the key and no other.
pub record IsIn (task_id : ℕ) (key : String) (phases : List TaskPhase) : Type 0 where
  pub some_runs : any (λ p. has_key task_id key p && runs_now p.status) phases ≡ true
  pub only : All (λ p. is_open_phase task_id p ≡ true → str_eq p.phase_key key ≡ true) phases

abbrev Keyed : ℕ → String → TaskPhase → Type 0
Keyed task_id key p = is_open_phase task_id p ≡ true → str_eq p.phase_key key ≡ true

str_eq_self : (a : String) → str_eq a a ≡ true
str_eq_self a = ground (arith, eq_iff a a)

closed-Keyed :
    (now task_id : ℕ) (key : String) (phases : List TaskPhase)
    → All
        (Keyed task_id key)
        (update_where (is_other_open task_id key) (close_phase now StepStatus.success) phases)
unfolding close_phase
closed-Keyed now task_id key phases =
    All-update_where_plain (Keyed task_id key) (is_other_open task_id key)
      (close_phase now StepStatus.success) (λ p _ runs. absurd (ground (arith, runs)))
      (λ p stays runs. ground (arith, stays, runs)) phases

reopened :
    (now task_id : ℕ) (key title : String) (phases : List TaskPhase)
    → any (has_key task_id key) phases ≡ true
    → any
        (λ p. has_key task_id key p && runs_now p.status)
        (update_where (has_key task_id key) (reopen_phase now title) phases)
      ≡ true
unfolding any update_where reopen_phase
reopened now task_id key title [] h = cc
reopened now task_id key title (p ∷ phases) h = elim (Bool-cases (has_key task_id key p)) [
  | inl e ↦ rw e (ground (arith, e))
  | inr e ↦ rw e (ground (arith, reopened now task_id key title phases (rw e at h)))
]

reopened-Keyed :
    (now task_id : ℕ) (key title : String) (phases : List TaskPhase)
    → All (Keyed task_id key) phases
    → All (Keyed task_id key) (update_where (has_key task_id key) (reopen_phase now title) phases)
unfolding reopen_phase
reopened-Keyed now task_id key title phases h =
    All-update_where (Keyed task_id key) (Keyed task_id key) (has_key task_id key)
      (reopen_phase now title) (λ p own _ _. ground (arith, own)) (λ p _ k. k) phases h

enter_phase-IsIn :
    (now task_id : ℕ) (key : String) (db : TaskDb)
    → IsIn task_id key (enter_phase now task_id key db).phases
unfolding enter_phase insert_phase new_phase
enter_phase-IsIn now task_id key db =
    let closed =
      update_where (is_other_open task_id key) (close_phase now StepStatus.success) db.phases in
    let keyed = closed-Keyed now task_id key db.phases in
    let key_phase =
      new_phase now db.next_phase_id task_id (last_phase_no task_id closed + 1) key
        (task_phase_title key) in
    elim (Bool-cases (any (has_key task_id key) closed)) [
      | inl e ↦
          rw (enter_phase, e)
            (record {
              some_runs = reopened now task_id key (task_phase_title key) closed e;
              only = reopened-Keyed now task_id key (task_phase_title key) closed keyed;
            })
      | inr e ↦
          rw (enter_phase, e)
            (record {
              some_runs =
                  any_last _ closed key_phase
                    (rw (new_phase, ==_refl task_id, str_eq_self key) refl);
              only =
                  All-append (Keyed task_id key) closed (key_phase ∷ []) keyed
                    ((λ _. str_eq_self key), tt);
            })
    ]

-- Moving a running task to a phase leaves it with that phase running, once or more, and with no
-- other phase running, whatever phases ran before.
pub update_phase-IsIn :
    (now task_id : ℕ) (phase : String) (db db' : TaskDb)
    → any (is_running_task task_id) db.tasks ≡ true
    → update_phase now task_id phase db ≡ ok db'
    → IsIn task_id phase db'.phases
unfolding update_phase
update_phase-IsIn now task_id phase db db' running e =
    elim (Result-cases (normalize_task_phase phase)) [
      | inr (x, n) ↦ absurd (ground (arith, rw (update_phase, n) at e))
      | inl (p, n) ↦
          let moved = record db {
            tasks = update_where (is_running_task task_id) (set_phase now p) db.tasks;
          } in
          let same : enter_phase now task_id p moved ≡ db' =
            ground (arith, rw (update_phase, n, running) at e) in
          subst (λ d. IsIn task_id phase d.phases) same
            (subst (λ key. IsIn task_id key (enter_phase now task_id p moved).phases)
              (normalize_same phase p n) (enter_phase-IsIn now task_id p moved))
    ]
