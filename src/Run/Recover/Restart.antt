-- ===== src/Run/Recover/Restart.antt =====
-- What a restart leaves (api/src/deployment_orchestrator.rs, `reconcile_interrupted_runs`).
use easy_deploy.Prelude.{
  ℕ, List, [], ◌∷◌, Bool, true, false, not, ◌||◌, contains, keep, map, All, All-imp, ◌≡◌, refl,
  subst, arith, Bool-cases, inl, inr, ◌⊎◌, ◌≢◌, sym, ap, ◌∙◌,
}
use easy_deploy.Prelude.Table.{All-update_where}
use easy_deploy.Prelude.Pairwise.{
  Pairwise, Pairwise-update_where, Pairwise-refl, Pairwise-trans, Pairwise-All,
}
use easy_deploy.Run.Types.{RunStatus, RunRow, Db}
use easy_deploy.Run.Status.Runs
use easy_deploy.Run.Cancel.{cancel_queued_run}
use easy_deploy.Run.Recover.{
  cancel_queued, park_run, park_running, for_each, run_ids_with, reconcile_interrupted_runs,
}

-- A run that passes the test is among those that the loop has still to visit.
abbrev Awaited : (RunStatus → Bool) → List ℕ → RunRow → Type 0
Awaited test ids run = (not (test run.status) || contains run.id ids) ≡ true

Awaited-cons :
    (test : RunStatus → Bool) (id : ℕ) (ids : List ℕ) (run : RunRow)
    → Awaited test ids run
    → Awaited test (id ∷ ids) run
unfolding contains
Awaited-cons test id ids run h = ground arith

keep-selected :
    (test : RunStatus → Bool) (run : RunRow) (runs : List RunRow)
    → test run.status ≡ true
    → run ∷ keep (λ r. test r.status) runs ≡ keep (λ r. test r.status) (run ∷ runs)
unfolding keep
keep-selected test run runs e = rw e refl

keep-other :
    (test : RunStatus → Bool) (run : RunRow) (runs : List RunRow)
    → test run.status ≡ false
    → keep (λ r. test r.status) runs ≡ keep (λ r. test r.status) (run ∷ runs)
unfolding keep
keep-other test run runs e = rw e refl

-- The loop starts with all of them.
Awaited-run_ids_with :
    (test : RunStatus → Bool) (runs : List RunRow)
    → All (Awaited test (map (λ run. run.id) (keep (λ run. test run.status) runs))) runs
unfolding contains
Awaited-run_ids_with test [] = tt
Awaited-run_ids_with test (run ∷ runs) =
    let ids = map (λ (r : RunRow). r.id) (keep (λ r. test r.status) runs) in
    let rest = Awaited-run_ids_with test runs in
    let visits =
      λ (kept : List RunRow). All (Awaited test (map (λ (r : RunRow). r.id) kept)) (run ∷ runs) in
    elim (Bool-cases (test run.status)) [
      | inl e ↦ subst visits (keep-selected test run runs e) (
        ground arith,
        All-imp (Awaited test ids) (Awaited test (run.id ∷ ids)) (Awaited-cons test run.id ids) runs
            rest,
      )
      | inr e ↦ subst visits (keep-other test run runs e) (ground arith, rest)
    ]

-- A loop whose body takes care of the run that it visits leaves none.
for_each-Awaited :
    (test : RunStatus → Bool) (body : ℕ → Db → Db)
    → ((id : ℕ) (ids : List ℕ) (db : Db)
        → All (Awaited test (id ∷ ids)) db.runs
        → All (Awaited test ids) (body id db).runs)
    → (ids : List ℕ) (db : Db) → All (Awaited test ids) db.runs
    → All (Awaited test []) (for_each body ids db).runs
unfolding for_each
for_each-Awaited test body visits [] db h = h
for_each-Awaited test body visits (id ∷ ids) db h =
    for_each-Awaited test body visits ids (body id db) (visits id ids db h)

for_each-All :
    (P : RunRow → Type 0) (body : ℕ → Db → Db)
    → ((id : ℕ) (db : Db) → All P db.runs → All P (body id db).runs)
    → (ids : List ℕ) (db : Db) → All P db.runs
    → All P (for_each body ids db).runs
unfolding for_each
for_each-All P body keeps [] db h = h
for_each-All P body keeps (id ∷ ids) db h =
    for_each-All P body keeps ids (body id db) (keeps id db h)

cancel_queued-Awaited :
    (now id : ℕ) (ids : List ℕ) (db : Db)
    → All (Awaited Runs.is_queued (id ∷ ids)) db.runs
    → All (Awaited Runs.is_queued ids) (cancel_queued now id db).runs
unfolding cancel_queued cancel_queued_run contains
cancel_queued-Awaited now id ids db =
    All-update_where (Awaited Runs.is_queued (id ∷ ids)) (Awaited Runs.is_queued ids) _ _
      (λ run p h. refl) (λ run p h. ground arith) db.runs

park_running-Awaited :
    (now id : ℕ) (ids : List ℕ) (db : Db)
    → All (Awaited Runs.is_running (id ∷ ids)) db.runs
    → All (Awaited Runs.is_running ids) (park_running now id db).runs
unfolding park_running park_run contains
park_running-Awaited now id ids db =
    All-update_where (Awaited Runs.is_running (id ∷ ids)) (Awaited Runs.is_running ids) _ _
      (λ run p h. refl) (λ run p h. ground arith) db.runs

park_running-queued :
    (now id : ℕ) (db : Db)
    → All (Awaited Runs.is_queued []) db.runs
    → All (Awaited Runs.is_queued []) (park_running now id db).runs
unfolding park_running park_run contains
park_running-queued now id db =
    All-update_where (Awaited Runs.is_queued []) (Awaited Runs.is_queued []) _ _ (λ run p h. refl)
      (λ run p h. h) db.runs

All-both :
    (runs : List RunRow)
    → All (Awaited Runs.is_queued []) runs
    → All (Awaited Runs.is_running []) runs
    → All (λ run. Runs.is_cancelable run.status ≡ false) runs
unfolding contains
All-both [] p q = tt
All-both (run ∷ runs) p q = (ground (arith, p.0, q.0), All-both runs p.1 q.1)

queued_status : (s : RunStatus) → Runs.is_queued s ≡ true → s ≡ RunStatus.queued
queued_status s h = ground (arith, h)

running_status : (s : RunStatus) → Runs.is_running s ≡ true → s ≡ RunStatus.running
running_status s h = ground (arith, h)

open_status :
    (s : RunStatus)
    → (s ≡ RunStatus.queued) ⊎ (s ≡ RunStatus.running)
    → ¬ (Runs.is_cancelable s ≡ false)
open_status s (inl e) = λ over. ground (arith, rw e at over)
open_status s (inr e) = λ over. ground (arith, rw e at over)

-- The rows of runs as a loop leaves them: each is the same, or went from one status to another.
abbrev Turned : RunStatus → RunStatus → RunRow → RunRow → Type 0
Turned from to run run' =
    (run' ≡ run) ⊎ ((run.status ≡ from) × (run'.status ≡ to) × (run'.id ≡ run.id))

Turned-trans :
    (from to : RunStatus)
    → from ≢ to
    → (a b c : RunRow) → Turned from to a b
    → Turned from to b c
    → Turned from to a c
Turned-trans from to apart a b c (inl e) (inl f) = inl (f ∙ e)
Turned-trans from to apart a b c (inl e) (inr g) =
    inr (sym (ap (λ r. r.status) e) ∙ g.0, g.1, g.2 ∙ ap (λ r. r.id) e)
Turned-trans from to apart a b c (inr g) (inl f) =
    inr (g.0, ap (λ r. r.status) f ∙ g.1, ap (λ r. r.id) f ∙ g.2)
Turned-trans from to apart a b c (inr g) (inr h) = absurd (apart (sym h.0 ∙ g.1))

for_each-Turned :
    (from to : RunStatus) (body : ℕ → Db → Db)
    → from ≢ to
    → ((id : ℕ) (db : Db) → Pairwise (Turned from to) db.runs (body id db).runs)
    → (ids : List ℕ) (db : Db) → Pairwise (Turned from to) db.runs (for_each body ids db).runs
unfolding for_each
for_each-Turned from to body apart turns [] db = Pairwise-refl _ (λ run. inl refl) db.runs
for_each-Turned from to body apart turns (id ∷ ids) db =
    Pairwise-trans (Turned from to) (Turned from to) (Turned from to) (Turned-trans from to apart)
      db.runs (body id db).runs _ (turns id db)
      (for_each-Turned from to body apart turns ids (body id db))

cancel_queued-Turned :
    (now id : ℕ) (db : Db)
    → Pairwise (Turned RunStatus.queued RunStatus.canceled) db.runs (cancel_queued now id db).runs
unfolding cancel_queued cancel_queued_run
cancel_queued-Turned now id db =
    Pairwise-update_where _ _ _
      (λ run p. inr (queued_status run.status (ground (arith, p)), refl, refl)) (λ run p. inl refl)
      db.runs

park_running-Turned :
    (now id : ℕ) (db : Db)
    → Pairwise
        (Turned RunStatus.running RunStatus.reconciling)
        db.runs
        (park_running now id db).runs
unfolding park_running park_run
park_running-Turned now id db =
    Pairwise-update_where _ _ _
      (λ run p. inr (running_status run.status (ground (arith, p)), refl, refl)) (λ run p. inl refl)
      db.runs

-- What a restart makes of a run: one that waited is canceled, one that ran waits to be reconciled,
-- and any other stays as it was.
pub record Restarted (run run' : RunRow) : Type 0 where
  pub id : run'.id ≡ run.id
  pub waited : run.status ≡ RunStatus.queued → run'.status ≡ RunStatus.canceled
  pub ran : run.status ≡ RunStatus.running → run'.status ≡ RunStatus.reconciling
  pub other : run.status ≢ RunStatus.queued → run.status ≢ RunStatus.running → run' ≡ run

kept-Restarted :
    (run run' : RunRow) → run' ≡ run → Runs.is_cancelable run'.status ≡ false → Restarted run run'
kept-Restarted run run' e over = record {
  id = ap (λ r. r.id) e;
  waited = λ w. absurd (open_status run'.status (inl (ap (λ r. r.status) e ∙ w)) over);
  ran = λ w. absurd (open_status run'.status (inr (ap (λ r. r.status) e ∙ w)) over);
  other = λ _ _. e;
}

-- Both loops: the one over the waiting runs, and the one over the running ones.
abbrev TurnedBoth : RunRow → RunRow → Type 0
TurnedBoth run run' =
    Turned RunStatus.queued RunStatus.canceled run run'
    ⊎ Turned RunStatus.running RunStatus.reconciling run run'

Turned-TurnedBoth :
    (a b c : RunRow)
    → Turned RunStatus.queued RunStatus.canceled a b
    → Turned RunStatus.running RunStatus.reconciling b c
    → TurnedBoth a c
Turned-TurnedBoth a b c (inl e) (inl f) = inl (inl (f ∙ e))
Turned-TurnedBoth a b c (inl e) (inr g) =
    inr (inr (sym (ap (λ r. r.status) e) ∙ g.0, g.1, g.2 ∙ ap (λ r. r.id) e))
Turned-TurnedBoth a b c (inr g) (inl f) =
    inl (inr (g.0, ap (λ r. r.status) f ∙ g.1, ap (λ r. r.id) f ∙ g.2))
Turned-TurnedBoth a b c (inr g) (inr h) = absurd (ground (arith, sym g.1 ∙ h.0))

not_open-Restarted :
    (run run' : RunRow)
    → TurnedBoth run run'
    → Runs.is_cancelable run'.status ≡ false
    → Restarted run run'
not_open-Restarted run run' (inl (inl e)) over = kept-Restarted run run' e over
not_open-Restarted run run' (inr (inl e)) over = kept-Restarted run run' e over
not_open-Restarted run run' (inl (inr g)) over = record {
  id = g.2;
  waited = λ _. g.1;
  ran = λ e. absurd (ground (arith, sym e ∙ g.0));
  other = λ n _. absurd (n g.0);
}
not_open-Restarted run run' (inr (inr g)) over = record {
  id = g.2;
  waited = λ e. absurd (ground (arith, sym e ∙ g.0));
  ran = λ _. g.1;
  other = λ _ n. absurd (n g.0);
}

settled_runs :
    (now : ℕ) (db : Db)
    → All (λ run. Runs.is_cancelable run.status ≡ false) (reconcile_interrupted_runs now db).1.runs
unfolding reconcile_interrupted_runs run_ids_with
settled_runs now db =
    let db₁ = for_each (cancel_queued now) (run_ids_with Runs.is_queued db) db in
    let queued =
      for_each-Awaited Runs.is_queued (cancel_queued now) (cancel_queued-Awaited now)
        (run_ids_with Runs.is_queued db) db (Awaited-run_ids_with Runs.is_queued db.runs) in
    All-both _
      (for_each-All (Awaited Runs.is_queued []) (park_running now) (park_running-queued now)
        (run_ids_with Runs.is_running db₁) db₁ queued)
      (for_each-Awaited Runs.is_running (park_running now) (park_running-Awaited now)
        (run_ids_with Runs.is_running db₁) db₁ (Awaited-run_ids_with Runs.is_running db₁.runs))

-- A restart keeps each run at its place and cancels exactly those that waited, leaves exactly those
-- that ran to be reconciled, and changes no other.
pub reconcile_interrupted_runs-Restarted :
    (now : ℕ) (db : Db) → Pairwise Restarted db.runs (reconcile_interrupted_runs now db).1.runs
unfolding reconcile_interrupted_runs
reconcile_interrupted_runs-Restarted now db =
    let db₁ = for_each (cancel_queued now) (run_ids_with Runs.is_queued db) db in
    let db₂ = for_each (park_running now) (run_ids_with Runs.is_running db₁) db₁ in
    Pairwise-All TurnedBoth Restarted (λ run. Runs.is_cancelable run.status ≡ false)
      not_open-Restarted db.runs db₂.runs
      (Pairwise-trans _ _ TurnedBoth Turned-TurnedBoth db.runs db₁.runs db₂.runs
        (for_each-Turned RunStatus.queued RunStatus.canceled (cancel_queued now)
          (λ e. ground (arith, e)) (cancel_queued-Turned now) (run_ids_with Runs.is_queued db) db)
        (for_each-Turned RunStatus.running RunStatus.reconciling (park_running now)
          (λ e. ground (arith, e)) (park_running-Turned now) (run_ids_with Runs.is_running db₁)
          db₁))
      (settled_runs now db)
