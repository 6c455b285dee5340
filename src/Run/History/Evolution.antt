-- ===== src/Run/History/Evolution.antt =====
-- How the table of runs may change.
use easy_deploy.Prelude.{
  List, [], ◌∷◌, ◌++◌, Bool, true, false, ◌≡◌, refl, ◌∙◌, arith, Bool-cases, inl, inr,
}
use easy_deploy.Prelude.Table.{update_where}
use easy_deploy.Run.Types.{RunStatus, RunRow}
use easy_deploy.Run.Status.Runs

-- The statuses that a status can lead to, itself included.
abbrev pub may_become : RunStatus → RunStatus → Bool
may_become RunStatus.queued _ = true
may_become RunStatus.running RunStatus.queued = false
may_become RunStatus.running _ = true
may_become RunStatus.reconciling RunStatus.reconciling = true
may_become RunStatus.reconciling RunStatus.partial_failed = true
may_become RunStatus.reconciling RunStatus.all_failed = true
may_become RunStatus.reconciling RunStatus.canceled = true
may_become RunStatus.reconciling _ = false
may_become RunStatus.success RunStatus.success = true
may_become RunStatus.success _ = false
may_become RunStatus.partial_failed RunStatus.partial_failed = true
may_become RunStatus.partial_failed _ = false
may_become RunStatus.all_failed RunStatus.all_failed = true
may_become RunStatus.all_failed _ = false
may_become RunStatus.canceled RunStatus.canceled = true
may_become RunStatus.canceled _ = false

-- A later row of a run: what was planned stays, the status moves forward, and a run that is over
-- does not change at all.
pub record Follows (run run' : RunRow) : Type 0 where
  pub id : run'.id ≡ run.id
  pub environment : run'.environment_id ≡ run.environment_id
  pub release : run'.app_release_id ≡ run.app_release_id
  pub task : run'.task_id ≡ run.task_id
  pub plan : run'.plan_json ≡ run.plan_json
  pub plan_hash : run'.plan_hash ≡ run.plan_hash
  pub forward : may_become run.status run'.status ≡ true
  pub settled : Runs.is_active run.status ≡ false → run' ≡ run

-- Each run of the first table has a later row at its place in the second, which holds no more.
abbrev pub Evolves : List RunRow → List RunRow → Type 0
Evolves [] [] = Unit
Evolves [] (run' ∷ runs') = ⊥
Evolves (run ∷ runs) [] = ⊥
Evolves (run ∷ runs) (run' ∷ runs') = Follows run run' × Evolves runs runs'

-- The same, but the second table may hold more.
abbrev pub Grows : List RunRow → List RunRow → Type 0
Grows [] runs' = Unit
Grows (run ∷ runs) [] = ⊥
Grows (run ∷ runs) (run' ∷ runs') = Follows run run' × Grows runs runs'

may_become_refl : (s : RunStatus) → may_become s s ≡ true
may_become_refl s = ground arith

may_become_trans :
    (a b c : RunStatus) → may_become a b ≡ true → may_become b c ≡ true → may_become a c ≡ true
may_become_trans a b c p q = ground arith

settled_status :
    (a b : RunStatus) → may_become a b ≡ true → Runs.is_active a ≡ false → Runs.is_active b ≡ false
settled_status a b p q = ground arith

pub Follows-refl : (run : RunRow) → Follows run run
Follows-refl run = record {
  id = refl;
  environment = refl;
  release = refl;
  task = refl;
  plan = refl;
  plan_hash = refl;
  forward = may_become_refl run.status;
  settled = λ _. refl;
}

Follows-trans : (a b c : RunRow) → Follows a b → Follows b c → Follows a c
Follows-trans a b c p q = record {
  id = q.id ∙ p.id;
  environment = q.environment ∙ p.environment;
  release = q.release ∙ p.release;
  task = q.task ∙ p.task;
  plan = q.plan ∙ p.plan;
  plan_hash = q.plan_hash ∙ p.plan_hash;
  forward = may_become_trans a.status b.status c.status p.forward q.forward;
  settled = λ over. q.settled (settled_status a.status b.status p.forward over) ∙ p.settled over;
}

pub Evolves-refl : (runs : List RunRow) → Evolves runs runs
Evolves-refl [] = tt
Evolves-refl (run ∷ runs) = (Follows-refl run, Evolves-refl runs)

pub Evolves-trans : (a b c : List RunRow) → Evolves a b → Evolves b c → Evolves a c
Evolves-trans [] [] [] p q = tt
Evolves-trans [] [] (z ∷ c) p q = absurd q
Evolves-trans [] (y ∷ b) c p q = absurd p
Evolves-trans (x ∷ a) [] c p q = absurd p
Evolves-trans (x ∷ a) (y ∷ b) [] p q = absurd q
Evolves-trans (x ∷ a) (y ∷ b) (z ∷ c) p q =
    (Follows-trans x y z p.0 q.0, Evolves-trans a b c p.1 q.1)

pub Grows-refl : (runs : List RunRow) → Grows runs runs
Grows-refl [] = tt
Grows-refl (run ∷ runs) = (Follows-refl run, Grows-refl runs)

pub Grows-trans : (a b c : List RunRow) → Grows a b → Grows b c → Grows a c
Grows-trans [] b c p q = tt
Grows-trans (x ∷ a) [] c p q = absurd p
Grows-trans (x ∷ a) (y ∷ b) [] p q = absurd q
Grows-trans (x ∷ a) (y ∷ b) (z ∷ c) p q = (Follows-trans x y z p.0 q.0, Grows-trans a b c p.1 q.1)

pub Grows-append : (runs extra : List RunRow) → Grows runs (runs ++ extra)
Grows-append [] extra = tt
Grows-append (run ∷ runs) extra = (Follows-refl run, Grows-append runs extra)

pub Evolves-Grows : (a b : List RunRow) → Evolves a b → Grows a b
Evolves-Grows [] b h = tt
Evolves-Grows (x ∷ a) [] h = absurd h
Evolves-Grows (x ∷ a) (y ∷ b) h = (h.0, Evolves-Grows a b h.1)

-- An UPDATE whose assignment yields a later row of each run that it selects.
pub Evolves-update_where :
    (p : RunRow → Bool) (f : RunRow → RunRow)
    → ((run : RunRow) → p run ≡ true → Follows run (f run))
    → (runs : List RunRow) → Evolves runs (update_where p f runs)
unfolding update_where
Evolves-update_where p f follows [] = tt
Evolves-update_where p f follows (run ∷ runs) =
    let rest = Evolves-update_where p f follows runs in
    elim (Bool-cases (p run)) [
      | inl e ↦ rw e (follows run e, rest)
      | inr e ↦ rw e (Follows-refl run, rest)
    ]
