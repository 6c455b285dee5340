-- ===== src/Run/History/Creations.antt =====
-- What creating a run commits, and that it only adds a run.
use easy_deploy.Prelude.{
  ℕ, String, none, ok, ◌≡◌, arith, Bool-cases, Option-cases, inl, inr, Result-cases,
}
use easy_deploy.Prelude.Text.{trim, text_is_empty}
use easy_deploy.Plan.Types.{DeploymentPlan, Digests}
use easy_deploy.Run.Types.{Db, CreateDeploymentRunInput, CreatedDeploymentRun}
use easy_deploy.Run.Catalog.{Catalog, load_deployment_plan}
use easy_deploy.Run.Create.{
  PlanWriter, last_active, created, insert_run, plan_and_insert, create_run,
}
use easy_deploy.Run.History.Evolution.{Grows, Grows-append}

-- What a successful creation commits.
pub record Creation (digests : Digests) (catalog : Catalog) (now : ℕ)
    (input : CreateDeploymentRunInput) (db db' : Db) : Type 0 where
  pub plan : DeploymentPlan
  pub plan_json : String
  pub idle : last_active input.environment_id db.runs ≡ none
  pub loaded :
      load_deployment_plan digests catalog input.environment_id input.app_release_id input.mode db
      ≡ ok plan
  pub committed : created now input plan plan_json db ≡ db'

plan_and_insert-Creation :
    (digests : Digests) (write : PlanWriter) (catalog : Catalog) (now : ℕ)
    (input : CreateDeploymentRunInput) (db db' : Db) (run : CreatedDeploymentRun)
    → last_active input.environment_id db.runs ≡ none
    → plan_and_insert digests write catalog now input db ≡ ok (run, db')
    → Creation digests catalog now input db db'
unfolding plan_and_insert insert_run
plan_and_insert-Creation digests write catalog now input db db' run idle h =
    elim (Result-cases (
      load_deployment_plan digests catalog input.environment_id input.app_release_id input.mode
        db)) [
          | inr (e, failed) ↦ ground arith
          | inl (plan, loaded) ↦ elim (Result-cases (write plan)) [
            | inr (e, failed) ↦ ground arith
            | inl (json, written) ↦ record {
              plan = plan;
              plan_json = json;
              idle = idle;
              loaded = loaded;
              committed = ground arith;
            }
          ]
        ]

pub create_run-Creation :
    (digests : Digests) (write : PlanWriter) (catalog : Catalog) (now : ℕ)
    (input : CreateDeploymentRunInput) (db db' : Db) (run : CreatedDeploymentRun)
    → create_run digests write catalog now input db ≡ ok (run, db')
    → Creation digests catalog now input db db'
unfolding create_run
create_run-Creation digests write catalog now input db db' run h =
    elim (Bool-cases (text_is_empty (trim input.expected_plan_hash))) [
      | inl e ↦ ground arith
      | inr e ↦ elim (Option-cases (last_active input.environment_id db.runs)) [
        | inr (active, found) ↦ ground arith
        | inl idle ↦
            plan_and_insert-Creation digests write catalog now input db db' run idle (ground arith)
      ]
    ]

pub Creation-Grows :
    {digests : Digests} {db db' : Db} (catalog : Catalog) (now : ℕ)
    (input : CreateDeploymentRunInput)
    → Creation digests catalog now input db db'
    → Grows db.runs db'.runs
unfolding created
Creation-Grows {digests} {db} {db'} catalog now input c =
    rw (← c.committed) (Grows-append db.runs _)
