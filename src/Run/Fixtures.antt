-- ===== src/Run/Fixtures.antt =====
-- A small database: one environment with one node, a release with one unit, and nothing deployed.
use easy_deploy.Prelude.{ℕ, pos, none, some, List, [], ◌∷◌, true, false, ok}
use easy_deploy.Plan.Types.{normal, start, DeploymentPlan, DeploymentPlanItem}
use easy_deploy.Run.Types.{
  EnvironmentStatus, EnvironmentRuntime, LastDeployment, Db, CreateDeploymentRunInput,
  CreatedDeploymentRun, UnitExecutionOutcome, UnitStatus, ResultRow,
}
use easy_deploy.Run.Catalog.{Catalog}
use easy_deploy.Run.Create.{PlanWriter}
use easy_deploy.Run.Wave.{Tick, WaveConfig}
use easy_deploy.Run.Execute.{PlanReader, Schedule}

abbrev pub db : Db
db = record {
  runs = [];
  results = [];
  tasks = [];
  phases = [];
  steps = [];
  logs = [];
  states = [];
  environments =
      record {
        id = 5;
        app_id = 7;
        status = EnvironmentStatus.ready;
        max_parallel_units = 1;
        current_app_release_id = none;
        current_config_revision_id = none;
        runtime_status = EnvironmentRuntime.unknown;
        last_deployment_status = LastDeployment.waiting;
        updated_at = 0;
      }
      ∷ [];
  next_run = 1;
  next_task = 1;
  next_phase = 1;
  next_step = 1;
}

abbrev pub catalog : Catalog
catalog = record {
  releases = record { id = 4; app_id = 7; ready = true } ∷ [];
  selections =
      record {
        app_release_id = 4;
        environment_id = 5;
        config_revision_id = 6;
        revision_app_id = 7;
        config_hash = "config";
      }
      ∷ [];
  targets = record { environment_id = 5; node_id = 1 } ∷ [];
  release_units =
      record {
        app_release_id = 4;
        unit_app_id = 7;
        unit_id = 1;
        unit_key = "web";
        unit_release_id = some 10;
        desired_status = "active";
        stage_no = pos 1;
        unit_order = pos 1;
        removal_order = pos 1;
        target_fingerprint = "web";
      }
      ∷ [];
  unit_releases = record { id = 10; version = "1.0.0"; version_code = pos 1 } ∷ [];
}

abbrev pub request : CreateDeploymentRunInput
request = record {
  environment_id = 5;
  app_release_id = 4;
  mode = normal;
  expected_plan_hash = "digest";
  created_by = "admin";
}

abbrev pub item : DeploymentPlanItem
item = record {
  unit_id = 1;
  unit_key = "web";
  unit_release_id = some 10;
  release_version = some "1.0.0";
  stage_no = pos 1;
  unit_order = pos 1;
  removal_order = pos 1;
  action = start;
  reason = "目标节点尚未部署该单元";
  target_fingerprint = "digest";
  previous_fingerprint = "";
}

abbrev pub plan : DeploymentPlan
plan = record {
  app_id = 7;
  environment_id = 5;
  app_release_id = 4;
  config_revision_id = 6;
  mode = normal;
  target_node_ids = 1 ∷ [];
  items = item ∷ [];
  plan_hash = "digest";
}

abbrev pub run : CreatedDeploymentRun
run = record { deployment_run_id = 1; task_id = 1; plan = plan }

abbrev pub write : PlanWriter
write = λ plan. ok "plan"

abbrev pub read : PlanReader
read = λ text. ok plan

-- The unit succeeds.
abbrev pub tick : Tick
tick = record {
  now = 30;
  cancelled = false;
  picked = 0;
  outcome = some (UnitExecutionOutcome.success []);
}

abbrev pub schedule : Schedule
schedule = record {
  now = 20;
  cancelled = false;
  waves = λ index. record { cancelled = false; ticks = tick ∷ [] };
}

-- A unit fails.
abbrev pub failing : Tick
failing = record tick { outcome = some (UnitExecutionOutcome.failed "exit" [] none) }

abbrev pub item_of : ℕ → DeploymentPlanItem
item_of unit_id = record item { unit_id = unit_id }

abbrev pub pending : ℕ → ResultRow
pending unit_id = record {
  deployment_run_id = 1;
  unit_id = unit_id;
  unit_release_id = some 10;
  stage_no = pos 1;
  action = start;
  status = UnitStatus.pending;
  target_fingerprint = "digest";
  previous_fingerprint = "";
  failure_kind = "";
  failure_summary = [];
  exit_code = none;
  started_at = none;
  finished_at = none;
  updated_at = 10;
}

-- Three units wait.
abbrev pub db_pending : Db
db_pending = record db { results = pending 1 ∷ pending 2 ∷ pending 3 ∷ [] }

abbrev pub items : List DeploymentPlanItem
items = item_of 1 ∷ item_of 2 ∷ item_of 3 ∷ []

abbrev pub config : WaveConfig
config = record {
  deployment_run_id = 1;
  task_id = 1;
  environment_id = 5;
  target_node_ids = 1 ∷ [];
  max_parallel = 2;
}
