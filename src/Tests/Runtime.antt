-- ===== src/Tests/Runtime.antt =====
-- Runs of pkg/runtime/registry.go and pkg/runtime/runner.go.
use deltaflow.Prelude.{
  ℕ, ◌≡◌, ◌↔◌, refl, none, some, [], codes, insert, has, str_eq, trim_space, lookup, pos, suc, ◌∷◌,
  if◌then◌else◌, ◌==◌,
}
use deltaflow.Model.{ok, external}
use deltaflow.Runtime.Registry.{
  PipelineSpec, Factory, Registry, registered, register, resolve_pipeline, PipelineRuntime,
}
use deltaflow.Runtime.Resolution.{IsRegistered, register-IsRegistered}
use deltaflow.Runtime.Runner.{
  WorkerDeps, BuildPipelineConfig, BuildConfig, SyncWorker, WorkerRun, build_from_config, runner_of,
  run_built, run_failed,
}
use deltaflow.Runtime.Runner.{built as built_from}
use deltaflow.Runtime.Building.{IsBuiltFrom, build_from_config_iff}

-- A factory of the number 7.
abbrev seven : Factory ℕ
seven = λ ctx spec. (some 7, none)

register_lem : register [] (codes "crm") (some seven) ≡ registered (insert (codes "crm") seven [])
unfolding register has str_eq trim_space
register_lem = refl

register-IsRegistered_example : IsRegistered [] (codes "crm") seven (insert (codes "crm") seven [])
register-IsRegistered_example =
    register-IsRegistered [] (insert (codes "crm") seven []) (codes "crm") seven register_lem

abbrev registry : Registry ℕ ℕ
registry = record {
  projectors = insert (codes "crm") seven [];
  appliers = insert (codes "index") seven [];
}

abbrev spec : PipelineSpec
spec = record {
  name = codes "p";
  sync_id = codes "contacts";
  store_type = codes "memory";
  store_dsn = [];
  projector_name = codes "crm";
  source_type = [];
  source_projection_type = codes "Contact";
  target_type = codes "index";
  target_index = [];
  applier_mode = [];
}

abbrev built : PipelineRuntime ℕ ℕ
built = record { spec = spec; projector = 7; applier = 7 }

abbrev deps : WorkerDeps ℕ ℕ
deps = record {
  job_store = some 1;
  dispatcher = none;
  worker_id = codes "w";
  lock_for = pos 60;
  pull_size = pos 0;
  batch_size = pos 1;
  concurrency = pos 1;
}

abbrev crm_pipeline : BuildPipelineConfig
crm_pipeline = record {
  name = codes "p";
  sync_id = codes "contacts";
  source = record { type = []; projection_type = codes "Contact" };
  projector = record { name = codes "crm" };
  target = record { type = codes "index"; index = [] };
  applier = record { mode = [] };
}

abbrev crm : BuildConfig
crm = record { store = record { type = codes "memory"; dsn = [] }; pipelines = crm_pipeline ∷ [] }

build_from_config_iff_example :
    (build_from_config none (some crm) (some registry) deps
      ≡ built_from (runner_of deps built ∷ []))
    ↔ IsBuiltFrom none crm registry deps (runner_of deps built ∷ [])
build_from_config_iff_example =
    build_from_config_iff none crm registry deps (runner_of deps built ∷ [])

crm-built :
    build_from_config none (some crm) (some registry) deps ≡ built_from (runner_of deps built ∷ [])
unfolding build_from_config resolve_pipeline lookup str_eq insert
crm-built = refl

-- A worker that counts its runs, and fails in its third.
abbrev counts_up : WorkerRun (SyncWorker ℕ ℕ ℕ ℕ) ℕ
counts_up = λ i w s. if s == 2 then (s, ok (some (external (codes "full")))) else (suc s, ok none)

two_run :
    run_built counts_up 0 (some (runner_of deps built ∷ runner_of deps built ∷ [])) ≡ (2, ok none)
unfolding run_built
two_run = refl

third_fails :
    run_built counts_up 2 (some (runner_of deps built ∷ []))
    ≡ (2, ok (some (run_failed (codes "p") (external (codes "full")))))
unfolding run_built
third_fails = refl
