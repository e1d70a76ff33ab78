-- ===== src/Runtime/Runner.antt =====
-- pkg/runtime/runner.go: `BuildFromConfig` and `RunOnce` of the pipelines. What the stores are, and
-- `RunOnce` of a worker, are parameters; the texts of errors and `StoreDB` are left out.
use deltaflow.Prelude.{
  ℕ, suc, ℤ, Str, Bool, true, false, if◌then◌else◌, ◌&&◌, Option, none, some, List, [], ◌∷◌, codes,
  is_empty, is_nonpos, str_eq,
}
use deltaflow.Model.{Ctx, Error, Result, ok, err, nil_dereference, diverges}
use deltaflow.Worker.Config.{WorkerConfig}
use deltaflow.Runtime.Registry.{
  PipelineSpec, Registry, ResolveError, PipelineRuntime, Resolved, resolved, not_resolved,
  resolve_pipeline,
}

pub record BuildStoreConfig : Type 0 where
  pub type : Str
  pub dsn : Str

pub record BuildSourceConfig : Type 0 where
  pub type : Str
  pub projection_type : Str

pub record BuildProjectorConfig : Type 0 where
  pub name : Str

pub record BuildTargetConfig : Type 0 where
  pub type : Str
  pub index : Str

pub record BuildApplierConfig : Type 0 where
  pub mode : Str

pub record BuildPipelineConfig : Type 0 where
  pub name : Str
  pub sync_id : Str
  pub source : BuildSourceConfig
  pub projector : BuildProjectorConfig
  pub target : BuildTargetConfig
  pub applier : BuildApplierConfig

pub record BuildConfig : Type 0 where
  pub store : BuildStoreConfig
  pub pipelines : List BuildPipelineConfig

-- The stores may be nil.
pub record WorkerDeps (J D : Type 0) : Type 0 where
  pub job_store : Option J
  pub dispatcher : Option D
  pub worker_id : Str
  pub lock_for : ℤ
  pub pull_size : ℤ
  pub batch_size : ℤ
  pub concurrency : ℤ

-- `SyncWorker`: its dependencies, and its configuration.
pub record SyncWorker (J D P A : Type 0) : Type 0 where
  pub job_store : Option J
  pub dispatcher : Option D
  pub projector : P
  pub applier : A
  pub config : WorkerConfig

pub record PipelineRunner (J D P A : Type 0) : Type 0 where
  pub name : Str
  pub sync_id : Str
  pub worker : Option (SyncWorker J D P A)

pub data BuildError : Type 0 where
  config_missing registry_missing job_store_missing worker_id_missing lock_for_not_positive :
      BuildError
  dispatcher_missing : Str → BuildError
  resolve_failed : ResolveError → BuildError

-- `BuildResult`, or an error
pub data Build (J D P A : Type 0) : Type 0 where
  built : List (PipelineRunner J D P A) → Build J D P A
  not_built : BuildError → Build J D P A

abbrev pub is_nil : {A : Type 0} → Option A → Bool
is_nil none = true
is_nil (some x) = false

abbrev pub pipeline_spec : BuildStoreConfig → BuildPipelineConfig → PipelineSpec
pipeline_spec store p = record {
  name = p.name;
  sync_id = p.sync_id;
  store_type = store.type;
  store_dsn = store.dsn;
  projector_name = p.projector.name;
  source_type = p.source.type;
  source_projection_type = p.source.projection_type;
  target_type = p.target.type;
  target_index = p.target.index;
  applier_mode = p.applier.mode;
}

abbrev pub worker_of :
    {J D P A : Type 0} → WorkerDeps J D → PipelineRuntime P A → SyncWorker J D P A
worker_of deps x = record {
  job_store = deps.job_store;
  dispatcher = deps.dispatcher;
  projector = x.projector;
  applier = x.applier;
  config = record {
    sync_id = x.spec.sync_id;
    worker_id = deps.worker_id;
    lock_for = deps.lock_for;
    pull_size = deps.pull_size;
    batch_size = deps.batch_size;
    concurrency = deps.concurrency;
  };
}

abbrev pub runner_of :
    {J D P A : Type 0} → WorkerDeps J D → PipelineRuntime P A → PipelineRunner J D P A
runner_of deps x = record {
  name = x.spec.name;
  sync_id = x.spec.sync_id;
  worker = some (worker_of deps x);
}

-- One pipeline's runner, before those of the pipelines after it.
abbrev pub add_runner :
    {J D P A : Type 0} → WorkerDeps J D → Resolved P A → Build J D P A → Build J D P A
add_runner deps (not_resolved e) rest = not_built (resolve_failed e)
add_runner deps (resolved x) (not_built e) = not_built e
add_runner deps (resolved x) (built runners) = built (runner_of deps x ∷ runners)

abbrev pub lacks_dispatcher : {J D : Type 0} → WorkerDeps J D → BuildPipelineConfig → Bool
lacks_dispatcher deps p = str_eq p.source.type (codes "postgres-outbox") && is_nil deps.dispatcher

-- The loop of `BuildFromConfig`
unfoldable pub build_runners :
    {J D P A : Type 0}
    → Ctx
    → Registry P A
    → BuildStoreConfig
    → WorkerDeps J D
    → List BuildPipelineConfig
    → Build J D P A
unfolding resolve_pipeline
build_runners ctx r store deps [] = built []
build_runners ctx r store deps (p ∷ ps) =
    let rest = build_runners ctx r store deps ps in
    if lacks_dispatcher deps p
    then not_built (dispatcher_missing p.name)
    else add_runner deps (resolve_pipeline ctx (some r) (pipeline_spec store p)) rest

-- `BuildFromConfig`
unfoldable pub build_from_config :
    {J D P A : Type 0}
    → Ctx
    → Option BuildConfig
    → Option (Registry P A)
    → WorkerDeps J D
    → Build J D P A
unfolding build_runners
build_from_config ctx none registry deps = not_built config_missing
build_from_config ctx (some cfg) none deps = not_built registry_missing
build_from_config ctx (some cfg) (some r) deps =
    if is_nil deps.job_store
    then not_built job_store_missing
    else if is_empty deps.worker_id
    then not_built worker_id_missing
    else if is_nonpos deps.lock_for
    then not_built lock_for_not_positive
    else build_runners ctx r cfg.store deps cfg.pipelines

pub data RunError : Type 0 where
  build_result_missing : RunError
  worker_is_nil : Str → RunError
  run_failed : Str → Error → RunError

-- What `RunOnce` of the i-th worker does to the stores, and what it returns.
abbrev pub WorkerRun : Type 0 → Type 0 → Type 0
WorkerRun W S = ℕ → W → S → S × Result (Option Error)

-- `RunOnce` from a worker's answer on; `rest` is what the pipelines after it answer.
abbrev pub after_run :
    {S : Type 0}
    → Str
    → S
    → Result (Option Error)
    → S × Result (Option RunError)
    → S × Result (Option RunError)
after_run name s (ok none) rest = rest
after_run name s (ok (some e)) rest = (s, ok (some (run_failed name e)))
after_run name s (err e) rest = (s, ok (some (run_failed name e)))
after_run name s nil_dereference rest = (s, nil_dereference)
after_run name s diverges rest = (s, diverges)

-- The loop of `RunOnce` from the i-th pipeline on.
unfoldable pub run_pipelines :
    {J D P A S : Type 0}
    → WorkerRun (SyncWorker J D P A) S
    → ℕ
    → S
    → List (PipelineRunner J D P A)
    → S × Result (Option RunError)
run_pipelines run i s [] = (s, ok none)
run_pipelines run i s (p ∷ ps) = elim p.worker [
  | none ↦ (s, ok (some (worker_is_nil p.name)))
  | some w ↦
      let (s', answer) = run i w s in after_run p.name s' answer (run_pipelines run (suc i) s' ps)
]

-- `RunOnce`
unfoldable pub run_built :
    {J D P A S : Type 0}
    → WorkerRun (SyncWorker J D P A) S
    → S
    → Option (List (PipelineRunner J D P A))
    → S × Result (Option RunError)
unfolding run_pipelines
run_built run s none = (s, ok (some build_result_missing))
run_built run s (some runners) = run_pipelines run 0 s runners
