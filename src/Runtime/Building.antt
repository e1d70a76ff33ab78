-- ===== src/Runtime/Building.antt =====
-- pkg/runtime/runner.go: which runners `BuildFromConfig` builds.
use deltaflow.Prelude.{
  false, ◌≡◌, refl, sym, ap, ◌↔◌, some, List, [], ◌∷◌, is_empty, is_nonpos, Bool-cases, inl, inr,
}
use deltaflow.Model.{Ctx}
use deltaflow.Runtime.Registry.{
  Registry, PipelineRuntime, Resolved, resolved, not_resolved, resolve_pipeline,
}
use deltaflow.Runtime.Resolution.{IsBuilt, resolve_pipeline_iff}
use deltaflow.Runtime.Runner.{
  BuildStoreConfig, BuildPipelineConfig, BuildConfig, WorkerDeps, PipelineRunner, Build, built,
  not_built, is_nil, pipeline_spec, runner_of, add_runner, lacks_dispatcher, build_runners,
  build_from_config,
}

-- The runners of the pipelines, in their order, each with what the registry resolves its pipeline to.
abbrev pub AreRunners :
    {J D P A : Type 0}
    → Ctx
    → Registry P A
    → BuildStoreConfig
    → WorkerDeps J D
    → List BuildPipelineConfig
    → List (PipelineRunner J D P A)
    → Type 0
AreRunners ctx r store deps [] runners = runners ≡ []
AreRunners {J} {D} {P} {A} ctx r store deps (p ∷ ps) runners =
    (x : PipelineRuntime P A) × (rest : List (PipelineRunner J D P A)) × (lacks_dispatcher deps p
      ≡ false)
    × IsBuilt ctx r (pipeline_spec store p) x
    × (runners ≡ runner_of deps x ∷ rest)
    × AreRunners ctx r store deps ps rest

-- The dependencies are given, and the runners are those of the pipelines.
pub record IsBuiltFrom {J D P A : Type 0} (ctx : Ctx) (cfg : BuildConfig) (r : Registry P A)
    (deps : WorkerDeps J D) (runners : List (PipelineRunner J D P A)) : Type 0 where
  pub job_store : is_nil deps.job_store ≡ false
  pub worker_id : is_empty deps.worker_id ≡ false
  pub lock_for : is_nonpos deps.lock_for ≡ false
  pub are_runners : AreRunners ctx r cfg.store deps cfg.pipelines runners

add_runner-built :
    {J D P A : Type 0} (deps : WorkerDeps J D) (y : Resolved P A) (rest : Build J D P A)
    (runners : List (PipelineRunner J D P A))
    → add_runner deps y rest ≡ built runners
    → (x : PipelineRuntime P A) × (tail : List (PipelineRunner J D P A)) × (y ≡ resolved x)
      × (rest ≡ built tail)
      × (runners ≡ runner_of deps x ∷ tail)
add_runner-built deps (not_resolved e) rest runners h = cc
add_runner-built deps (resolved x) (not_built e) runners h = cc
add_runner-built deps (resolved x) (built tail) runners h = (x, tail, refl, refl, cc)

build_runners-are :
    {J D P A : Type 0} (ctx : Ctx) (r : Registry P A) (store : BuildStoreConfig)
    (deps : WorkerDeps J D) (ps : List BuildPipelineConfig)
    (runners : List (PipelineRunner J D P A))
    → build_runners ctx r store deps ps ≡ built runners
    → AreRunners ctx r store deps ps runners
unfolding build_runners
build_runners-are ctx r store deps [] runners h = cc
build_runners-are ctx r store deps (p ∷ ps) runners h =
    elim (Bool-cases (lacks_dispatcher deps p)) [
      | inl lacks ↦ let h' : not_built _ ≡ built runners = rw lacks at h in cc
      | inr has ↦
          let h' : add_runner deps (resolve_pipeline ctx (some r) (pipeline_spec store p))
                (build_runners ctx r store deps ps)
              ≡ built runners =
            rw has at h in
          let (x, tail, found, rest, same) = add_runner-built deps _ _ runners h' in
          (
            x,
            tail,
            has,
            (resolve_pipeline_iff ctx r (pipeline_spec store p) x).0 found,
            same,
            build_runners-are ctx r store deps ps tail rest,
          )
    ]

are-build_runners :
    {J D P A : Type 0} (ctx : Ctx) (r : Registry P A) (store : BuildStoreConfig)
    (deps : WorkerDeps J D) (ps : List BuildPipelineConfig)
    (runners : List (PipelineRunner J D P A))
    → AreRunners ctx r store deps ps runners
    → build_runners ctx r store deps ps ≡ built runners
unfolding build_runners
are-build_runners ctx r store deps [] runners h = ap built (sym h)
are-build_runners ctx r store deps (p ∷ ps) runners (x, tail, has, is_built, same, rest) =
    rw
      (
        has,
        (resolve_pipeline_iff ctx r (pipeline_spec store p) x).1 is_built,
        are-build_runners ctx r store deps ps tail rest,
      )
      (ap built (sym same))

-- `BuildFromConfig` of a configuration and a registry answers runners exactly when the job store,
-- the worker's identifier and a positive lease are given, no pipeline that reads the outbox lacks
-- a dispatcher, and the runners are, in the pipelines' order, those of what the registry resolves
-- each pipeline to.
pub build_from_config_iff :
    {J D P A : Type 0} (ctx : Ctx) (cfg : BuildConfig) (r : Registry P A) (deps : WorkerDeps J D)
    (runners : List (PipelineRunner J D P A))
    → (build_from_config ctx (some cfg) (some r) deps ≡ built runners)
      ↔ IsBuiltFrom ctx cfg r deps runners
unfolding build_from_config
build_from_config_iff ctx cfg r deps runners = (
  λ h. elim (Bool-cases (is_nil deps.job_store)) [
    | inl e ↦ let h' : not_built _ ≡ built runners = rw e at h in cc
    | inr given ↦ elim (Bool-cases (is_empty deps.worker_id)) [
      | inl e ↦ let h' : not_built _ ≡ built runners = rw (given, e) at h in cc
      | inr named ↦ elim (Bool-cases (is_nonpos deps.lock_for)) [
        | inl e ↦ let h' : not_built _ ≡ built runners = rw (given, named, e) at h in cc
        | inr positive ↦
            let h' : build_runners ctx r cfg.store deps cfg.pipelines ≡ built runners =
              rw (given, named, positive) at h in
            record {
              job_store = given;
              worker_id = named;
              lock_for = positive;
              are_runners = build_runners-are ctx r cfg.store deps cfg.pipelines runners h';
            }
      ]
    ]
  ],
  λ b.
      rw (b.job_store, b.worker_id, b.lock_for)
        (are-build_runners ctx r cfg.store deps cfg.pipelines runners b.are_runners),
)
