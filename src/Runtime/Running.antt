-- ===== src/Runtime/Running.antt =====
-- pkg/runtime/runner.go: `RunOnce` over pipelines whose workers share the in-memory stores.
use deltaflow.Prelude.{
  codes, Bool-cases, if◌then◌else◌, Str, inl, inr, Option-cases, ℕ, suc, Option, none, some, List,
  [], ◌∷◌,
}
use deltaflow.Model.{
  external, Time, Ctx, Error, Result, ok, err, nil_dereference, diverges, Projection,
  ProjectionIdentity, ProjectionOperation,
}
use deltaflow.Dispatch.Pending.{DispatchStore}
use deltaflow.Dispatch.Applied as Both
use deltaflow.Worker.Cycle.{Surroundings, run_once, run_dispatched}
use deltaflow.Worker.Process.{Plugins}
use deltaflow.Worker.Config.{validate}
use deltaflow.Worker.Invariant.{run_once-Inv, run_dispatched-Inv}
use deltaflow.Runtime.Runner.{
  is_nil, SyncWorker, PipelineRunner, WorkerRun, RunError, after_run, run_pipelines, run_built,
}

abbrev pub Project : Type 0
Project = Ctx → ProjectionIdentity → Projection × Option Error

abbrev pub Apply : Type 0
Apply = Ctx → ProjectionOperation → Option Error

-- `validateRunOnceDependencies`; a built worker's projector and applier are not nil.
unfoldable pub validate_run_once_dependencies :
    {J D P A : Type 0} → SyncWorker J D P A → Option Error
unfolding validate
validate_run_once_dependencies w = elim (validate w.config) [
  | some e ↦ some e
  | none ↦
      if is_nil w.job_store
      then some (external (codes "sync worker config: job_store is required"))
      else none
]

abbrev pub plugins : {J D : Type 0} → SyncWorker J D Project Apply → Plugins
plugins w = record { project = w.projector; apply = w.applier }

-- `RunOnce` from the valid dependencies on, with one routine; without a dispatcher nothing is
-- dispatched.
abbrev pub run_cycle :
    {J D : Type 0}
    → Ctx
    → Surroundings
    → Time
    → SyncWorker J D Project Apply
    → DispatchStore
    → DispatchStore × Result (Option Error)
run_cycle ctx o now w s =
    if is_nil w.dispatcher
    then run_dispatched (plugins w) o w.config (s, ok [])
    else run_once (plugins w) o ctx w.config s now

-- `RunOnce` of the i-th worker, with one routine, over the in-memory stores; `surroundings` and `now`
-- give the contexts, the clocks and the ticks of each run.
abbrev pub run_worker :
    {J D : Type 0}
    → Ctx
    → (ℕ → Surroundings)
    → (ℕ → Time)
    → WorkerRun (SyncWorker J D Project Apply) DispatchStore
run_worker ctx surroundings now i w s = elim (validate_run_once_dependencies w) [
  | some e ↦ (s, ok (some e))
  | none ↦ run_cycle ctx (surroundings i) (now i) w s
]

module _ {J D P A S : Type 0} (run : WorkerRun (SyncWorker J D P A) S) (Keeps : S → Type 0)
    (each : (i : ℕ) (w : SyncWorker J D P A) (s : S) → Keeps s → Keeps (run i w s).0) where
  after_run-Keeps :
      (name : Str) (s : S) (answer : Result (Option Error)) (rest : S × Result (Option RunError))
      → Keeps s
      → Keeps rest.0
      → Keeps (after_run name s answer rest).0
  after_run-Keeps name s (ok none) rest v v' = v'
  after_run-Keeps name s (ok (some e)) rest v v' = v
  after_run-Keeps name s (err e) rest v v' = v
  after_run-Keeps name s nil_dereference rest v v' = v
  after_run-Keeps name s diverges rest v v' = v

  run_pipelines-Keeps :
      (i : ℕ) (s : S) (ps : List (PipelineRunner J D P A))
      → Keeps s
      → Keeps (run_pipelines run i s ps).0
  unfolding run_pipelines
  run_pipelines-Keeps i s [] v = v
  run_pipelines-Keeps i s (p ∷ ps) v = elim (Option-cases p.worker) [
    | inl gone ↦ rw gone v
    | inr (w, found) ↦
        let v' = each i w s v in
        rw found (
          after_run-Keeps p.name _ (run i w s).1 _ v'
            (run_pipelines-Keeps (suc i) (run i w s).0 ps v'))
  ]

  -- An invariant that each worker's run keeps is kept by `RunOnce`.
  pub run_built-Keeps :
      (s : S) (built : Option (List (PipelineRunner J D P A)))
      → Keeps s
      → Keeps (run_built run s built).0
  unfolding run_built
  run_built-Keeps s none v = v
  run_built-Keeps s (some ps) v = run_pipelines-Keeps 0 s ps v

run_cycle-Inv :
    {J D : Type 0} (ctx : Ctx) (o : Surroundings) (now : Time) (w : SyncWorker J D Project Apply)
    (s : DispatchStore)
    → Both.Inv s
    → Both.Inv (run_cycle ctx o now w s).0
run_cycle-Inv ctx o now w s v = elim (Bool-cases (is_nil w.dispatcher)) [
  | inl e ↦ rw e (run_dispatched-Inv (plugins w) o w.config s (ok []) v)
  | inr e ↦ rw e (run_once-Inv (plugins w) o ctx w.config s now v)
]

run_worker-Inv :
    {J D : Type 0} (ctx : Ctx) (surroundings : ℕ → Surroundings) (now : ℕ → Time) (i : ℕ)
    (w : SyncWorker J D Project Apply) (s : DispatchStore)
    → Both.Inv s
    → Both.Inv (run_worker ctx surroundings now i w s).0
run_worker-Inv ctx surroundings now i w s v =
    elim (Option-cases (validate_run_once_dependencies w)) [
      | inl e ↦ rw (e, run_worker) (run_cycle-Inv ctx (surroundings i) (now i) w s v)
      | inr (e, refused) ↦ rw (refused, run_worker) v
    ]

-- `RunOnce` over pipelines whose workers have one routine each and share well-formed in-memory
-- stores leaves these well formed on every branch, with a worker that is nil or lacks a job store
-- or a dispatcher too, whatever the projectors, the appliers, the ticks, the contexts and the
-- clocks are.
pub run_built-Inv :
    {J D : Type 0} (ctx : Ctx) (surroundings : ℕ → Surroundings) (now : ℕ → Time)
    (s : DispatchStore) (built : Option (List (PipelineRunner J D Project Apply)))
    → Both.Inv s
    → Both.Inv (run_built (run_worker ctx surroundings now) s built).0
run_built-Inv ctx surroundings now s built v =
    run_built-Keeps (run_worker ctx surroundings now) Both.Inv (run_worker-Inv ctx surroundings now)
      s built v
