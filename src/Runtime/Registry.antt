-- ===== src/Runtime/Registry.antt =====
-- pkg/runtime/registry.go: `Registry` and its operations. A factory, which the program's user
-- supplies, is a function of the context and the specification; the texts of panics and errors are
-- left out, and so is `StoreDB`, which the registry only hands on.
use deltaflow.Prelude.{
  Str, Map, Bool, if◌then◌else◌, not, Option, none, some, [], is_empty, str_eq, trim_space, has,
  insert, lookup,
}
use deltaflow.Model.{Ctx, Error}

pub record PipelineSpec : Type 0 where
  pub name : Str
  pub sync_id : Str
  pub store_type : Str
  pub store_dsn : Str
  pub projector_name : Str
  pub source_type : Str
  pub source_projection_type : Str
  pub target_type : Str
  pub target_index : Str
  pub applier_mode : Str

-- `ProjectorFactory` and `ApplierFactory`: the value may be nil.
abbrev pub Factory : Type 0 → Type 0
Factory V = Ctx → PipelineSpec → Option V × Option Error

pub record Registry (P A : Type 0) : Type 0 where
  pub projectors : Map (Factory P)
  pub appliers : Map (Factory A)

-- `NewRegistry`
abbrev pub new_registry : (P A : Type 0) → Registry P A
new_registry P A = record { projectors = []; appliers = [] }

pub data RegistryPanic : Type 0 where
  factory_required name_required name_has_space already_registered : RegistryPanic

pub data Registration (V : Type 0) : Type 0 where
  registered : Map (Factory V) → Registration V
  panics : RegistryPanic → Registration V

-- The body that `RegisterProjector` and `RegisterApplier` share, of a registry that is not nil.
unfoldable pub register : {V : Type 0} → Map (Factory V) → Str → Option (Factory V) → Registration V
register m name none = panics factory_required
register m name (some factory) =
    if is_empty (trim_space name)
    then panics name_required
    else if not (str_eq (trim_space name) name)
    then panics name_has_space
    else if has name m
    then panics already_registered
    else registered (insert name factory m)

-- `HasProjector` and `HasApplier`
unfoldable pub has_projector : {P A : Type 0} → Registry P A → Str → Bool
has_projector r name = has name r.projectors

unfoldable pub has_applier : {P A : Type 0} → Registry P A → Str → Bool
has_applier r target_type = has target_type r.appliers

pub data ResolveError : Type 0 where
  registry_required projector_not_registered applier_not_registered : ResolveError
  projector_is_nil applier_is_nil : ResolveError
  build_projector build_applier : Error → ResolveError

pub record PipelineRuntime (P A : Type 0) : Type 0 where
  pub spec : PipelineSpec
  pub projector : P
  pub applier : A

pub data Resolved (P A : Type 0) : Type 0 where
  resolved : PipelineRuntime P A → Resolved P A
  not_resolved : ResolveError → Resolved P A

-- From the applier's factory on.
abbrev pub with_applier : {P A : Type 0} → PipelineSpec → P → Option A × Option Error → Resolved P A
with_applier spec projector (a, some e) = not_resolved (build_applier e)
with_applier spec projector (none, none) = not_resolved applier_is_nil
with_applier spec projector (some applier, none) =
    resolved (record { spec = spec; projector = projector; applier = applier })

-- From the projector's factory on.
abbrev pub with_projector :
    {P A : Type 0} → Ctx → PipelineSpec → Factory A → Option P × Option Error → Resolved P A
with_projector ctx spec applier_factory (p, some e) = not_resolved (build_projector e)
with_projector ctx spec applier_factory (none, none) = not_resolved projector_is_nil
with_projector ctx spec applier_factory (some projector, none) =
    with_applier spec projector (applier_factory ctx spec)

-- `ResolvePipeline`
unfoldable pub resolve_pipeline :
    {P A : Type 0} → Ctx → Option (Registry P A) → PipelineSpec → Resolved P A
resolve_pipeline ctx none spec = not_resolved registry_required
resolve_pipeline ctx (some r) spec = elim (lookup spec.projector_name r.projectors) [
  | none ↦ not_resolved projector_not_registered
  | some projector_factory ↦ elim (lookup spec.target_type r.appliers) [
    | none ↦ not_resolved applier_not_registered
    | some applier_factory ↦ with_projector ctx spec applier_factory (projector_factory ctx spec)
  ]
]
