-- ===== src/Runtime/Resolution.antt =====
-- pkg/runtime/registry.go: what registering and resolving achieve.
use deltaflow.Prelude.{
  Str, Map, false, ◌≡◌, refl, sym, ◌∙◌, ap, Option, none, some, is_empty, str_eq, str_eq_iff,
  trim_space, has, insert, lookup, lookup-insert, lookup-insert_self, has-false, Bool-cases,
  Option-cases, inl, inr, arith, subst, ◌↔◌,
}
use deltaflow.Model.{Ctx, Error}
use deltaflow.Runtime.Registry.{
  PipelineSpec, Factory, Registry, registered, panics, register, resolved, not_resolved,
  resolve_pipeline, PipelineRuntime, with_projector, with_applier,
}

-- The factory is found under its name, which was free, is not blank and has no outer white space;
-- every other name finds what it found.
pub record IsRegistered {V : Type 0} (m : Map (Factory V)) (name : Str) (factory : Factory V)
    (m' : Map (Factory V)) : Type 0 where
  pub was_free : lookup name m ≡ none
  pub plain : trim_space name ≡ name
  pub some_name : is_empty name ≡ false
  pub found : lookup name m' ≡ some factory
  pub others : (k : Str) → str_eq name k ≡ false → lookup k m' ≡ lookup k m

-- A registration that does not panic makes the factory found under its name, which was free, is not
-- blank and has no outer white space, and leaves what every other name finds.
pub register-IsRegistered :
    {V : Type 0} (m m' : Map (Factory V)) (name : Str) (factory : Factory V)
    → register m name (some factory) ≡ registered m'
    → IsRegistered m name factory m'
unfolding register
register-IsRegistered m m' name factory e = elim (Bool-cases (is_empty (trim_space name))) [
  | inl blank ↦ let e' : panics _ ≡ registered m' = rw blank at e in cc
  | inr given ↦ elim (Bool-cases (str_eq (trim_space name) name)) [
    | inr spaced ↦ let e' : panics _ ≡ registered m' = rw (given, spaced) at e in cc
    | inl plain ↦ elim (Bool-cases (has name m)) [
      | inl taken ↦ let e' : panics _ ≡ registered m' = rw (given, plain, taken) at e in cc
      | inr free ↦
          let same : trim_space name ≡ name = (str_eq_iff (trim_space name) name).0 plain in
          let e' : registered (insert name factory m) ≡ registered m' =
            rw (given, plain, free) at e in
          let eq : insert name factory m ≡ m' = ground arith in
          record {
            was_free = has-false name m free;
            plain = same;
            some_name = subst (λ n. is_empty n ≡ false) same given;
            found = ap (lookup name) (sym eq) ∙ lookup-insert_self name factory m;
            others =
                λ k apart. ap (lookup k) (sym eq) ∙ rw (lookup-insert name k factory m, apart) refl;
          }
    ]
  ]
]

-- What a resolved pipeline was built from.
pub record IsBuilt {P A : Type 0} (ctx : Ctx) (r : Registry P A) (spec : PipelineSpec)
    (x : PipelineRuntime P A) : Type 0 where
  pub projector_factory : Factory P
  pub applier_factory : Factory A
  pub projector_found : lookup spec.projector_name r.projectors ≡ some projector_factory
  pub applier_found : lookup spec.target_type r.appliers ≡ some applier_factory
  pub projector_built : projector_factory ctx spec ≡ (some x.projector, none)
  pub applier_built : applier_factory ctx spec ≡ (some x.applier, none)
  pub same_spec : x.spec ≡ spec

with_applier-built :
    {P A : Type 0} (spec : PipelineSpec) (p : P) (a : Option A × Option Error)
    (x : PipelineRuntime P A)
    → with_applier spec p a ≡ resolved x
    → (a ≡ (some x.applier, none)) × (x.projector ≡ p) × (x.spec ≡ spec)
with_applier-built spec p (a, some e) x h = cc
with_applier-built spec p (none, none) x h = cc
with_applier-built spec p (some a, none) x h =
    let same : record { spec = spec; projector = p; applier = a } ≡ x = ground arith in
    (
      ap (λ y. (some y.applier, none)) same,
      ap (λ y. y.projector) (sym same),
      ap (λ y. y.spec) (sym same),
    )

with_projector-built :
    {P A : Type 0} (ctx : Ctx) (spec : PipelineSpec) (factory : Factory A)
    (p : Option P × Option Error) (x : PipelineRuntime P A)
    → with_projector ctx spec factory p ≡ resolved x
    → (p ≡ (some x.projector, none)) × (factory ctx spec ≡ (some x.applier, none)) × (x.spec ≡ spec)
with_projector-built ctx spec factory (p, some e) x h = cc
with_projector-built ctx spec factory (none, none) x h = cc
with_projector-built ctx spec factory (some p, none) x h =
    let (built, same, given) = with_applier-built spec p (factory ctx spec) x h in
    (ap (λ q. (some q, none)) (sym same), built, given)

resolve_pipeline-IsBuilt :
    {P A : Type 0} (ctx : Ctx) (r : Registry P A) (spec : PipelineSpec) (x : PipelineRuntime P A)
    → resolve_pipeline ctx (some r) spec ≡ resolved x
    → IsBuilt ctx r spec x
unfolding resolve_pipeline
resolve_pipeline-IsBuilt ctx r spec x h =
    elim (Option-cases (lookup spec.projector_name r.projectors)) [
      | inl gone ↦ let h' : not_resolved _ ≡ resolved x = rw (gone, resolve_pipeline) at h in cc
      | inr (pf, found) ↦ elim (Option-cases (lookup spec.target_type r.appliers)) [
        | inl gone ↦
            let h' : not_resolved _ ≡ resolved x = rw (found, gone, resolve_pipeline) at h in cc
        | inr (af, found') ↦
            let h' : with_projector ctx spec af (pf ctx spec) ≡ resolved x =
              rw (found, found', resolve_pipeline) at h in
            let (p, a, given) = with_projector-built ctx spec af (pf ctx spec) x h' in
            record {
              projector_factory = pf;
              applier_factory = af;
              projector_found = found;
              applier_found = found';
              projector_built = p;
              applier_built = a;
              same_spec = given;
            }
      ]
    ]

IsBuilt-resolve_pipeline :
    {P A : Type 0} (ctx : Ctx) (r : Registry P A) (spec : PipelineSpec) (x : PipelineRuntime P A)
    → IsBuilt ctx r spec x
    → resolve_pipeline ctx (some r) spec ≡ resolved x
unfolding resolve_pipeline
IsBuilt-resolve_pipeline ctx r spec x b =
    rw (resolve_pipeline, b.projector_found, b.applier_found, b.projector_built, b.applier_built)
      (ap (λ s. resolved (record { spec = s; projector = x.projector; applier = x.applier }))
        (sym b.same_spec))

-- A pipeline is resolved exactly when both of its factories are registered and each answers a value
-- and no error; the runtime then holds these values and the specification.
pub resolve_pipeline_iff :
    {P A : Type 0} (ctx : Ctx) (r : Registry P A) (spec : PipelineSpec) (x : PipelineRuntime P A)
    → (resolve_pipeline ctx (some r) spec ≡ resolved x) ↔ IsBuilt ctx r spec x
resolve_pipeline_iff ctx r spec x =
    (resolve_pipeline-IsBuilt ctx r spec x, IsBuilt-resolve_pipeline ctx r spec x)
