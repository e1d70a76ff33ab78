-- ===== src/Config/Accepted.antt =====
-- Which configurations `Validate` of internal/config/config.go accepts.
use deltaflow.Prelude.{
  ℕ, suc, ℤ, pos, Str, true, false, if◌then◌else◌, not, ◌&&◌, ◌≡◌, refl, ◌⊎◌, inl, inr, none, some,
  List, [], ◌∷◌, ◌++◌, codes, itoa, is_empty, is_nonpos, str_eq, str_eq_iff, str_lt, sort_by, ap,
  negsuc, ◌↔◌, All, Bool-cases, ==_iff, arith,
}
use deltaflow.Config.Schema.{
  Config, StoreConfig, PipelineConfig, Tools, Checked, valid, field_errors, other_error, Parsed,
  parsed, unparsable,
}
use deltaflow.Config.Validate.{
  validation_issues, store_issues, concurrency_issues, lease_issues, must_be, pipeline_issues,
  all_issues, field_issues, validate, dedupe, is_one, parse_positive_duration,
}

abbrev pub IsBlankOr : Str → Str → Type 0
IsBlankOr allowed s = (s ≡ []) ⊎ (s ≡ allowed)

-- A pipeline of the one supported kind, as far as its kinds are given.
abbrev pub IsSupported : PipelineConfig → Type 0
IsSupported p =
    IsBlankOr (codes "postgres-outbox") p.source.type
    × IsBlankOr (codes "elasticsearch") p.target.type
    × IsBlankOr (codes "upsert") p.applier.mode

-- The lease is a positive duration, if it is given.
abbrev pub IsLease : Tools → Str → Type 0
IsLease tools lease_ttl =
    (lease_ttl ≡ [])
    ⊎ ((d : ℤ) × (tools.parse_duration lease_ttl ≡ parsed d) × (is_nonpos d ≡ false))

pub record IsAccepted (tools : Tools) (c : Config) : Type 0 where
  pub checked : (tools.check c ≡ valid) ⊎ (tools.check c ≡ field_errors [])
  pub store :
      (c.store.type ≡ []) ⊎ (c.store.type ≡ codes "postgres") ⊎ (c.store.type ≡ codes "sqlite")
  pub single : (str_eq c.store.type (codes "sqlite") ≡ false) ⊎ (c.workers.concurrency ≡ pos 1)
  pub lease : IsLease tools c.workers.lease_ttl
  pub pipelines : All IsSupported c.pipelines

append-nil : (xs ys : List Str) → xs ++ ys ≡ [] → (xs ≡ []) × (ys ≡ [])
append-nil [] ys h = (refl, h)
append-nil (x ∷ xs) ys h = cc

is_empty-true : (s : Str) → is_empty s ≡ true → s ≡ []
is_empty-true [] h = refl
is_empty-true (c ∷ s) h = cc

must_be-nil : (field allowed s : Str) → must_be field allowed s ≡ [] → IsBlankOr allowed s
must_be-nil field allowed s h = elim (Bool-cases (is_empty s)) [
  | inl e ↦ inl (is_empty-true s e)
  | inr e ↦ elim (Bool-cases (str_eq s allowed)) [
    | inl f ↦ inr ((str_eq_iff s allowed).0 f)
    | inr f ↦
        let some_issue : must_be field allowed s ≡ (field ++ codes " must be " ++ allowed) ∷ [] =
          rw (e, f) refl in
        cc
  ]
]

nil-must_be : (field allowed s : Str) → IsBlankOr allowed s → must_be field allowed s ≡ []
nil-must_be field allowed s (inl h) = rw h refl
nil-must_be field allowed s (inr h) =
    let same : str_eq s allowed ≡ true = (str_eq_iff s allowed).1 h in rw same (ground arith)

pipeline_issues-nil :
    (i : ℕ) (ps : List PipelineConfig) → pipeline_issues i ps ≡ [] → All IsSupported ps
unfolding pipeline_issues
pipeline_issues-nil i [] h = tt
pipeline_issues-nil i (p ∷ ps) h =
    let (source, rest) = append-nil _ _ h in
    let (target, rest') = append-nil _ _ rest in
    let (mode, rest'') = append-nil _ _ rest' in
    (
      (
        must_be-nil (codes "pipelines[" ++ itoa i ++ codes "]" ++ codes ".source.type") _ _ source,
        must_be-nil (codes "pipelines[" ++ itoa i ++ codes "]" ++ codes ".target.type") _ _ target,
        must_be-nil (codes "pipelines[" ++ itoa i ++ codes "]" ++ codes ".applier.mode") _ _ mode,
      ),
      pipeline_issues-nil (suc i) ps rest'',
    )

nil-pipeline_issues :
    (i : ℕ) (ps : List PipelineConfig) → All IsSupported ps → pipeline_issues i ps ≡ []
unfolding pipeline_issues
nil-pipeline_issues i [] h = refl
nil-pipeline_issues i (p ∷ ps) h =
    rw
      (
        nil-must_be _ (codes "postgres-outbox") p.source.type h.0.0,
        nil-must_be _ (codes "elasticsearch") p.target.type h.0.1,
        nil-must_be _ (codes "upsert") p.applier.mode h.0.2,
      )
      (nil-pipeline_issues (suc i) ps h.1)

concurrency_issues-nil :
    (c : Config)
    → concurrency_issues c ≡ []
    → (str_eq c.store.type (codes "sqlite") ≡ false) ⊎ (c.workers.concurrency ≡ pos 1)
concurrency_issues-nil c h = elim (Bool-cases (str_eq c.store.type (codes "sqlite"))) [
  | inr e ↦ inl e
  | inl e ↦ inr (
      is_one-true c.workers.concurrency
        (not_issue (codes "sqlite supports only workers.concurrency=1") (rw e at h)))
]
  where
    is_one-true : (n : ℤ) → is_one n ≡ true → n ≡ pos 1
    is_one-true (pos n) g = ap pos ((==_iff n 1).0 g)
    is_one-true (negsuc n) g = cc

    not_issue :
        (text : Str)
        → (if true && not (is_one c.workers.concurrency) then text ∷ [] else []) ≡ []
        → is_one c.workers.concurrency ≡ true
    not_issue text g = ground arith

lease_issues-nil :
    (tools : Tools) (t : Str) (r : Parsed)
    → tools.parse_duration t ≡ r
    → lease_issues tools t ≡ []
    → IsLease tools t
lease_issues-nil tools t (parsed d) e h = elim (Bool-cases (is_empty t)) [
  | inl blank ↦ inl (is_empty-true t blank)
  | inr given ↦ elim (Bool-cases (is_nonpos d)) [
    | inr good ↦ inr (d, e, good)
    | inl bad ↦
        let one_issue : lease_issues tools t
            ≡ (codes "workers.lease_ttl " ++ codes "must be positive") ∷ [] =
          rw (given, e, bad, lease_issues, parse_positive_duration) refl in
        cc
  ]
]
lease_issues-nil tools t (unparsable text) e h = elim (Bool-cases (is_empty t)) [
  | inl blank ↦ inl (is_empty-true t blank)
  | inr given ↦
      let one_issue : lease_issues tools t
          ≡ (codes "workers.lease_ttl " ++ (codes "must be a valid duration: " ++ text)) ∷ [] =
        rw (given, e, lease_issues, parse_positive_duration) refl in
      cc
]

nil-lease_issues : (tools : Tools) (t : Str) → IsLease tools t → lease_issues tools t ≡ []
nil-lease_issues tools t (inl blank) = rw blank refl
nil-lease_issues tools t (inr (d, e, good)) = elim (Bool-cases (is_empty t)) [
  | inl blank ↦ rw (blank, lease_issues) refl
  | inr given ↦ rw (given, e, good, lease_issues, parse_positive_duration) refl
]

store_issues-nil :
    (store : StoreConfig)
    → store_issues store ≡ []
    → (store.type ≡ []) ⊎ (store.type ≡ codes "postgres") ⊎ (store.type ≡ codes "sqlite")
store_issues-nil store h = elim (Bool-cases (is_empty store.type)) [
  | inl blank ↦ inl (is_empty-true store.type blank)
  | inr given ↦ elim (Bool-cases (str_eq store.type (codes "postgres"))) [
    | inl e ↦ inr (inl ((str_eq_iff store.type (codes "postgres")).0 e))
    | inr e ↦ elim (Bool-cases (str_eq store.type (codes "sqlite"))) [
      | inl f ↦ inr (inr ((str_eq_iff store.type (codes "sqlite")).0 f))
      | inr f ↦
          let one_issue : store_issues store ≡ codes "store.type must be postgres or sqlite" ∷ [] =
            rw (given, e, f, store_issues) refl in
          cc
    ]
  ]
]

nil-store_issues :
    (store : StoreConfig)
    → (store.type ≡ []) ⊎ (store.type ≡ codes "postgres") ⊎ (store.type ≡ codes "sqlite")
    → store_issues store ≡ []
nil-store_issues store (inl blank) =
    let e : is_empty store.type ≡ true = rw blank refl in rw (e, store_issues) refl
nil-store_issues store (inr (inl h)) =
    let e = (str_eq_iff store.type (codes "postgres")).1 h in rw (e, store_issues) (ground arith)
nil-store_issues store (inr (inr h)) =
    let e = (str_eq_iff store.type (codes "sqlite")).1 h in rw (e, store_issues) (ground arith)

nil-concurrency_issues :
    (c : Config)
    → (str_eq c.store.type (codes "sqlite") ≡ false) ⊎ (c.workers.concurrency ≡ pos 1)
    → concurrency_issues c ≡ []
nil-concurrency_issues c (inl e) = rw (e, concurrency_issues) refl
nil-concurrency_issues c (inr h) =
    let e : is_one c.workers.concurrency ≡ true = rw h (ground arith) in
    rw (e, concurrency_issues) (ground arith)

validation_issues-nil :
    (r : Checked) → validation_issues r ≡ [] → (r ≡ valid) ⊎ (r ≡ field_errors [])
unfolding field_issues
validation_issues-nil valid h = inl refl
validation_issues-nil (field_errors []) h = inr refl
validation_issues-nil (field_errors (e ∷ es)) h = cc
validation_issues-nil (other_error text) h = cc

nil-validation_issues :
    (r : Checked) → (r ≡ valid) ⊎ (r ≡ field_errors []) → validation_issues r ≡ []
unfolding field_issues
nil-validation_issues r (inl h) = rw h refl
nil-validation_issues r (inr h) = rw h refl

validate-nil : (tools : Tools) (c : Config) → validate tools c ≡ none → all_issues tools c ≡ []
unfolding validate
validate-nil tools c h = go (all_issues tools c) refl
  where
    go : (issues : List Str) → all_issues tools c ≡ issues → issues ≡ []
    go [] e = refl
    go (issue ∷ issues) e =
        let refused : validate tools c ≡ some (dedupe (sort_by str_lt (issue ∷ issues))) =
          rw (e, validate) refl in
        cc

-- `Validate` of a configuration answers no error exactly when the validator reports nothing, the
-- type of the store is blank, postgres or sqlite, a SQLite store has one worker, the lease is
-- blank or a positive duration, and the kinds of each pipeline's source, target and applier are
-- blank or the supported ones.
pub validate_iff : (tools : Tools) (c : Config) → (validate tools c ≡ none) ↔ IsAccepted tools c
unfolding validate all_issues
validate_iff tools c = (
  λ h.
      let (checked, rest) = append-nil _ _ (validate-nil tools c h) in
      let (store, rest') = append-nil _ _ rest in
      let (single, rest'') = append-nil _ _ rest' in
      let (lease, pipelines) = append-nil _ _ rest'' in
      record {
        checked = validation_issues-nil _ checked;
        store = store_issues-nil c.store store;
        single = concurrency_issues-nil c single;
        lease = lease_issues-nil tools c.workers.lease_ttl _ refl lease;
        pipelines = pipeline_issues-nil 0 c.pipelines pipelines;
      },
  λ a.
      rw
        (
          nil-validation_issues (tools.check c) a.checked,
          nil-store_issues c.store a.store,
          nil-concurrency_issues c a.single,
          nil-lease_issues tools c.workers.lease_ttl a.lease,
          nil-pipeline_issues 0 c.pipelines a.pipelines,
          validate,
          all_issues,
        )
        refl,
)
