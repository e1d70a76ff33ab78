-- ===== src/Config/Validate.antt =====
-- internal/config/config.go: `Validate`. The validator package, which reads the struct tags, and
-- `time.ParseDuration` are parameters.
use deltaflow.Prelude.{
  ℕ, suc, ℤ, pos, Str, Bool, false, if◌then◌else◌, not, ◌&&◌, Option, none, some, List, [], ◌∷◌,
  ◌++◌, codes, itoa, is_empty, is_nonpos, str_eq, str_lt, sort_by, lookup, Map, ◌==◌,
}
use deltaflow.Config.Schema.{
  WorkersConfig, StoreConfig, PipelineConfig, Config, FieldError, Checked, Parsed, Tools, valid,
  field_errors, other_error, parsed, unparsable,
}

-- The names of the segments in the file.
abbrev pub segment_names : Map Str
segment_names =
    (codes "Store", codes "store")
    ∷ (codes "Workers", codes "workers")
    ∷ (codes "Pipelines", codes "pipelines")
    ∷ (codes "Source", codes "source")
    ∷ (codes "Projector", codes "projector")
    ∷ (codes "Target", codes "target")
    ∷ (codes "Applier", codes "applier")
    ∷ (codes "Type", codes "type")
    ∷ (codes "DSN", codes "dsn")
    ∷ (codes "Concurrency", codes "concurrency")
    ∷ (codes "LeaseTTL", codes "lease_ttl")
    ∷ (codes "BatchSize", codes "batch_size")
    ∷ (codes "PullSize", codes "pull_size")
    ∷ (codes "MaxAttempts", codes "max_attempts")
    ∷ (codes "Name", codes "name")
    ∷ (codes "SyncID", codes "sync_id")
    ∷ (codes "ProjectionType", codes "projection_type")
    ∷ (codes "Index", codes "index")
    ∷ (codes "Mode", codes "mode")
    ∷ []

-- A text up to the first byte `c`, and what follows it: `strings.Cut`.
unfoldable pub cut : ℕ → Str → Str × Str
cut c [] = ([], [])
cut c (d ∷ s) = let (front, back) = cut c s in if d == c then ([], s) else (d ∷ front, back)

-- `strings.Split` by one byte; `part` is what has been read of the current one.
unfoldable pub split_from : ℕ → Str → Str → List Str
split_from c part [] = part ∷ []
split_from c part (d ∷ s) =
    let next = split_from c [] s in
    let same = split_from c (part ++ d ∷ []) s in if d == c then part ∷ next else same

-- `strings.Join` by a text
unfoldable pub join : Str → List Str → Str
join sep [] = []
join sep (s ∷ []) = s
join sep (s ∷ t ∷ ss) = s ++ sep ++ join sep (t ∷ ss)

abbrev pub mapped_name : Str → Str
mapped_name name = elim (lookup name segment_names) [ none ↦ name | some mapped ↦ mapped ]

-- One segment: its name, and the index after `[`.
abbrev pub mapped_part : Str → Str
mapped_part part =
    let (name, suffix) = cut 91 part in
    if not (is_empty suffix) then mapped_name name ++ codes "[" ++ suffix else mapped_name name

unfoldable pub mapped_parts : List Str → List Str
unfolding cut
mapped_parts [] = []
mapped_parts (part ∷ parts) =
    let rest = mapped_parts parts in
    if is_empty part
    then rest
    else if str_eq part (codes "Config")
    then rest
    else mapped_part part ∷ rest

-- `configFieldName`
unfoldable pub config_field_name : Str → Str
unfolding mapped_parts split_from join
config_field_name namespace = join (codes ".") (mapped_parts (split_from 46 [] namespace))

-- The issue of one field.
unfoldable pub field_issue : FieldError → Str
unfolding config_field_name
field_issue e =
    let field = config_field_name e.namespace in
    if str_eq e.tag (codes "required")
    then field ++ codes " is required"
    else if str_eq e.tag (codes "min")
    then field ++ codes " must contain at least " ++ e.param ++ codes " item(s)"
    else if str_eq e.tag (codes "gt")
    then field ++ codes " must be greater than " ++ e.param
    else field ++ codes " failed " ++ e.tag ++ codes " validation"

unfoldable pub field_issues : List FieldError → List Str
unfolding field_issue
field_issues [] = []
field_issues (e ∷ es) = field_issue e ∷ field_issues es

-- `validationIssues`, and no issue of a nil error
abbrev pub validation_issues : Checked → List Str
validation_issues valid = []
validation_issues (field_errors es) = field_issues es
validation_issues (other_error text) = text ∷ []

-- `parsePositiveDuration`
abbrev pub parse_positive_duration : Tools → Str → Parsed
parse_positive_duration tools value = elim (tools.parse_duration value) [
  | parsed d ↦ if is_nonpos d then unparsable (codes "must be positive") else parsed d
  | unparsable text ↦ unparsable (codes "must be a valid duration: " ++ text)
]

abbrev pub store_issues : StoreConfig → List Str
store_issues store =
    if not (is_empty store.type)
      && (not (str_eq store.type (codes "postgres")) && not (str_eq store.type (codes "sqlite")))
    then codes "store.type must be postgres or sqlite" ∷ []
    else []

abbrev pub is_one : ℤ → Bool
is_one (pos n) = n == 1
is_one _ = false

abbrev pub concurrency_issues : Config → List Str
concurrency_issues c =
    if str_eq c.store.type (codes "sqlite") && not (is_one c.workers.concurrency)
    then codes "sqlite supports only workers.concurrency=1" ∷ []
    else []

abbrev pub lease_issues : Tools → Str → List Str
lease_issues tools lease_ttl =
    if not (is_empty lease_ttl)
    then elim (parse_positive_duration tools lease_ttl) [
      | parsed d ↦ []
      | unparsable text ↦ (codes "workers.lease_ttl " ++ text) ∷ []
    ]
    else []

-- An issue of a field that must be one text, if it is not empty.
abbrev pub must_be : Str → Str → Str → List Str
must_be field allowed value =
    if not (is_empty value) && not (str_eq value allowed)
    then (field ++ codes " must be " ++ allowed) ∷ []
    else []

-- The loop over the pipelines from the i-th on.
unfoldable pub pipeline_issues : ℕ → List PipelineConfig → List Str
pipeline_issues i [] = []
pipeline_issues i (p ∷ ps) =
    let prefix = codes "pipelines[" ++ itoa i ++ codes "]" in
    must_be (prefix ++ codes ".source.type") (codes "postgres-outbox") p.source.type
    ++ (must_be (prefix ++ codes ".target.type") (codes "elasticsearch") p.target.type
        ++ (must_be (prefix ++ codes ".applier.mode") (codes "upsert") p.applier.mode
            ++ pipeline_issues (suc i) ps))

-- `dedupe` after the value `prev`
unfoldable pub dedupe_from : Str → List Str → List Str
dedupe_from prev [] = []
dedupe_from prev (value ∷ values) =
    let same = dedupe_from prev values in
    let next = dedupe_from value values in if str_eq value prev then same else value ∷ next

-- `dedupe`, whose first previous value is the empty text
unfoldable pub dedupe : List Str → List Str
unfolding dedupe_from
dedupe values = dedupe_from [] values

-- The issues in the order in which they are found.
unfoldable pub all_issues : Tools → Config → List Str
unfolding field_issues pipeline_issues
all_issues tools c =
    validation_issues (tools.check c)
    ++ (store_issues c.store
        ++ (concurrency_issues c
            ++ (lease_issues tools c.workers.lease_ttl ++ pipeline_issues 0 c.pipelines)))

-- `Validate`: nothing, or the issues of a `ValidationError`.
unfoldable pub validate : Tools → Config → Option (List Str)
unfolding all_issues dedupe
validate tools c = elim (all_issues tools c) [
  | [] ↦ none
  | issue ∷ issues ↦ some (dedupe (sort_by str_lt (issue ∷ issues)))
]

-- `ValidationError.Error`
unfoldable pub validation_error_text : List Str → Str
unfolding join
validation_error_text [] = codes "invalid config"
validation_error_text (issue ∷ issues) =
    codes "invalid config:" ++ 10 ∷ codes "- " ++ join (10 ∷ codes "- ") (issue ∷ issues)

-- `LeaseTTLDuration`
abbrev pub lease_ttl_duration : Tools → WorkersConfig → Parsed
lease_ttl_duration tools w = parse_positive_duration tools w.lease_ttl
