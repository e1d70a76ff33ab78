-- ===== src/Tests/Config.antt =====
-- Runs of internal/config/config.go and internal/cli/run.go.
use deltaflow.Prelude.{
  ◌++◌, ◌≡◌, ◌↔◌, refl, pos, none, some, [], ◌∷◌, codes, sort_by, str_eq, lookup, trim_space, ◌<◌,
  ◌≤◌, ◌*◌, arith,
}
use deltaflow.Config.Schema.{
  Config, SourceConfig, TargetConfig, ProjectorConfig, ApplierConfig, StoreConfig, WorkersConfig,
  PipelineConfig, Tools, valid, parsed,
}
use deltaflow.Config.Validate.{validation_error_text, validate, config_field_name, dedupe}
use deltaflow.Worker.Config.{second}
use deltaflow.Cli.Run.{lock_heartbeat_interval, lock_renew_timeout, store_refusal}
use deltaflow.Cli.Heartbeat.{lock_heartbeat_interval-bounds}
use deltaflow.Config.Accepted.{IsAccepted, validate_iff}

-- A validator that accepts all, and durations that are all a second long.
abbrev lenient : Tools
lenient = record { check = λ c. valid; parse_duration = λ text. parsed (pos 1000000000) }

abbrev sqlite_file : StoreConfig
sqlite_file = record { type = codes "sqlite"; dsn = codes "file.db" }

abbrev one_worker : WorkersConfig
one_worker = record {
  concurrency = pos 1;
  lease_ttl = codes "1s";
  batch_size = none;
  pull_size = none;
  max_attempts = none;
}

abbrev outbox : SourceConfig
outbox = record { type = codes "postgres-outbox"; projection_type = codes "user" }

abbrev users : ProjectorConfig
users = record { name = codes "users" }

abbrev search_index : TargetConfig
search_index = record { type = codes "elasticsearch"; index = codes "users" }

abbrev upsert : ApplierConfig
upsert = record { mode = codes "upsert" }

abbrev pipeline : PipelineConfig
pipeline = record {
  name = codes "users";
  sync_id = codes "s";
  source = outbox;
  projector = users;
  target = search_index;
  applier = upsert;
}

abbrev good : Config
good = record { store = sqlite_file; workers = one_worker; pipelines = pipeline ∷ [] }

validate_iff_example : (validate lenient good ≡ none) ↔ IsAccepted lenient good
validate_iff_example = validate_iff lenient good

good-accepted : validate lenient good ≡ none
unfolding validate str_eq
good-accepted = refl

abbrev two_workers : Config
two_workers = record good { workers = record one_worker { concurrency = pos 2 } }

two_workers-refused :
    validate lenient two_workers ≡ some (codes "sqlite supports only workers.concurrency=1" ∷ [])
unfolding validate str_eq sort_by
two_workers-refused = refl

field-named :
    config_field_name (codes "Config.Pipelines[0].Source.Type") ≡ codes "pipelines[0].source.type"
unfolding config_field_name str_eq lookup
field-named = refl

values-deduped : dedupe (codes "a" ∷ codes "a" ∷ codes "b" ∷ []) ≡ codes "a" ∷ codes "b" ∷ []
unfolding dedupe str_eq
values-deduped = refl

lock_heartbeat_interval-bounds_example :
    (0 < lock_heartbeat_interval (pos 1000000000))
    × (2 * lock_heartbeat_interval (pos 1000000000) ≤ 1000000000)
    × (lock_heartbeat_interval (pos 1000000000) ≤ lock_renew_timeout (pos 1000000000))
    × (lock_renew_timeout (pos 1000000000) ≤ 10 * second)
lock_heartbeat_interval-bounds_example = lock_heartbeat_interval-bounds 1000000000 (omega arith)

half_of_lease : lock_heartbeat_interval (pos 1000000000) ≡ 500000000
unfolding lock_heartbeat_interval
half_of_lease = refl

good-runs : store_refusal good ≡ none
unfolding store_refusal str_eq trim_space
good-runs = refl

two_issues :
    validation_error_text (codes "a" ∷ codes "b" ∷ [])
    ≡ codes "invalid config:" ++ 10 ∷ codes "- a" ++ 10 ∷ codes "- b"
unfolding validation_error_text
two_issues = refl
