-- ===== src/Config/Schema.antt =====
-- internal/config/config.go: the parsed configuration, and what the validator and `time.ParseDuration`
-- answer. An optional integer is a pointer.
use deltaflow.Prelude.{ℤ, Str, Option, List}

pub record StoreConfig : Type 0 where
  pub type : Str
  pub dsn : Str

pub record WorkersConfig : Type 0 where
  pub concurrency : ℤ
  pub lease_ttl : Str
  pub batch_size : Option ℤ
  pub pull_size : Option ℤ
  pub max_attempts : Option ℤ

pub record SourceConfig : Type 0 where
  pub type : Str
  pub projection_type : Str

pub record ProjectorConfig : Type 0 where
  pub name : Str

pub record TargetConfig : Type 0 where
  pub type : Str
  pub index : Str

pub record ApplierConfig : Type 0 where
  pub mode : Str

pub record PipelineConfig : Type 0 where
  pub name : Str
  pub sync_id : Str
  pub source : SourceConfig
  pub projector : ProjectorConfig
  pub target : TargetConfig
  pub applier : ApplierConfig

pub record Config : Type 0 where
  pub store : StoreConfig
  pub workers : WorkersConfig
  pub pipelines : List PipelineConfig

-- A `FieldError` of the validator: its namespace, tag and parameter.
pub record FieldError : Type 0 where
  pub namespace : Str
  pub tag : Str
  pub param : Str

-- What `v.Struct` returns: nil, the errors of the fields, or another error with its text.
pub data Checked : Type 0 where
  valid : Checked
  field_errors : List FieldError → Checked
  other_error : Str → Checked

-- A duration in nanoseconds, or the text of an error.
pub data Parsed : Type 0 where
  parsed : ℤ → Parsed
  unparsable : Str → Parsed

-- `check` is the validator, and `parse_duration` is `time.ParseDuration`.
pub record Tools : Type 0 where
  pub check : Config → Checked
  pub parse_duration : Str → Parsed
