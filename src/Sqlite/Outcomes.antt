-- ===== src/Sqlite/Outcomes.antt =====
-- The outcomes of `Create` of pkg/connectors/sqlite/job_store.go, with the errors of the engine as
-- SQLite words them.
use deltaflow.Prelude.{Str, true, false, ◌≡◌, ◌&&◌, List, [], ◌∷◌, ◌++◌, none, codes}
use deltaflow.Model.{SyncJob, Result, ok, err, is_outbox, delta_already_mapped, error_text}
use deltaflow.Sqlite.Rows.{JobRow}
use deltaflow.Sqlite.Create.{Constraints, has_id, any_row, maps_delta}

-- The texts of a violated primary key and of a violated index on the delta.
abbrev pub primary_key_text : Str
primary_key_text =
    codes "constraint failed: UNIQUE constraint failed: deltaflow_sync_jobs.id (1555)"

abbrev pub outbox_delta_text : Str
outbox_delta_text =
    codes "constraint failed: UNIQUE constraint failed: deltaflow_sync_jobs.delta_id (2067)"

-- The engine's errors have these texts, and neither an SQL state nor a field `Code` that is a string.
pub record WordsErrors (c : Constraints) : Type 0 where
  pub primary_key_words : error_text c.primary_key ≡ primary_key_text
  pub outbox_delta_words : error_text c.outbox_delta_unique ≡ outbox_delta_text
  pub primary_key_state : c.view.sql_state c.primary_key ≡ none
  pub outbox_delta_state : c.view.sql_state c.outbox_delta_unique ≡ none
  pub primary_key_code : c.view.code_field c.primary_key ≡ none
  pub outbox_delta_code : c.view.code_field c.outbox_delta_unique ≡ none
  pub lower_primary_key :
      c.view.to_lower primary_key_text
      ≡ codes "constraint failed: unique constraint failed: deltaflow_sync_jobs.id (1555)"
  pub lower_outbox_delta :
      c.view.to_lower outbox_delta_text
      ≡ codes "constraint failed: unique constraint failed: deltaflow_sync_jobs.delta_id (2067)"

-- A row is refused for its identifier, refused for its delta, or added and read back as the job.
pub data IsCreated (c : Constraints) (rows : List JobRow) (row : JobRow) (job : SyncJob)
    (r : List JobRow × Result SyncJob) : Type 0 where
  identifier_taken :
      any_row (has_id row.id) rows ≡ true
      → r ≡ (rows, err c.primary_key)
      → IsCreated c rows row job r
  delta_mapped :
      any_row (has_id row.id) rows ≡ false
      → is_outbox row.origin ≡ true
      → any_row (maps_delta row.delta_id) rows ≡ true
      → r ≡ (rows, err delta_already_mapped)
      → IsCreated c rows row job r
  added :
      any_row (has_id row.id) rows ≡ false
      → is_outbox row.origin && any_row (maps_delta row.delta_id) rows ≡ false
      → r ≡ (rows ++ row ∷ [], ok job)
      → IsCreated c rows row job r
