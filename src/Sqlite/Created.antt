-- ===== src/Sqlite/Created.antt =====
-- What `Create` of pkg/connectors/sqlite/job_store.go writes, and what is read back.
use deltaflow.Prelude.{
  ℕ, suc, Str, Bool, true, false, ◌≡◌, refl, sym, ap, subst, Option, none, some, List, [], ◌∷◌,
  ◌++◌, ltb, length, select, str_eq_refl, codes, is_empty, Bool-cases, inl, inr, arith,
}
use deltaflow.Model.{Time, SyncJob, Result, ok}
use deltaflow.Connectors.Prepare.{prepare_job_for_create}
use deltaflow.Sqlite.Sql.{Session, time_ptr_micros, time_of_null}
use deltaflow.Sqlite.Rows.{Json, JobRow, job_of, scan_sync_job}
use deltaflow.Sqlite.Create.{
  Constraints, new_id, insert_violation, row_of, get, insert_job, create, create_row, has_id,
  any_row,
}
use deltaflow.Sqlite.Transitions.{stored, ghost_column}
use deltaflow.Sqlite.Refinement.{IsQuiet}

abbrev pub stored_option : Option Time → Option Time
stored_option none = none
stored_option (some t) = some (stored t)

-- The job with an identifier, its moments cut to the microsecond.
abbrev pub stored_job : SyncJob → Str → SyncJob
stored_job job id = record job {
  id = id;
  available_at = stored job.available_at;
  locked_until = stored_option job.locked_until;
  synced_at = stored_option job.synced_at;
  dead_at = stored_option job.dead_at;
  created_at = stored job.created_at;
  updated_at = stored job.updated_at;
}

option_roundtrip : (t : Option Time) → time_of_null (time_ptr_micros t) ≡ stored_option t
option_roundtrip none = refl
option_roundtrip (some t) = refl

job_of-row_of :
    (job : SyncJob) (id key : Str)
    → job_of (row_of job id key) job.projection_key ≡ stored_job job id
job_of-row_of job id key =
    rw
      (
        option_roundtrip job.locked_until,
        option_roundtrip job.synced_at,
        option_roundtrip job.dead_at,
        sym (ghost_column job.ghost_detected),
      )
      refl

-- A row that was written from a job reads as the job.
row_roundtrip :
    (json : Json) (job : SyncJob) (id key : Str)
    → json.unmarshal_key key ≡ ok job.projection_key
    → scan_sync_job json (row_of job id key) ≡ ok (stored_job job id)
unfolding scan_sync_job
row_roundtrip json job id key h = rw h (ap ok (job_of-row_of job id key))

select_none :
    (p : JobRow → Bool) (rows : List JobRow) (row : JobRow)
    → any_row p rows ≡ false
    → p row ≡ true
    → select p (rows ++ row ∷ []) ≡ row ∷ []
select_none p [] row h hit = rw hit refl
select_none p (x ∷ rows) row h hit = elim (Bool-cases (p x)) [
  | inl e ↦
      let absurdity : ltb 0 (suc (length (select p rows))) ≡ false = rw e at h in
      let never : ⊥ = ground arith in elim never [ ]
  | inr e ↦ rw e (select_none p rows row (rw e at h) hit)
]

-- The row of no identifier that is there, and of no delta that has an outbox job, is inserted.
pub violation-none :
    (c : Constraints) (rows : List JobRow) (row : JobRow)
    → insert_violation c rows row ≡ none
    → any_row (has_id row.id) rows ≡ false
unfolding insert_violation
violation-none c rows row h = ground arith

module _ (json : Json) (c : Constraints) (io : Session) (quiet : IsQuiet io)
    (rows : List JobRow) where
  get-found :
      (at step : ℕ) (job : SyncJob) (id key : Str)
      → any_row (has_id id) rows ≡ false
      → json.unmarshal_key key ≡ ok job.projection_key
      → get json io at step (rows ++ row_of job id key ∷ []) id ≡ ok (some (stored_job job id))
  unfolding get
  get-found at step job id key fresh decoded =
      rw
        (
          quiet.ctx at,
          quiet.fault step,
          select_none (has_id id) rows (row_of job id key) fresh (str_eq_refl id),
          row_roundtrip json job id key decoded,
          get,
        )
        refl

  pub insert_job-found :
      (job : SyncJob) (id key : Str)
      → insert_violation c rows (row_of job id key) ≡ none
      → json.unmarshal_key key ≡ ok job.projection_key
      → insert_job json c io rows (row_of job id key)
        ≡ (rows ++ row_of job id key ∷ [], ok (stored_job job id))
  unfolding insert_job
  insert_job-found job id key free decoded =
      rw
        (
          quiet.fault 0,
          free,
          get-found 1 1 job id key (violation-none c rows (row_of job id key) free) decoded,
          insert_job,
        )
        refl

  -- Where no step of the engine fails and the row breaks no constraint, `Create` of the SQLite
  -- store answers the prepared job with its new identifier and its moments cut to the microsecond,
  -- and `Get` of that identifier then reads the same job, if the text of its projection key
  -- decodes to the key.
  pub create_roundtrip :
      (job normalized : SyncJob) (max_attempts : ℕ) (random : Result Str) (now : Time)
      (id key : Str) (at step : ℕ)
      → is_empty job.id ≡ true
      → prepare_job_for_create json.codec max_attempts job now ≡ ok normalized
      → new_id (codes "job") normalized.created_at random ≡ ok id
      → json.codec.marshal normalized.projection_key ≡ ok key
      → json.unmarshal_key key ≡ ok normalized.projection_key
      → insert_violation c rows (row_of normalized id key) ≡ none
      → (create json c max_attempts io rows job random now
          ≡ (rows ++ row_of normalized id key ∷ [], ok (stored_job normalized id)))
        × (get json io at step (create json c max_attempts io rows job random now).0 id
            ≡ ok (some (stored_job normalized id)))
  unfolding create
  create_roundtrip job normalized m random now id key at step unnamed prepared named marshalled
        decoded free =
      let row : create_row json m job random now ≡ ok (row_of normalized id key) =
        rw (prepared, named, marshalled, create_row) refl in
      let made : create json c m io rows job random now
          ≡ (rows ++ row_of normalized id key ∷ [], ok (stored_job normalized id)) =
        rw (quiet.ctx 0, unnamed, row, insert_job-found normalized id key free decoded, create)
          refl in
      (
        made,
        subst (λ r. get json io at step r.0 id ≡ ok (some (stored_job normalized id))) (sym made)
            (get-found at step normalized id key
              (violation-none c rows (row_of normalized id key) free) decoded),
      )
