-- ===== src/Connectors/Violations.antt =====
-- pkg/connectors/delta_store_base.go `IsUniqueViolation`, and `isOutboxDeltaMappedViolation` of
-- pkg/connectors/sqlite/job_store.go. What reflection and `errors.As` find in an error, and
-- `strings.ToLower`, are parameters.
use deltaflow.Prelude.{
  Str, Bool, true, false, if◌then◌else◌, ◌||◌, Option, none, some, [], ◌∷◌, codes, str_eq, ◌==◌,
}
use deltaflow.Model.{Error, error_text}

-- `sql_state` is what `SQLState()` of the first error in the chain that has it returns, and
-- `code_field` is the field `Code` of the error's struct, if it is a string.
pub record ErrorView : Type 0 where
  pub sql_state : Error → Option Str
  pub code_field : Error → Option Str
  pub to_lower : Str → Str

-- `strings.HasPrefix`
unfoldable pub has_prefix : Str → Str → Bool
has_prefix s [] = true
has_prefix [] (c ∷ prefix) = false
has_prefix (d ∷ s) (c ∷ prefix) = if d == c then has_prefix s prefix else false

-- `strings.Contains`
unfoldable pub contains : Str → Str → Bool
unfolding has_prefix
contains [] part = has_prefix [] part
contains (c ∷ s) part = if has_prefix (c ∷ s) part then true else contains s part

abbrev pub is_code : Option Str → Bool
is_code none = false
is_code (some code) = str_eq code (codes "23505")

-- `IsUniqueViolation` of an error that is not nil
unfoldable pub is_unique_violation : ErrorView → Error → Bool
unfolding contains
is_unique_violation view e = elim (view.sql_state e) [
  | some state ↦ str_eq state (codes "23505")
  | none ↦
      if is_code (view.code_field e)
      then true
      else contains (view.to_lower (error_text e)) (codes "duplicate key")
        || contains (view.to_lower (error_text e)) (codes "unique constraint")
]

-- `isOutboxDeltaMappedViolation` of an error that is not nil
unfoldable pub is_outbox_delta_mapped_violation : ErrorView → Error → Bool
unfolding is_unique_violation contains
is_outbox_delta_mapped_violation view e =
    if is_unique_violation view e
    then contains (view.to_lower (error_text e)) (codes "deltaflow_sync_jobs.delta_id")
      || contains (view.to_lower (error_text e)) (codes "deltaflow_sync_jobs_outbox_delta_unique")
    else false
