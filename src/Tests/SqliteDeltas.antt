-- ===== src/Tests/SqliteDeltas.antt =====
-- Runs of the delta store and the dispatch of pkg/connectors/sqlite.
use deltaflow.Prelude.{true, ◌≡◌, refl, pos, none, [], ◌∷◌, codes, itoa, str_eq}
use deltaflow.Model.{Delta, Error, ok}
use deltaflow.Dedup.{compute_dedup_key, projection_key_hash}
use deltaflow.Connectors.Prepare.{prepare_delta_for_enqueue, prepared_delta}
use deltaflow.Sqlite.Create.{new_id}
use deltaflow.Sqlite.DeltaRows.{DeltaRow, delta_of, scan_delta}
use deltaflow.Sqlite.Deltas.{enqueue, delta_row_of}
use deltaflow.Sqlite.DeltaBatch.{enqueue_batch}
use deltaflow.Sqlite.DeltaDispatch.{Tables, dispatch_pending}
use deltaflow.Sqlite.Atomic.{IsAllOrNothing, enqueue-duplicate}
use deltaflow.Sqlite.Counted.{IsCounted, enqueue_batch-IsCounted}
use deltaflow.Sqlite.Delivered.{IsDispatched, dispatch_pending-IsDispatched}
use deltaflow.Tests.Deltas.{change}
use deltaflow.Tests.Sqlite.{json, quiet, quiet-IsQuiet, epoch_time}

abbrev taken : Error
taken = Error.external (codes "UNIQUE constraint failed: deltaflow_deltas.id")

-- The delta of the runs, prepared and written.
abbrev prepared : Delta
prepared = prepared_delta json.codec change (codes "ab") epoch_time

abbrev stored_row : DeltaRow
stored_row = delta_row_of prepared (codes "delta-0-0000") (codes "{}") (codes "null")

abbrev new_row : DeltaRow
new_row = delta_row_of prepared (codes "delta-0-00ff") (codes "{}") (codes "null")

enqueue-duplicate_example :
    enqueue json taken quiet (stored_row ∷ []) change (ok (codes "00ff")) epoch_time
    ≡ (stored_row ∷ [], ok (delta_of stored_row [] none))
unfolding prepare_delta_for_enqueue projection_key_hash new_id itoa str_eq scan_delta
    compute_dedup_key
enqueue-duplicate_example =
    enqueue-duplicate json taken quiet quiet-IsQuiet (stored_row ∷ []) change
      (delta_of stored_row [] none) (ok (codes "00ff")) epoch_time new_row stored_row []
      (codes "ab") refl refl refl refl refl refl refl

enqueue_batch-IsCounted_example :
    IsAllOrNothing (stored_row ∷ []) (IsCounted (stored_row ∷ []) (change ∷ change ∷ [])) (
      enqueue_batch json taken 10 quiet none
        (λ n. quiet)
        (λ n. epoch_time)
        (λ n. ok (codes "00ff"))
        (stored_row ∷ [])
        (change ∷ change ∷ []))
enqueue_batch-IsCounted_example =
    enqueue_batch-IsCounted json taken 10 quiet none (λ n. quiet) (λ n. epoch_time)
      (λ n. ok (codes "00ff")) (stored_row ∷ []) (change ∷ change ∷ [])

abbrev tables : Tables
tables = record { deltas = stored_row ∷ []; jobs = [] }

dispatch_pending-IsDispatched_example :
    IsAllOrNothing tables (IsDispatched tables (codes "contacts") (pos 5)) (
      dispatch_pending
        (record { has_stores = true; has_databases = true; shares_database = true })
        json
        taken
        5
        quiet
        (λ n. quiet)
        (λ n. ok (codes "00ff"))
        tables
        (codes "contacts")
        (pos 5)
        epoch_time)
dispatch_pending-IsDispatched_example =
    dispatch_pending-IsDispatched
      (record { has_stores = true; has_databases = true; shares_database = true }) json taken 5
      quiet (λ n. quiet) (λ n. ok (codes "00ff")) tables (codes "contacts") (pos 5) epoch_time
