-- ===== src/Sqlite/Leases.antt =====
-- pkg/connectors/sqlite/job_store.go: `listLeases`, the three queries of leases, and `collectJobs`.
-- The steps of a session are the query (0) and the error of the cursor (1).
use deltaflow.Prelude.{
  ℕ, ℤ, Str, Bool, true, false, if◌then◌else◌, not, ◌&&◌, ◌||◌, ◌==◌, Option, none, some, List, [],
  ltb, is_nonpos, is_neg, to_count, add_duration, is_empty, str_eq, str_lt, select, sort_by, take,
}
use deltaflow.Model.{
  Time, SyncJob, is_processing, invalid_lease_window, Result, ok, err, nil_dereference, diverges,
}
use deltaflow.Sqlite.Sql.{Session, micros_from_time, null_gt, null_le, is_null}
use deltaflow.Sqlite.Rows.{Json, JobRow, scan_jobs}

-- An ascending order of nullable numbers, where NULL comes first.
abbrev pub null_before : Option ℕ → Option ℕ → Bool
null_before none none = false
null_before none (some b) = true
null_before (some a) none = false
null_before (some a) (some b) = ltb a b

-- `ORDER BY locked_until_micros ASC, updated_at_micros ASC, id ASC`
unfoldable pub lease_row_before : JobRow → JobRow → Bool
lease_row_before left right =
    if null_before left.locked_until_micros right.locked_until_micros
    then true
    else if null_before right.locked_until_micros left.locked_until_micros
    then false
    else if not (left.updated_at_micros == right.updated_at_micros)
    then ltb left.updated_at_micros right.updated_at_micros
    else str_lt left.id right.id

-- `AND sync_id = ?`, which is left out for the empty identifier.
abbrev pub in_sync : Str → JobRow → Bool
in_sync sync_id row = is_empty sync_id || str_eq row.sync_id sync_id

-- The rows of the query, before they are scanned.
unfoldable pub lease_rows : List JobRow → Str → (JobRow → Bool) → ℕ → List JobRow
unfolding lease_row_before
lease_rows rows sync_id predicate limit = take limit (
    sort_by lease_row_before
      (select (λ row. is_processing row.state && predicate row && in_sync sync_id row) rows))

-- `collectJobs`; an error of the cursor comes after the rows.
abbrev pub collect_jobs : Json → Session → List JobRow → Result (List SyncJob)
collect_jobs json io rows = elim (scan_jobs json rows) [
  | ok jobs ↦ elim (io.fault 1) [ some e ↦ err e | none ↦ ok jobs ]
  | err e ↦ err e
  | nil_dereference ↦ nil_dereference
  | diverges ↦ diverges
]

-- `listLeases`
unfoldable pub list_leases :
    Json → Session → List JobRow → Str → (JobRow → Bool) → ℕ → Result (List SyncJob)
unfolding lease_rows scan_jobs
list_leases json io rows sync_id predicate limit = elim (io.fault 0) [
  | some e ↦ err e
  | none ↦ collect_jobs json io (lease_rows rows sync_id predicate limit)
]

-- `locked_until_micros > ?`
abbrev pub is_active_row : ℕ → JobRow → Bool
is_active_row now row = null_gt row.locked_until_micros now

-- `locked_until_micros IS NULL OR locked_until_micros <= ?`
abbrev pub is_expired_lease_row : ℕ → JobRow → Bool
is_expired_lease_row now row =
    is_null row.locked_until_micros || null_le row.locked_until_micros now

-- `locked_until_micros > ? AND locked_until_micros <= ?`
abbrev pub is_near_expiry_row : ℕ → ℕ → JobRow → Bool
is_near_expiry_row now threshold row =
    null_gt row.locked_until_micros now && null_le row.locked_until_micros threshold

-- `ListActiveLeases`; an empty list is a nil one.
unfoldable pub list_active_leases :
    Json → Session → List JobRow → Str → ℤ → Time → Result (List SyncJob)
unfolding list_leases
list_active_leases json io rows sync_id limit now = elim (io.ctx 0) [
  | some e ↦ err e
  | none ↦
      if is_nonpos limit
      then ok []
      else list_leases json io rows sync_id (is_active_row (micros_from_time now)) (to_count limit)
]

-- `ListExpiredProcessingLeases`
unfoldable pub list_expired_processing_leases :
    Json → Session → List JobRow → Str → ℤ → Time → Result (List SyncJob)
unfolding list_leases
list_expired_processing_leases json io rows sync_id limit now = elim (io.ctx 0) [
  | some e ↦ err e
  | none ↦
      if is_nonpos limit
      then ok []
      else list_leases json io rows sync_id (is_expired_lease_row (micros_from_time now))
          (to_count limit)
]

-- `ListNearExpiryLeases`, whose query is the one of `listLeases` with its own condition.
unfoldable pub list_near_expiry_leases :
    Json → Session → List JobRow → Str → ℤ → ℤ → Time → Result (List SyncJob)
unfolding list_leases
list_near_expiry_leases json io rows sync_id within limit now = elim (io.ctx 0) [
  | some e ↦ err e
  | none ↦
      if is_neg within
      then err invalid_lease_window
      else if is_nonpos limit
      then ok []
      else list_leases json io rows sync_id
          (is_near_expiry_row (micros_from_time now) (micros_from_time (add_duration now within)))
          (to_count limit)
]
