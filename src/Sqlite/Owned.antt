-- ===== src/Sqlite/Owned.antt =====
-- pkg/connectors/sqlite/job_store.go: `updateOwned` and the transitions of a lease's holder,
-- `updateLeaseOperator` and the operator's actions, and `jobExists`.
use deltaflow.Prelude.{
  ℕ, ◌+◌, ℤ, Str, Bool, if◌then◌else◌, ◌&&◌, ◌||◌, Option, none, some, List, ◌++◌, ltb, is_empty,
  is_nonpos, add_duration, str_eq, select, trim_space, codes, length,
}
use deltaflow.Model.{
  Time, synced, retrying, dead, is_processing, Error, error_message, invalid_lock_for,
  job_not_found, job_lease_not_owned, audit_reason_required, job_lease_not_expired,
}
use deltaflow.Sqlite.Sql.{
  Session, micros_from_time, bool_to_int, null_gt, null_le, is_null, null_eq, update_where,
  affected,
}
use deltaflow.Sqlite.Rows.{JobRow}

-- `jobExists`: its answer goes on to what follows.
unfoldable pub job_exists : Session → List JobRow → Str → Error → Option Error
job_exists io rows job_id refusal = elim (io.ctx 2) [
  | some e ↦ some e
  | none ↦ elim (io.fault 2) [
    | some e ↦ some e
    | none ↦
        if ltb 0 (length (select (λ row. str_eq row.id job_id) rows))
        then some refusal
        else some job_not_found
  ]
]

-- The body that `updateOwned` and `updateLeaseOperator` share: the statement, the rows affected, and
-- the error where there are none.
unfoldable pub update_rows :
    Session
    → List JobRow
    → Str
    → (JobRow → Bool)
    → (JobRow → JobRow)
    → Error
    → List JobRow × Option Error
unfolding job_exists update_where affected
update_rows io rows job_id condition set refusal = elim (io.ctx 1) [
  | some e ↦ (rows, some e)
  | none ↦ elim (io.fault 0) [
    | some e ↦ (rows, some e)
    | none ↦
        let rows' = update_where condition set rows in
        elim (io.fault 1) [
          | some e ↦ (rows', some e)
          | none ↦
              if ltb 0 (affected condition rows)
              then (rows', none)
              else (rows', job_exists io rows' job_id refusal)
        ]
  ]
]

-- `state = 'processing' AND locked_by = ? AND locked_until_micros > ? AND id = ?`
abbrev pub is_owned_row : Str → Str → ℕ → JobRow → Bool
is_owned_row job_id worker_id now row =
    is_processing row.state
    && null_eq row.locked_by worker_id
    && null_gt row.locked_until_micros now
    && str_eq row.id job_id

-- `updateOwned` with the condition that all its callers write
unfoldable pub update_owned :
    Session → List JobRow → Str → Str → Time → (JobRow → JobRow) → List JobRow × Option Error
unfolding update_rows
update_owned io rows job_id worker_id now set =
    update_rows io rows job_id (is_owned_row job_id worker_id (micros_from_time now)) set
      job_lease_not_owned

-- What the statements assign.
abbrev pub renewed_row : ℤ → Time → JobRow → JobRow
renewed_row lock_for now row = record row {
  locked_until_micros = some (micros_from_time (add_duration now lock_for));
  updated_at_micros = micros_from_time now;
}

abbrev pub synced_row : Bool → Time → JobRow → JobRow
synced_row ghost now row = record row {
  state = synced;
  ghost_detected = bool_to_int ghost;
  synced_at_micros = some (micros_from_time now);
  locked_by = none;
  locked_until_micros = none;
  updated_at_micros = micros_from_time now;
}

abbrev pub retrying_row : Option Error → Time → Time → JobRow → JobRow
retrying_row e next_run_at now row = record row {
  state = retrying;
  attempt_count = row.attempt_count + 1;
  last_error = some (error_message e);
  available_at_micros = micros_from_time next_run_at;
  locked_by = none;
  locked_until_micros = none;
  updated_at_micros = micros_from_time now;
}

abbrev pub requeued_row : Option Error → Time → Time → JobRow → JobRow
requeued_row reason next_run_at now row = record row {
  state = retrying;
  last_error = some (error_message reason);
  available_at_micros = micros_from_time next_run_at;
  locked_by = none;
  locked_until_micros = none;
  updated_at_micros = micros_from_time now;
}

abbrev pub dead_row : Option Error → Time → JobRow → JobRow
dead_row e now row = record row {
  state = dead;
  attempt_count = row.attempt_count + 1;
  last_error = some (error_message e);
  dead_at_micros = some (micros_from_time now);
  locked_by = none;
  locked_until_micros = none;
  updated_at_micros = micros_from_time now;
}

-- `RenewLease`
unfoldable pub renew_lease :
    Session → List JobRow → Str → Str → ℤ → Time → List JobRow × Option Error
unfolding update_owned
renew_lease io rows job_id worker_id lock_for now = elim (io.ctx 0) [
  | some e ↦ (rows, some e)
  | none ↦
      if is_nonpos lock_for
      then (rows, some invalid_lock_for)
      else update_owned io rows job_id worker_id now (renewed_row lock_for now)
]

-- `MarkSynced`
unfoldable pub mark_synced :
    Session → List JobRow → Str → Str → Bool → Time → List JobRow × Option Error
unfolding update_owned
mark_synced io rows job_id worker_id ghost now =
    update_owned io rows job_id worker_id now (synced_row ghost now)

-- `MarkRetrying`
unfoldable pub mark_retrying :
    Session → List JobRow → Str → Str → Option Error → Time → Time → List JobRow × Option Error
unfolding update_owned
mark_retrying io rows job_id worker_id e next_run_at now =
    update_owned io rows job_id worker_id now (retrying_row e next_run_at now)

-- `RequeueClaimed`
unfoldable pub requeue_claimed :
    Session → List JobRow → Str → Str → Option Error → Time → Time → List JobRow × Option Error
unfolding update_owned
requeue_claimed io rows job_id worker_id reason next_run_at now =
    update_owned io rows job_id worker_id now (requeued_row reason next_run_at now)

-- `MarkDead`
unfoldable pub mark_dead :
    Session → List JobRow → Str → Str → Option Error → Time → List JobRow × Option Error
unfolding update_owned
mark_dead io rows job_id worker_id e now =
    update_owned io rows job_id worker_id now (dead_row e now)

-- `id = ? AND state = 'processing' AND (locked_until_micros IS NULL OR locked_until_micros <= ?)`
abbrev pub is_expired_row : Str → ℕ → JobRow → Bool
is_expired_row job_id now row =
    str_eq row.id job_id
    && is_processing row.state
    && (is_null row.locked_until_micros || null_le row.locked_until_micros now)

abbrev pub released_row : Str → Time → JobRow → JobRow
released_row reason now row = record row {
  last_error = some (codes "operator_force_release: " ++ reason);
  locked_by = none;
  locked_until_micros = none;
  updated_at_micros = micros_from_time now;
}

abbrev pub operator_requeued_row : Str → Time → Time → JobRow → JobRow
operator_requeued_row reason next_run_at now row = record row {
  state = retrying;
  available_at_micros = micros_from_time next_run_at;
  last_error = some (codes "operator_requeue: " ++ reason);
  locked_by = none;
  locked_until_micros = none;
  updated_at_micros = micros_from_time now;
}

-- The guards that both actions share.
unfoldable pub update_expired :
    Session → List JobRow → Str → Str → Time → (Str → JobRow → JobRow) → List JobRow × Option Error
unfolding update_rows
update_expired io rows job_id audit_reason now set = elim (io.ctx 0) [
  | some e ↦ (rows, some e)
  | none ↦
      if is_empty (trim_space audit_reason)
      then (rows, some audit_reason_required)
      else update_rows io rows job_id (is_expired_row job_id (micros_from_time now))
          (set (trim_space audit_reason)) job_lease_not_expired
]

-- `ForceReleaseExpiredLease`
unfoldable pub force_release_expired_lease :
    Session → List JobRow → Str → Str → Time → List JobRow × Option Error
unfolding update_expired
force_release_expired_lease io rows job_id audit_reason now =
    update_expired io rows job_id audit_reason now (λ reason. released_row reason now)

-- `RequeueExpiredLease`
unfoldable pub requeue_expired_lease :
    Session → List JobRow → Str → Time → Str → Time → List JobRow × Option Error
unfolding update_expired
requeue_expired_lease io rows job_id next_run_at audit_reason now =
    update_expired io rows job_id audit_reason now
      (λ reason. operator_requeued_row reason next_run_at now)
