-- ===== src/Sqlite/WorkerLock.antt =====
-- pkg/connectors/sqlite/worker_lock.go: `AcquireWorkerLock`, the release that it returns, and
-- `RenewWorkerLock`. The table has one key, 'singleton', so it is at most one row. The steps of a
-- session are the statement (0) and the count of its rows (1).
use deltaflow.Prelude.{
  ℤ, ℕ, Str, Bool, true, false, if◌then◌else◌, not, Option, none, some, codes, is_empty, is_nonpos,
  add_duration, leb, str_eq,
}
use deltaflow.Model.{Time, Error}
use deltaflow.Sqlite.Sql.{Session, micros_from_time}

pub record LockRow : Type 0 where
  pub worker_id : Str
  pub acquired_at_micros : ℕ
  pub expires_at_micros : ℕ

-- `ErrWorkerAlreadyRunning`
abbrev pub worker_already_running : Error
worker_already_running = Error.external (codes "sqlite worker lock is already held")

-- `ErrWorkerLockNotOwned`
abbrev pub worker_lock_not_owned : Error
worker_lock_not_owned = Error.external (codes "sqlite worker lock is not owned by worker")

-- The tests on the arguments, which both functions make.
abbrev pub lock_arguments : Bool → Str → ℤ → Option Error
lock_arguments has_db worker_id lease_for =
    if not has_db
    then some (Error.external (codes "sqlite worker lock requires database"))
    else if is_empty worker_id
    then some (Error.external (codes "sqlite worker lock requires worker id"))
    else if is_nonpos lease_for
    then some (Error.external (codes "sqlite worker lock requires positive lease"))
    else none

-- What the statement leaves, and whether it has written a row.
abbrev pub upsert_lock : LockRow → Option LockRow → Option LockRow × Bool
upsert_lock new none = (some new, true)
upsert_lock new (some old) =
    if leb old.expires_at_micros new.acquired_at_micros then (some new, true) else (some old, false)

-- A statement's answer: the error of a step, or `refusal` if no row is affected.
abbrev pub lock_statement :
    Session → Option LockRow → Option LockRow × Bool → Error → Option LockRow × Option Error
lock_statement io lock (lock', affected) refusal = elim (io.fault 0) [
  | some e ↦ (lock, some e)
  | none ↦ elim (io.fault 1) [
    | some e ↦ (lock', some e)
    | none ↦ if affected then (lock', none) else (lock', some refusal)
  ]
]

-- `AcquireWorkerLock`
unfoldable pub acquire_worker_lock :
    Session → Bool → Option LockRow → Str → ℤ → Time → Option LockRow × Option Error
acquire_worker_lock io has_db lock worker_id lease_for now =
    elim (lock_arguments has_db worker_id lease_for) [
      | some e ↦ (lock, some e)
      | none ↦
          lock_statement io lock
            (upsert_lock
              (record {
                worker_id = worker_id;
                acquired_at_micros = micros_from_time now;
                expires_at_micros = micros_from_time (add_duration now lease_for);
              })
              lock)
            worker_already_running
    ]

abbrev pub delete_lock : Str → Option LockRow → Option LockRow
delete_lock worker_id none = none
delete_lock worker_id (some row) = if str_eq row.worker_id worker_id then none else some row

-- The `release` of an acquired lock.
unfoldable pub release_worker_lock : Session → Option LockRow → Str → Option LockRow × Option Error
release_worker_lock io lock worker_id = elim (io.fault 0) [
  | some e ↦ (lock, some e)
  | none ↦ (delete_lock worker_id lock, none)
]

abbrev pub extend_lock : Str → ℕ → Option LockRow → Option LockRow × Bool
extend_lock worker_id until none = (none, false)
extend_lock worker_id until (some row) =
    if str_eq row.worker_id worker_id
    then (some (record row { expires_at_micros = until }), true)
    else (some row, false)

-- `RenewWorkerLock`
unfoldable pub renew_worker_lock :
    Session → Bool → Option LockRow → Str → ℤ → Time → Option LockRow × Option Error
renew_worker_lock io has_db lock worker_id lease_for now =
    elim (lock_arguments has_db worker_id lease_for) [
      | some e ↦ (lock, some e)
      | none ↦
          lock_statement io lock
            (extend_lock worker_id (micros_from_time (add_duration now lease_for)) lock)
            worker_lock_not_owned
    ]
