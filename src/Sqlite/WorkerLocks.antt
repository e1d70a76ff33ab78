-- ===== src/Sqlite/WorkerLocks.antt =====
-- Histories of calls of pkg/connectors/sqlite/worker_lock.go by any number of workers.
use deltaflow.Prelude.{
  ℤ, Str, Bool, true, false, ◌≡◌, refl, sym, subst, ◌<◌, if◌then◌else◌, Option, none, some, List,
  [], ◌∷◌, All, leb, str_eq, add_duration, Option-cases, inl, inr, arith,
}
use deltaflow.Model.{Time, Error}
use deltaflow.Sqlite.Sql.{Session, micros_from_time}
use deltaflow.Sqlite.WorkerLock.{
  LockRow, worker_already_running, worker_lock_not_owned, lock_arguments, upsert_lock,
  lock_statement, acquire_worker_lock, release_worker_lock, renew_worker_lock,
}

pub data LockCall : Type 0 where
  acquires : Bool → ℤ → LockCall
  renews : Bool → ℤ → LockCall
  releases : LockCall

pub record LockEvent : Type 0 where
  pub call : LockCall
  pub worker_id : Str
  pub io : Session
  pub at : Time

abbrev pub lock_call :
    LockCall → Str → Session → Time → Option LockRow → Option LockRow × Option Error
lock_call (acquires has_db lease_for) w io now lock =
    acquire_worker_lock io has_db lock w lease_for now
lock_call (renews has_db lease_for) w io now lock = renew_worker_lock io has_db lock w lease_for now
lock_call releases w io now lock = release_worker_lock io lock w

unfoldable pub lock_run : Option LockRow → List LockEvent → Option LockRow
lock_run lock [] = lock
lock_run lock (e ∷ es) = lock_run (lock_call e.call e.worker_id e.io e.at lock).0 es

-- The worker of the row holds the lock.
abbrev pub IsForeignCall : LockRow → LockEvent → Type 0
IsForeignCall row e =
    (str_eq row.worker_id e.worker_id ≡ false) × (micros_from_time e.at < row.expires_at_micros)

-- The row is as it was, and the answer is an error.
abbrev IsRefused : LockRow → Option LockRow × Option Error → Type 0
IsRefused row r = (r.0 ≡ some row) × (e : Error) × (r.1 ≡ some e)

step-IsRefused :
    (row : LockRow) (fault : Option Error) (r : Option LockRow × Option Error)
    → IsRefused row r
    → IsRefused row (elim fault [ some e ↦ (some row, some e) | none ↦ r ])
step-IsRefused row none r h = h
step-IsRefused row (some e) r h = (refl, e, refl)

statement-IsRefused :
    (io : Session) (row : LockRow) (refusal : Error)
    → IsRefused row (lock_statement io (some row) (some row, false) refusal)
statement-IsRefused io row refusal =
    step-IsRefused row (io.fault 0) _ (step-IsRefused row (io.fault 1) _ (refl, refusal, refl))

-- While a lock has not expired, nobody acquires it, not even its holder.
acquire-IsRefused :
    (io : Session) (has_db : Bool) (row : LockRow) (w : Str) (lease_for : ℤ) (now : Time)
    → micros_from_time now < row.expires_at_micros
    → IsRefused row (acquire_worker_lock io has_db (some row) w lease_for now)
unfolding acquire_worker_lock
acquire-IsRefused io has_db row w lease_for now live =
    let held : leb row.expires_at_micros (micros_from_time now) ≡ false = ground arith in
    step-IsRefused row (lock_arguments has_db w lease_for) _ (
      subst
        (λ b. IsRefused row (
          lock_statement io (some row)
            (if b
              then (
                some (record {
                  worker_id = w;
                  acquired_at_micros = micros_from_time now;
                  expires_at_micros = micros_from_time (add_duration now lease_for);
                }),
                true,
              )
              else (some row, false))
            worker_already_running))
        (sym held) (statement-IsRefused io row worker_already_running))

renew-IsRefused :
    (io : Session) (has_db : Bool) (row : LockRow) (w : Str) (lease_for : ℤ) (now : Time)
    → str_eq row.worker_id w ≡ false
    → IsRefused row (renew_worker_lock io has_db (some row) w lease_for now)
unfolding renew_worker_lock
renew-IsRefused io has_db row w lease_for now other =
    step-IsRefused row (lock_arguments has_db w lease_for) _ (
      subst
        (λ b. IsRefused row (
          lock_statement io (some row)
            (if b
              then (
                some (record row {
                  expires_at_micros = micros_from_time (add_duration now lease_for);
                }),
                true,
              )
              else (some row, false))
            worker_lock_not_owned))
        (sym other) (statement-IsRefused io row worker_lock_not_owned))

release-kept :
    (io : Session) (row : LockRow) (w : Str)
    → str_eq row.worker_id w ≡ false
    → (release_worker_lock io (some row) w).0 ≡ some row
unfolding release_worker_lock
release-kept io row w other = elim (Option-cases (io.fault 0)) [
  | inl h ↦ rw (h, other, release_worker_lock) refl
  | inr (e, h) ↦ rw (h, release_worker_lock) refl
]

foreign_call-kept :
    (row : LockRow) (e : LockEvent)
    → IsForeignCall row e
    → (lock_call e.call e.worker_id e.io e.at (some row)).0 ≡ some row
foreign_call-kept row e h = go e.call
  where
    go : (c : LockCall) → (lock_call c e.worker_id e.io e.at (some row)).0 ≡ some row
    go (acquires has_db lease_for) =
        (acquire-IsRefused e.io has_db row e.worker_id lease_for e.at h.1).0
    go (renews has_db lease_for) =
        (renew-IsRefused e.io has_db row e.worker_id lease_for e.at h.0).0
    go releases = release-kept e.io row e.worker_id h.0

lock_kept :
    (row : LockRow) (es : List LockEvent)
    → All (IsForeignCall row) es
    → lock_run (some row) es ≡ some row
unfolding lock_run
lock_kept row [] h = refl
lock_kept row (e ∷ es) h = rw (foreign_call-kept row e h.0, lock_run) (lock_kept row es h.1)

-- The row that an acquisition writes.
abbrev pub lock_row : Str → ℤ → Time → LockRow
lock_row w lease_for now = record {
  worker_id = w;
  acquired_at_micros = micros_from_time now;
  expires_at_micros = micros_from_time (add_duration now lease_for);
}

-- A step that may fail, and what follows it.
abbrev after_step :
    Option LockRow → Option Error → Option LockRow × Option Error → Option LockRow × Option Error
after_step lock fault r = elim fault [ some e ↦ (lock, some e) | none ↦ r ]

step-ok :
    (lock : Option LockRow) (row : LockRow) (fault : Option Error)
    (r : Option LockRow × Option Error)
    → (r.1 ≡ none → r.0 ≡ some row)
    → (after_step lock fault r).1 ≡ none
    → (after_step lock fault r).0 ≡ some row
step-ok lock row none r f h = f h
step-ok lock row (some e) r f h = cc

statement-ok :
    (io : Session) (lock : Option LockRow) (row : LockRow) (r : Option LockRow × Bool)
    (refusal : Error)
    → (r.1 ≡ true → r.0 ≡ some row)
    → (lock_statement io lock r refusal).1 ≡ none
    → (lock_statement io lock r refusal).0 ≡ some row
statement-ok io lock row r refusal f h =
    step-ok lock row (io.fault 0) _ (step-ok r.0 row (io.fault 1) _ (go r f)) h
  where
    counted : Option LockRow × Bool → Option LockRow × Option Error
    counted r = if r.1 then (r.0, none) else (r.0, some refusal)

    go :
        (r : Option LockRow × Bool)
        → (r.1 ≡ true → r.0 ≡ some row)
        → (counted r).1 ≡ none
        → (counted r).0 ≡ some row
    go (l, true) f h = f refl
    go (l, false) f h = cc

upsert_lock-ok :
    (row : LockRow) (lock : Option LockRow)
    → (upsert_lock row lock).1 ≡ true
    → (upsert_lock row lock).0 ≡ some row
upsert_lock-ok row none h = refl
upsert_lock-ok row (some old) h = ground arith

acquired :
    (io : Session) (has_db : Bool) (lock : Option LockRow) (w : Str) (lease_for : ℤ) (now : Time)
    → (acquire_worker_lock io has_db lock w lease_for now).1 ≡ none
    → (acquire_worker_lock io has_db lock w lease_for now).0 ≡ some (lock_row w lease_for now)
unfolding acquire_worker_lock
acquired io has_db lock w lease_for now h =
    step-ok lock (lock_row w lease_for now) (lock_arguments has_db w lease_for) _
      (statement-ok io lock (lock_row w lease_for now) (upsert_lock (lock_row w lease_for now) lock)
        worker_already_running (upsert_lock-ok (lock_row w lease_for now) lock))
      h

-- Once `AcquireWorkerLock` has answered no error, any calls that other workers make on the lock
-- before it expires leave its row as it was written, and until then every further acquisition, by
-- anyone, answers an error.
pub worker_lock_exclusive :
    (io : Session) (has_db : Bool) (lock : Option LockRow) (w : Str) (lease_for : ℤ) (now : Time)
    (es : List LockEvent) (io' : Session) (has_db' : Bool) (w' : Str) (lease_for' : ℤ)
    (later : Time)
    → (acquire_worker_lock io has_db lock w lease_for now).1 ≡ none
    → All (IsForeignCall (lock_row w lease_for now)) es
    → micros_from_time later < micros_from_time (add_duration now lease_for)
    → (lock_run (acquire_worker_lock io has_db lock w lease_for now).0 es
        ≡ some (lock_row w lease_for now))
      × ((e : Error) × ((acquire_worker_lock io' has_db'
              (lock_run (acquire_worker_lock io has_db lock w lease_for now).0 es)
              w'
              lease_for'
              later).1
            ≡ some e))
worker_lock_exclusive io has_db lock w lease_for now es io' has_db' w' lease_for' later h foreign
      live =
    let row = lock_row w lease_for now in
    let got = acquired io has_db lock w lease_for now h in
    let kept : lock_run (acquire_worker_lock io has_db lock w lease_for now).0 es ≡ some row =
      rw got (lock_kept row es foreign) in
    (
      kept,
      subst
          (λ l. (e : Error) × ((acquire_worker_lock io' has_db' l w' lease_for' later).1 ≡ some e))
          (sym kept) (refused_error (acquire-IsRefused io' has_db' row w' lease_for' later live)),
    )
  where
    refused_error :
        {row : LockRow} {r : Option LockRow × Option Error}
        → IsRefused row r
        → (e : Error) × (r.1 ≡ some e)
    refused_error h = (h.1, h.2)
