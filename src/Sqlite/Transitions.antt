-- ===== src/Sqlite/Transitions.antt =====
-- `updateOwned` of pkg/connectors/sqlite/job_store.go next to `updateOwned` of internal/store.go: the
-- guards and the assignments of the statements, on a row and on the job that it stands for.
use deltaflow.Prelude.{
  ℕ, pos, Str, Bool, true, false, ◌≡◌, refl, sym, subst, ap, ◌∙◌, ◌*◌, ◌+◌, Option, none, some,
  ◌&&◌, ◌||◌, not, str_eq, ◌==◌, arith,
}
use deltaflow.Model.{Time, SyncJob, ProjectionKey, ok, Error, is_processing}
use deltaflow.Jobs.State.{job_lease_owned, is_lease_live, is_locked_by}
use deltaflow.Jobs.Owned.{to_renewed, to_synced, to_retrying, to_requeued, to_dead}
use deltaflow.Jobs.Operator.{to_released, to_operator_requeued}
use deltaflow.Jobs.Edges.{touched}
use deltaflow.Sqlite.Sql.{
  micros_from_time, time_from_micros, bool_to_int, time_of_null, null_gt, null_eq, null_le, is_null,
}
use deltaflow.Sqlite.Rows.{Json, JobRow, job_of}
use deltaflow.Sqlite.Tables.{IsUpdateOf}
use deltaflow.Sqlite.Owned.{
  is_owned_row, renewed_row, synced_row, retrying_row, requeued_row, dead_row, is_expired_row,
  released_row, operator_requeued_row,
}

-- A row stands for a job: the key decodes, and the job is what the row then holds.
abbrev pub IsRowOf : Json → JobRow → SyncJob → Type 0
IsRowOf json row job =
    (key : ProjectionKey) × (json.unmarshal_key row.projection_key ≡ ok key)
    × (job ≡ job_of row key)

abbrev pub job_row_id : JobRow → Str
job_row_id row = row.id

-- The moment that is stored for a moment.
abbrev pub stored : Time → Time
stored t = time_from_micros (micros_from_time t)

pub lease_live_micros :
    (v : Option ℕ) (n : ℕ) → null_gt v n ≡ is_lease_live (time_of_null v) (time_from_micros n)
lease_live_micros none n = refl
lease_live_micros (some v) n = ground arith

pub lease_dead_micros :
    (v : Option ℕ) (n : ℕ)
    → (is_null v || null_le v n) ≡ not (is_lease_live (time_of_null v) (time_from_micros n))
lease_dead_micros none n = refl
lease_dead_micros (some v) n = ground arith

-- What an operator may act on.
abbrev pub is_expired_job : Time → SyncJob → Bool
is_expired_job now job = not (not (is_processing job.state) || is_lease_live job.locked_until now)

locked_by_column : (o : Option Str) (w : Str) → null_eq o w ≡ is_locked_by o w
locked_by_column none w = refl
locked_by_column (some v) w = refl

pub ghost_column : (ghost : Bool) → ghost ≡ not (bool_to_int ghost == 0)
ghost_column true = ground arith
ghost_column false = ground arith

pub renewed_micros : (t : Time) (n : ℕ) → stored t + n * 1000 ≡ stored (t + n * 1000)
renewed_micros t n = omega arith

&&-swap : (a b c d : Bool) → (a && b && c && d) ≡ (d && a && b && c)
&&-swap a b c d = ground arith

owned-guard :
    (id w : Str) (now : Time) (row : JobRow) (key : ProjectionKey)
    → is_owned_row id w (micros_from_time now) row
      ≡ (str_eq row.id id && job_lease_owned (job_of row key) (stored now) w)
unfolding job_lease_owned
owned-guard id w now row key =
    let locked = locked_by_column row.locked_by w in
    let live = lease_live_micros row.locked_until_micros (micros_from_time now) in
    rw (locked, live)
      (&&-swap (is_processing row.state) (is_locked_by row.locked_by w)
        (is_lease_live (time_of_null row.locked_until_micros) (stored now)) (str_eq row.id id))

expired-guard :
    (id : Str) (now : Time) (row : JobRow) (key : ProjectionKey)
    → is_expired_row id (micros_from_time now) row
      ≡ (str_eq row.id id && is_expired_job (stored now) (job_of row key))
expired-guard id now row key =
    let dead = lease_dead_micros row.locked_until_micros (micros_from_time now) in ground arith

module _ (json : Json) (id w : Str) (now : Time) where
  owned-IsUpdateOf :
      (set : JobRow → JobRow) (fn : SyncJob → Time → SyncJob)
      → ((row : JobRow) → (set row).id ≡ row.id)
      → ((row : JobRow) → (set row).projection_key ≡ row.projection_key)
      → ((row : JobRow) (key : ProjectionKey)
          → touched (fn (job_of row key) (stored now)) (stored now) ≡ job_of (set row) key)
      → IsUpdateOf job_row_id
          (IsRowOf json)
          id
          (is_owned_row id w (micros_from_time now))
          set
          (λ job. job_lease_owned job (stored now) w)
          (λ job. touched (fn job (stored now)) (stored now))
  owned-IsUpdateOf set fn id_kept key_kept writes = record {
    guard = λ row job is.
        let (key, decoded, eq) = is in
        subst
          (λ (j : SyncJob).
            is_owned_row id w (micros_from_time now) row
            ≡ (str_eq row.id id && job_lease_owned j (stored now) w))
          (sym eq) (owned-guard id w now row key);
    keeps_id = id_kept;
    writes = λ row job is.
        let (key, decoded, eq) = is in
        (
          key,
          ap json.unmarshal_key (key_kept row) ∙ decoded,
          ap (λ (j : SyncJob). touched (fn j (stored now)) (stored now)) eq ∙ writes row key,
        );
  }

  pub synced-IsUpdateOf :
      (ghost : Bool)
      → IsUpdateOf job_row_id
          (IsRowOf json)
          id
          (is_owned_row id w (micros_from_time now))
          (synced_row ghost now)
          (λ job. job_lease_owned job (stored now) w)
          (λ job. touched (to_synced ghost job (stored now)) (stored now))
  synced-IsUpdateOf ghost =
      owned-IsUpdateOf (synced_row ghost now) (to_synced ghost) (λ row. refl) (λ row. refl)
        (λ row key.
          ap (λ g. record (job_of (synced_row ghost now row) key) { ghost_detected = g })
            (ghost_column ghost))

  pub retrying-IsUpdateOf :
      (e : Option Error) (next : Time)
      → IsUpdateOf job_row_id
          (IsRowOf json)
          id
          (is_owned_row id w (micros_from_time now))
          (retrying_row e next now)
          (λ job. job_lease_owned job (stored now) w)
          (λ job. touched (to_retrying e (stored next) job (stored now)) (stored now))
  retrying-IsUpdateOf e next =
      owned-IsUpdateOf (retrying_row e next now) (to_retrying e (stored next)) (λ row. refl)
        (λ row. refl) (λ row key. refl)

  pub requeued-IsUpdateOf :
      (e : Option Error) (next : Time)
      → IsUpdateOf job_row_id
          (IsRowOf json)
          id
          (is_owned_row id w (micros_from_time now))
          (requeued_row e next now)
          (λ job. job_lease_owned job (stored now) w)
          (λ job. touched (to_requeued e (stored next) job (stored now)) (stored now))
  requeued-IsUpdateOf e next =
      owned-IsUpdateOf (requeued_row e next now) (to_requeued e (stored next)) (λ row. refl)
        (λ row. refl) (λ row key. refl)

  pub dead-IsUpdateOf :
      (e : Option Error)
      → IsUpdateOf job_row_id
          (IsRowOf json)
          id
          (is_owned_row id w (micros_from_time now))
          (dead_row e now)
          (λ job. job_lease_owned job (stored now) w)
          (λ job. touched (to_dead e job (stored now)) (stored now))
  dead-IsUpdateOf e =
      owned-IsUpdateOf (dead_row e now) (to_dead e) (λ row. refl) (λ row. refl) (λ row key. refl)

  -- The duration of a renewal is a whole number of microseconds.
  pub renewed-IsUpdateOf :
      (n : ℕ)
      → IsUpdateOf job_row_id
          (IsRowOf json)
          id
          (is_owned_row id w (micros_from_time now))
          (renewed_row (pos (n * 1000)) now)
          (λ job. job_lease_owned job (stored now) w)
          (λ job. touched (to_renewed (pos (n * 1000)) job (stored now)) (stored now))
  renewed-IsUpdateOf n =
      owned-IsUpdateOf (renewed_row (pos (n * 1000)) now) (to_renewed (pos (n * 1000)))
        (λ row. refl) (λ row. refl)
        (λ row key.
          ap
            (λ t. record (job_of (renewed_row (pos (n * 1000)) now row) key) {
              locked_until = some t;
            })
            (renewed_micros now n))

module _ (json : Json) (id : Str) (now : Time) where
  expired-IsUpdateOf :
      (set : JobRow → JobRow) (fn : SyncJob → SyncJob)
      → ((row : JobRow) → (set row).id ≡ row.id)
      → ((row : JobRow) → (set row).projection_key ≡ row.projection_key)
      → ((row : JobRow) (key : ProjectionKey)
          → touched (fn (job_of row key)) (stored now) ≡ job_of (set row) key)
      → IsUpdateOf job_row_id
          (IsRowOf json)
          id
          (is_expired_row id (micros_from_time now))
          set
          (is_expired_job (stored now))
          (λ job. touched (fn job) (stored now))
  expired-IsUpdateOf set fn id_kept key_kept writes = record {
    guard = λ row job is.
        let (key, decoded, eq) = is in
        subst
          (λ (j : SyncJob).
            is_expired_row id (micros_from_time now) row
            ≡ (str_eq row.id id && is_expired_job (stored now) j))
          (sym eq) (expired-guard id now row key);
    keeps_id = id_kept;
    writes = λ row job is.
        let (key, decoded, eq) = is in
        (
          key,
          ap json.unmarshal_key (key_kept row) ∙ decoded,
          ap (λ (j : SyncJob). touched (fn j) (stored now)) eq ∙ writes row key,
        );
  }

  pub released-IsUpdateOf :
      (reason : Str)
      → IsUpdateOf job_row_id
          (IsRowOf json)
          id
          (is_expired_row id (micros_from_time now))
          (released_row reason now)
          (is_expired_job (stored now))
          (λ job. touched (to_released job reason) (stored now))
  released-IsUpdateOf reason =
      expired-IsUpdateOf (released_row reason now) (λ job. to_released job reason) (λ row. refl)
        (λ row. refl) (λ row key. refl)

  pub operator_requeued-IsUpdateOf :
      (reason : Str) (next : Time)
      → IsUpdateOf job_row_id
          (IsRowOf json)
          id
          (is_expired_row id (micros_from_time now))
          (operator_requeued_row reason next now)
          (is_expired_job (stored now))
          (λ job. touched (to_operator_requeued (stored next) job reason) (stored now))
  operator_requeued-IsUpdateOf reason next =
      expired-IsUpdateOf (operator_requeued_row reason next now)
        (λ job. to_operator_requeued (stored next) job reason) (λ row. refl) (λ row. refl)
        (λ row key. refl)
