-- ===== src/Sqlite/LeaseQueries.antt =====
-- The lease queries of pkg/connectors/sqlite/job_store.go next to those of internal/store.go, where
-- no call of the engine fails and the context does not end.
use deltaflow.Prelude.{
  ℕ, ℤ, pos, ◌*◌, ◌+◌, Str, Map, Bool, ◌≡◌, refl, sym, subst, ap, Option, none, some, List, [], ◌∷◌,
  is_nonpos, to_count, Bool-cases, inl, inr, arith, ◌&&◌, map,
}
use deltaflow.Model.{Time, SyncJob, ProjectionKey, ok, is_processing}
use deltaflow.Jobs.State.{JobStore}
use deltaflow.Jobs.Queries as Memory
use deltaflow.Jobs.Queries.{
  lease_before, is_selected, is_active, is_expired, is_near_expiry, is_within,
  select_processing_leases,
}
use deltaflow.Sqlite.Sql.{Session, micros_from_time, time_of_null, null_gt, null_le}
use deltaflow.Sqlite.Rows.{Json, JobRow, job_of, scan_sync_job, scan_jobs}
use deltaflow.Sqlite.Tables.{IsTableOf}
use deltaflow.Sqlite.Ordering.{IsTableOf-select, IsTableOf-sort_by, IsTableOf-take}
use deltaflow.Sqlite.Leases as Sqlite
use deltaflow.Sqlite.Leases.{
  lease_row_before, lease_rows, collect_jobs, list_leases, in_sync, is_active_row,
  is_expired_lease_row, is_near_expiry_row,
}
use deltaflow.Sqlite.Transitions.{
  IsRowOf, job_row_id, stored, renewed_micros, lease_dead_micros, lease_live_micros,
}
use deltaflow.Sqlite.Refinement.{IsQuiet, Represents}

lease_before-jobs :
    (a b : JobRow) (k j : Str) (key key' : ProjectionKey)
    → lease_row_before a b ≡ lease_before (k, job_of a key) (j, job_of b key')
unfolding lease_row_before lease_before
lease_before-jobs a b k j key key' = ground arith

lease_before_lem :
    (json : Json) (a b : JobRow) (e f : Str × SyncJob)
    → IsRowOf json a e.1
    → IsRowOf json b f.1
    → lease_row_before a b ≡ lease_before e f
lease_before_lem json a b (k, v) (j, w) (key, decoded, eq) (key', decoded', eq') =
    subst (λ (x : SyncJob). lease_row_before a b ≡ lease_before (k, x) (j, w)) (sym eq)
      (subst (λ (x : SyncJob). lease_row_before a b ≡ lease_before (k, job_of a key) (j, x))
        (sym eq') (lease_before-jobs a b k j key key'))

near_micros :
    (v : Option ℕ) (now : Time) (n : ℕ)
    → (null_gt v (micros_from_time now) && null_le v (micros_from_time (now + n * 1000)))
      ≡ is_within (stored now) (pos (n * 1000)) (time_of_null v)
near_micros none now n = refl
near_micros (some v) now n = rw (renewed_micros now n) (ground arith)

scan_jobs_lem :
    (json : Json) (rows : List JobRow) (m : Map SyncJob)
    → IsTableOf job_row_id (IsRowOf json) rows m
    → scan_jobs json rows ≡ ok (map (λ e. e.1) m)
unfolding scan_jobs scan_sync_job
scan_jobs_lem json [] [] t = refl
scan_jobs_lem json [] (e ∷ m) t = elim t [ ]
scan_jobs_lem json (row ∷ rows) [] t = elim t [ ]
scan_jobs_lem json (row ∷ rows) ((k, v) ∷ m) t =
    let (key, decoded, eq) = t.1 in
    rw (decoded, scan_jobs_lem json rows m t.2, scan_jobs, scan_sync_job)
      (ap (λ j. ok (j ∷ map (λ e. e.1) m)) (sym eq))

module _ (json : Json) (io : Session) (quiet : IsQuiet io) (rows : List JobRow) (s : JobStore)
    (table : Represents json rows s) (sync_id : Str) where
  collect_jobs_lem :
      (found : List JobRow) (m : Map SyncJob)
      → IsTableOf job_row_id (IsRowOf json) found m
      → collect_jobs json io found ≡ ok (map (λ e. e.1) m)
  collect_jobs_lem found m t = rw (scan_jobs_lem json found m t, collect_jobs, quiet.fault 1) refl

  selected_row_lem :
      (p : JobRow → Bool) (q : SyncJob → Bool)
      → ((row : JobRow) (key : ProjectionKey) → p row ≡ q (job_of row key))
      → (row : JobRow) (e : Str × SyncJob) → IsRowOf json row e.1
      → (is_processing row.state && p row && in_sync sync_id row) ≡ is_selected sync_id q e.1
  selected_row_lem p q same row (k, v) (key, decoded, eq) =
      subst
        (λ (j : SyncJob).
          (is_processing row.state && p row && in_sync sync_id row) ≡ is_selected sync_id q j)
        (sym eq)
        (rw (same row key)
          (&&-exchange (is_processing row.state) (q (job_of row key)) (in_sync sync_id row)))
    where
      &&-exchange : (a b c : Bool) → (a && b && c) ≡ (a && c && b)
      &&-exchange a b c = ground arith

  list_leases_lem :
      (p : JobRow → Bool) (q : SyncJob → Bool) (limit : ℤ)
      → ((row : JobRow) (key : ProjectionKey) → p row ≡ q (job_of row key))
      → list_leases json io rows sync_id p (to_count limit)
        ≡ ok (select_processing_leases s sync_id limit q)
  unfolding list_leases lease_rows select_processing_leases
  list_leases_lem p q limit same =
      rw (quiet.fault 0, list_leases)
        (collect_jobs_lem _ _ (
          IsTableOf-take job_row_id (IsRowOf json) (to_count limit) _ _ (
            IsTableOf-sort_by job_row_id (IsRowOf json) lease_row_before lease_before
              (lease_before_lem json) _ _
              (IsTableOf-select job_row_id (IsRowOf json) _ _ (selected_row_lem p q same) rows
                s.jobs table))))

  -- Where no step of the engine fails and no context ends, the three lease queries of the SQLite
  -- store answer what those of the in-memory store answer at the stored moment, in the same order,
  -- if the rows stand for its jobs; the window of near expiry is a whole number of microseconds.
  pub lease_queries_agree :
      (limit : ℤ) (n : ℕ) (now : Time)
      → (Sqlite.list_active_leases json io rows sync_id limit now
          ≡ Memory.list_active_leases none s sync_id limit (stored now))
        × (Sqlite.list_expired_processing_leases json io rows sync_id limit now
            ≡ Memory.list_expired_processing_leases none s sync_id limit (stored now))
        × (Sqlite.list_near_expiry_leases json io rows sync_id (pos (n * 1000)) limit now
            ≡ Memory.list_near_expiry_leases none s sync_id (pos (n * 1000)) limit (stored now))
  unfolding Sqlite.list_active_leases Memory.list_active_leases
      Sqlite.list_expired_processing_leases Memory.list_expired_processing_leases
      Sqlite.list_near_expiry_leases Memory.list_near_expiry_leases
  lease_queries_agree limit n now = (
    elim (Bool-cases (is_nonpos limit)) [
      | inl b ↦ rw (quiet.ctx 0, b, Sqlite.list_active_leases, Memory.list_active_leases) refl
      | inr b ↦
          rw (quiet.ctx 0, b, Sqlite.list_active_leases, Memory.list_active_leases)
            (list_leases_lem _ (is_active (stored now)) limit
              (λ row key. lease_live_micros row.locked_until_micros (micros_from_time now)))
    ],
    elim (Bool-cases (is_nonpos limit)) [
      | inl b ↦
          rw
            (
              quiet.ctx 0,
              b,
              Sqlite.list_expired_processing_leases,
              Memory.list_expired_processing_leases,
            )
            refl
      | inr b ↦
          rw
            (
              quiet.ctx 0,
              b,
              Sqlite.list_expired_processing_leases,
              Memory.list_expired_processing_leases,
            )
            (list_leases_lem _ (is_expired (stored now)) limit
              (λ row key. lease_dead_micros row.locked_until_micros (micros_from_time now)))
    ],
    elim (Bool-cases (is_nonpos limit)) [
      | inl b ↦
          rw (quiet.ctx 0, b, Sqlite.list_near_expiry_leases, Memory.list_near_expiry_leases) refl
      | inr b ↦
          rw (quiet.ctx 0, b, Sqlite.list_near_expiry_leases, Memory.list_near_expiry_leases)
            (list_leases_lem _ (is_near_expiry (stored now) (pos (n * 1000))) limit
              (λ row key. near_micros row.locked_until_micros now n))
    ],
  )
