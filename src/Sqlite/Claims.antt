-- ===== src/Sqlite/Claims.antt =====
-- `ClaimNext` of pkg/connectors/sqlite/job_store.go next to `ClaimNext` of internal/store.go, where no
-- call of the engine fails and the context does not end.
use deltaflow.Prelude.{
  ℕ, pos, ◌*◌, ◌+◌, Str, Bool, true, false, ◌≡◌, refl, sym, ◌∙◌, subst, ap, Option, none, some,
  List, [], ◌∷◌, Keys, lookup, insert, lookup-insert_self, is_nonpos, str_eq, Bool-cases, inl, inr,
  arith, ◌&&◌, All, select, map,
}
use deltaflow.Model.{
  Time, SyncJob, JobState, processing, retrying, synced, ProjectionKey, Result, ok,
}
use deltaflow.Jobs.State.{JobStore, claimable_job, claimable_state, was_expired_processing}
use deltaflow.Jobs.Claim as Memory
use deltaflow.Jobs.Claim.{claim_before, claimable_entries, claimed_job, observe_claim}
use deltaflow.Jobs.Claimable.{IsCandidate, claimable_entries-IsCandidate}
use deltaflow.Sqlite.Sql.{Session, micros_from_time, update_where, affected}
use deltaflow.Sqlite.Rows.{Json, JobRow, job_of, scan_sync_job}
use deltaflow.Sqlite.Tables.{IsTableOf, IsUpdateOf, missing, refused, applied, update_lem}
use deltaflow.Sqlite.Ordering.{IsTableOf-select, IsTableOf-sort_by, IsTableOf-found}
use deltaflow.Sqlite.Claim as Sqlite
use deltaflow.Sqlite.Claim.{
  is_waiting, is_claimable_row, is_candidate_row, row_before, candidate_rows, claimed_row,
  claim_candidate, read_back, commit,
}
use deltaflow.Sqlite.Transitions.{IsRowOf, job_row_id, stored, renewed_micros, lease_dead_micros}
use deltaflow.Sqlite.Refinement.{IsQuiet, Represents}

claimable-guard :
    (st : JobState) (sync_id : Str) (now : Time) (row : JobRow) (key : ProjectionKey)
    → row.state ≡ st
    → is_claimable_row sync_id (micros_from_time now) row
      ≡ claimable_job (job_of row key) (stored now) sync_id
unfolding claimable_job claimable_state
claimable-guard JobState.unset sync_id now row key h = rw h (ground arith)
claimable-guard JobState.pending sync_id now row key h = rw h (ground arith)
claimable-guard processing sync_id now row key h =
    let dead = lease_dead_micros row.locked_until_micros (micros_from_time now) in
    rw (h, dead) (ground arith)
claimable-guard retrying sync_id now row key h = rw h (ground arith)
claimable-guard synced sync_id now row key h = rw h (ground arith)
claimable-guard JobState.dead sync_id now row key h = rw h (ground arith)

before-jobs :
    (a b : JobRow) (k j : Str) (key key' : ProjectionKey)
    → row_before a b ≡ claim_before (k, job_of a key) (j, job_of b key')
unfolding row_before claim_before
before-jobs a b k j key key' = ground arith

before_lem :
    (json : Json) (a b : JobRow) (e f : Str × SyncJob)
    → IsRowOf json a e.1
    → IsRowOf json b f.1
    → row_before a b ≡ claim_before e f
before_lem json a b (k, v) (j, w) (key, decoded, eq) (key', decoded', eq') =
    subst (λ (x : SyncJob). row_before a b ≡ claim_before (k, x) (j, w)) (sym eq)
      (subst (λ (x : SyncJob). row_before a b ≡ claim_before (k, job_of a key) (j, x)) (sym eq')
        (before-jobs a b k j key key'))

observe_claim-jobs : (b : Bool) (s : JobStore) → (observe_claim b s).jobs ≡ s.jobs
observe_claim-jobs true s = refl
observe_claim-jobs false s = refl

module _ (json : Json) (sync_id : Str) (now : Time) where
  claimable_row_lem :
      (row : JobRow) (job : SyncJob)
      → IsRowOf json row job
      → is_claimable_row sync_id (micros_from_time now) row ≡ claimable_job job (stored now) sync_id
  claimable_row_lem row job (key, decoded, eq) =
      subst
        (λ (j : SyncJob).
          is_claimable_row sync_id (micros_from_time now) row
          ≡ claimable_job j (stored now) sync_id)
        (sym eq) (claimable-guard row.state sync_id now row key refl)

  candidate_rows-IsTableOf :
      (rows : List JobRow) (s : JobStore)
      → Represents json rows s
      → IsTableOf job_row_id
          (IsRowOf json)
          (candidate_rows rows sync_id (micros_from_time now))
          (claimable_entries s (stored now) sync_id)
  unfolding candidate_rows claimable_entries
  candidate_rows-IsTableOf rows s table =
      IsTableOf-sort_by job_row_id (IsRowOf json) row_before claim_before (before_lem json) _ _ (
        IsTableOf-select job_row_id (IsRowOf json) _ _ (λ row e is. claimable_row_lem row e.1 is)
          rows s.jobs table)

  claimed-IsUpdateOf :
      (id w : Str) (n : ℕ)
      → IsUpdateOf job_row_id
          (IsRowOf json)
          id
          (is_candidate_row id sync_id (micros_from_time now))
          (claimed_row w (micros_from_time now) (micros_from_time (now + n * 1000)))
          (λ job. claimable_job job (stored now) sync_id)
          (λ job. claimed_job job w (stored now) (pos (n * 1000)))
  claimed-IsUpdateOf id w n = record {
    guard = λ row job is. ap (λ b. str_eq row.id id && b) (claimable_row_lem row job is);
    keeps_id = λ row. refl;
    writes = λ row job is.
        let (key, decoded, eq) = is in
        (
          key,
          decoded,
          ap (λ (j : SyncJob). claimed_job j w (stored now) (pos (n * 1000))) eq
              ∙ ap
                  (λ t. record (job_of (claimed_row w (micros_from_time now) 0 row) key) {
                    locked_until = some t;
                  })
                  (renewed_micros now n),
        );
  }

  scan_sync_job_lem :
      (row : JobRow) (job : SyncJob) → IsRowOf json row job → scan_sync_job json row ≡ ok job
  unfolding scan_sync_job
  scan_sync_job_lem row job (key, decoded, eq) = rw decoded (ap ok (sym eq))

  -- The same answer, and a table that goes on to represent the store.
  abbrev pub ClaimsAlike :
      List JobRow × Result (Option SyncJob) → JobStore × Result (Option SyncJob) → Type 0
  ClaimsAlike r r' = (r.1 ≡ r'.1) × Represents json r.0 r'.0

  module _ (io : Session) (quiet : IsQuiet io) (rows : List JobRow) (w : Str) where
    committed :
        (rows' : List JobRow) (answer : Option SyncJob)
        → commit io rows rows' answer ≡ (rows', ok answer)
    committed rows' answer = rw (quiet.fault 5, commit) refl

    read_found :
        (rows' : List JobRow) (row : JobRow) (rest : List JobRow) (job : SyncJob)
        → scan_sync_job json row ≡ ok job
        → read_back json io rows rows' (row ∷ rest) ≡ (rows', ok (some job))
    read_found rows' row rest job scanned = rw (scanned, read_back) (committed rows' (some job))

    sql_claimed :
        (row row' : JobRow) (cs rest rows' : List JobRow) (job : SyncJob) (until : ℕ)
        → update_where
            (is_candidate_row row.id sync_id (micros_from_time now))
            (claimed_row w (micros_from_time now) until)
            rows
          ≡ rows'
        → affected (is_candidate_row row.id sync_id (micros_from_time now)) rows ≡ 1
        → select (λ r. str_eq (job_row_id r) row.id) rows' ≡ row' ∷ rest
        → scan_sync_job json row' ≡ ok job
        → claim_candidate json io rows (row ∷ cs) sync_id w (micros_from_time now) until
          ≡ (rows', ok (some job))
    unfolding claim_candidate
    sql_claimed row row' cs rest rows' job until written one there scanned =
        rw (quiet.fault 2, quiet.fault 3, one, quiet.fault 4, claim_candidate)
          (ap (λ found. read_back json io rows written_rows found) sel
            ∙ ap (λ r. read_back json io rows r (row' ∷ rest)) written
            ∙ read_found rows' row' rest job scanned)
      where
        written_rows : List JobRow
        written_rows =
            update_where (is_candidate_row row.id sync_id (micros_from_time now))
              (claimed_row w (micros_from_time now) until) rows

        sel : select (λ r. str_eq (job_row_id r) row.id) written_rows ≡ row' ∷ rest
        sel = ap (select (λ r. str_eq (job_row_id r) row.id)) written ∙ there

    module _ (s : JobStore) (table : Represents json rows s) (unique : Keys s.jobs) (n : ℕ) where
      claim_candidate-ClaimsAlike :
          (cs : List JobRow) (es : List (Str × SyncJob))
          → IsTableOf job_row_id (IsRowOf json) cs es
          → All (IsCandidate s.jobs (stored now) sync_id) es
          → ClaimsAlike
              (claim_candidate json io rows cs sync_id w
                (micros_from_time now)
                (micros_from_time (now + n * 1000)))
              (Memory.claim_first s (map (λ e. e.0) es) w (pos (n * 1000)) (stored now))
      unfolding claim_candidate Memory.claim_first
      claim_candidate-ClaimsAlike [] [] t h = rw (committed rows none) (refl, table)
      claim_candidate-ClaimsAlike [] (e ∷ es) t h = elim t [ ]
      claim_candidate-ClaimsAlike (row ∷ cs) [] t h = elim t [ ]
      claim_candidate-ClaimsAlike (row ∷ cs) ((k, v) ∷ es) t h =
          let there : lookup row.id s.jobs ≡ some v = rw t.0 h.0.0 in
          elim (update_lem job_row_id (IsRowOf json) (claimed-IsUpdateOf row.id w n) rows s.jobs
            table unique) [
              | missing absent same none_there gone ↦ cc
              | refused v' found denied same none_there gone ↦ cc
              | applied v' found allowed one table' ↦
                  let written_rows =
                    update_where (is_candidate_row row.id sync_id (micros_from_time now))
                      (claimed_row w (micros_from_time now) (micros_from_time (now + n * 1000)))
                      rows in
                  let same : v' ≡ v = ground arith in
                  let (row', rest, sel, is) =
                    IsTableOf-found job_row_id (IsRowOf json) row.id
                      (claimed_job v' w (stored now) (pos (n * 1000))) written_rows _ table'
                      (lookup-insert_self row.id _ s.jobs) in
                  rw
                    (
                      sql_claimed row row' cs rest written_rows
                          (claimed_job v' w (stored now) (pos (n * 1000)))
                          (micros_from_time (now + n * 1000)) refl one sel
                          (scan_sync_job_lem row' _ is),
                      h.0.0,
                      Memory.claim_first,
                    )
                    (
                      ap (λ j. ok (some (claimed_job j w (stored now) (pos (n * 1000))))) same,
                      subst (IsTableOf job_row_id (IsRowOf json) written_rows)
                          (sym (observe_claim-jobs (was_expired_processing v (stored now)) _))
                          (subst
                            (λ (j : SyncJob).
                              IsTableOf job_row_id (IsRowOf json) written_rows
                                (insert k (claimed_job j w (stored now) (pos (n * 1000))) s.jobs))
                            same
                            (subst
                              (λ i.
                                IsTableOf job_row_id (IsRowOf json) written_rows (
                                  insert i (claimed_job v' w (stored now) (pos (n * 1000))) s.jobs))
                              t.0 table')),
                    )
            ]

      pub claim_next_refines :
          ClaimsAlike
            (Sqlite.claim_next json io rows sync_id w (pos (n * 1000)) now)
            (Memory.claim_next none s sync_id w (pos (n * 1000)) (stored now))
      unfolding Sqlite.claim_next Memory.claim_next Memory.claimable_job_ids
      claim_next_refines = elim (Bool-cases (is_nonpos (pos (n * 1000)))) [
        | inl bad ↦ rw (quiet.ctx 0, bad, Sqlite.claim_next, Memory.claim_next) (refl, table)
        | inr good ↦
            rw
              (
                quiet.ctx 0,
                good,
                quiet.fault 0,
                quiet.fault 1,
                Sqlite.claim_next,
                Memory.claim_next,
              )
              (claim_candidate-ClaimsAlike _ _ (candidate_rows-IsTableOf rows s table)
                (claimable_entries-IsCandidate s (stored now) sync_id unique))
      ]
