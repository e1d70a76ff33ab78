-- ===== src/Sqlite/Bounds.antt =====
-- How many jobs `ClaimNextBatch` of pkg/connectors/sqlite/job_store.go answers.
use deltaflow.Prelude.{
  ℕ, zero, suc, ℤ, ◌+◌, ◌≤◌, Str, Bool, ◌≡◌, Option, none, some, List, [], ◌∷◌, ◌++◌, length,
  length-append, is_nonpos, to_count, if◌then◌else◌, true, false, arith,
}
use deltaflow.Model.{Time, SyncJob, Error, Result, ok, err, nil_dereference, diverges}
use deltaflow.Sqlite.Sql.{Session}
use deltaflow.Sqlite.Rows.{Json, JobRow}
use deltaflow.Sqlite.Claim.{claim_next, claim_rounds, claim_next_batch, give_back}

module _ (json : Json) (sync_id w : Str) (lock_for : ℤ) (back : (ℕ → Session) × (ℕ → Time)) where
  -- What a round does with the answer of its claim; `rest` are the rounds that follow.
  abbrev round_end :
      List SyncJob
      → (List JobRow → List SyncJob → List JobRow × Result (List SyncJob))
      → List JobRow × Result (Option SyncJob)
      → List JobRow × Result (List SyncJob)
  round_end jobs rest r = elim r.1 [
    | ok none ↦ (r.0, ok jobs)
    | ok (some job) ↦ rest r.0 (jobs ++ job ∷ [])
    | err e ↦ give_back back.0 back.1 r.0 w jobs e
    | nil_dereference ↦ (r.0, nil_dereference)
    | diverges ↦ (r.0, diverges)
  ]

  round_end-bounded :
      (n : ℕ) (jobs answered : List SyncJob)
      (rest : List JobRow → List SyncJob → List JobRow × Result (List SyncJob))
      → ((rows : List JobRow) (js : List SyncJob)
          → (rest rows js).1 ≡ ok answered
          → length answered ≤ length js + n)
      → (r : List JobRow × Result (Option SyncJob)) → (round_end jobs rest r).1 ≡ ok answered
      → length answered ≤ length jobs + suc n
  round_end-bounded n jobs answered rest ih (rows, ok none) h =
      let same : jobs ≡ answered = ground arith in rw (← same) (omega arith)
  round_end-bounded n jobs answered rest ih (rows, ok (some job)) h =
      omega (arith, ih rows (jobs ++ job ∷ []) h, length-append jobs (job ∷ []))
  round_end-bounded n jobs answered rest ih (rows, err e) h = cc
  round_end-bounded n jobs answered rest ih (rows, nil_dereference) h = cc
  round_end-bounded n jobs answered rest ih (rows, diverges) h = cc

  claim_rounds-bounded :
      (n : ℕ) (io : ℕ → Session) (clock : ℕ → Time) (rows : List JobRow)
      (jobs answered : List SyncJob)
      → (claim_rounds json sync_id w lock_for back n io clock rows jobs).1 ≡ ok answered
      → length answered ≤ length jobs + n
  unfolding claim_rounds
  claim_rounds-bounded zero io clock rows jobs answered h =
      let same : jobs ≡ answered = ground arith in rw (← same) (omega arith)
  claim_rounds-bounded (suc n) io clock rows jobs answered h =
      round_end-bounded n jobs answered
        (claim_rounds json sync_id w lock_for back n (λ k. io (suc k)) (λ k. clock (suc k)))
        (λ rows' js.
          claim_rounds-bounded n (λ k. io (suc k)) (λ k. clock (suc k)) rows' js answered)
        (claim_next json (io 0) rows sync_id w lock_for (clock 0)) h

abbrev after_step :
    List JobRow
    → Option Error
    → List JobRow × Result (List SyncJob)
    → List JobRow × Result (List SyncJob)
after_step rows fault r = elim fault [ some e ↦ (rows, err e) | none ↦ r ]

after_step-ok :
    (rows : List JobRow) (fault : Option Error) (r : List JobRow × Result (List SyncJob))
    (answered : List SyncJob)
    → (after_step rows fault r).1 ≡ ok answered
    → r.1 ≡ ok answered
after_step-ok rows none r answered h = h
after_step-ok rows (some e) r answered h = cc

if-ok :
    (n : ℕ) (b : Bool) (r r' : List JobRow × Result (List SyncJob)) (answered : List SyncJob)
    → (r.1 ≡ ok answered → length answered ≤ n)
    → (r'.1 ≡ ok answered → length answered ≤ n)
    → (if b then r else r').1 ≡ ok answered
    → length answered ≤ n
if-ok n true r r' answered f g h = f h
if-ok n false r r' answered f g h = g h

nothing-bounded :
    (answered : List SyncJob) {n : ℕ}
    → ◌≡◌ {A = Result (List SyncJob)} (ok []) (ok answered)
    → length answered ≤ n
nothing-bounded [] h = omega arith
nothing-bounded (job ∷ jobs) h = cc

-- `ClaimNextBatch` of the SQLite store answers no more jobs than its limit, whatever its steps and
-- its contexts are, if it answers jobs.
pub claim_next_batch-bounded :
    (json : Json) (start : Session) (back : (ℕ → Session) × (ℕ → Time)) (io : ℕ → Session)
    (clock : ℕ → Time) (rows : List JobRow) (sync_id w : Str) (limit lock_for : ℤ)
    (answered : List SyncJob)
    → (claim_next_batch json start back io clock rows sync_id w limit lock_for).1 ≡ ok answered
    → length answered ≤ to_count limit
unfolding claim_next_batch
claim_next_batch-bounded json start back io clock rows sync_id w limit lock_for answered h =
    if-ok (to_count limit) (is_nonpos lock_for) _ _ answered (λ bad. cc)
      (if-ok (to_count limit) (is_nonpos limit) _ _ answered (nothing-bounded answered) (λ given.
        omega (
          arith,
          claim_rounds-bounded json sync_id w lock_for back (to_count limit) io clock rows []
              answered given,
        )))
      (after_step-ok rows (start.ctx 0) _ answered h)
