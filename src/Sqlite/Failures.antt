-- ===== src/Sqlite/Failures.antt =====
-- Errors of the engine and of contexts in pkg/connectors/sqlite/job_store.go.
use deltaflow.Prelude.{
  ℕ, suc, ap, length, if◌then◌else◌, ℤ, Str, Bool, true, false, ◌≡◌, refl, ◌⊎◌, inl, inr, Option,
  none, some, List, [], ◌∷◌, Bool-cases, subst, sym, &&-true, ltb, is_nonpos, is_empty, trim_space,
  select, str_eq, arith,
}
use deltaflow.Model.{Time, SyncJob, Error, Result, ok, err, nil_dereference, diverges}
use deltaflow.Sqlite.Sql.{Session, update_where, affected}
use deltaflow.Sqlite.Rows.{Json, JobRow, scan_sync_job}
use deltaflow.Sqlite.Owned.{
  update_rows, update_owned, update_expired, job_exists, renew_lease, mark_synced, mark_retrying,
  requeue_claimed, mark_dead, force_release_expired_lease, requeue_expired_lease, renewed_row,
  synced_row, retrying_row, requeued_row, dead_row, released_row, operator_requeued_row,
}
use deltaflow.Sqlite.Claim.{
  commit, read_back, claim_candidate, claim_next, is_candidate_row, is_claimable_row, claimed_row,
}

-- What a transaction leaves: the rows as they were, or, with the answer of a job, other rows.
abbrev pub IsAtomic : List JobRow → List JobRow × Result (Option SyncJob) → Type 0
IsAtomic rows r = (r.0 ≡ rows) ⊎ ((job : SyncJob) × (r.1 ≡ ok (some job)))

-- A step that may fail comes first.
step-IsAtomic :
    (rows : List JobRow) (fault : Option Error) (r : List JobRow × Result (Option SyncJob))
    → IsAtomic rows r
    → IsAtomic rows (elim fault [ some e ↦ (rows, err e) | none ↦ r ])
step-IsAtomic rows none r h = h
step-IsAtomic rows (some e) r h = inl refl

if-IsAtomic :
    (rows : List JobRow) (b : Bool) (r r' : List JobRow × Result (Option SyncJob))
    → IsAtomic rows r
    → IsAtomic rows r'
    → IsAtomic rows (if b then r else r')
if-IsAtomic rows true r r' h h' = h
if-IsAtomic rows false r r' h h' = h'

committed-IsAtomic :
    (rows rows' : List JobRow) (fault : Option Error) (job : SyncJob)
    → IsAtomic rows (elim fault [ some e ↦ (rows, err e) | none ↦ (rows', ok (some job)) ])
committed-IsAtomic rows rows' none job = inr (job, refl)
committed-IsAtomic rows rows' (some e) job = inl refl

update_idle :
    (p : JobRow → Bool) (set : JobRow → JobRow) (rows : List JobRow)
    → affected p rows ≡ 0
    → update_where p set rows ≡ rows
unfolding affected update_where
update_idle p set [] h = refl
update_idle p set (row ∷ rows) h = elim (Bool-cases (p row)) [
  | inl e ↦
      let absurdity : suc (length (select p rows)) ≡ 0 = rw e at h in
      let never : ⊥ = omega (arith, absurdity) in elim never [ ]
  | inr e ↦
      let h' : length (select p rows) ≡ 0 = rw e at h in
      rw (e, update_where) (ap (◌∷◌ row) (update_idle p set rows h'))
]

-- A row that a statement has changed is still found under its identifier.
changed_there :
    (p : JobRow → Bool) (set : JobRow → JobRow) (id : Str)
    → ((row : JobRow) → p row ≡ true → str_eq row.id id ≡ true)
    → ((row : JobRow) → (set row).id ≡ row.id)
    → (rows : List JobRow) → ltb 0 (affected p rows) ≡ true
    → (row : JobRow) × (rest : List JobRow) × (select
          (λ r. str_eq r.id id)
          (update_where p set rows)
        ≡ row ∷ rest)
unfolding affected update_where
changed_there p set id named kept [] h = ground arith
changed_there p set id named kept (row ∷ rows) h = elim (Bool-cases (p row)) [
  | inl e ↦
      let there : str_eq (set row).id id ≡ true = rw (kept row) (named row e) in
      (
        set row,
        select (λ r. str_eq r.id id) (update_where p set rows),
        rw (e, there, update_where) refl,
      )
  | inr e ↦
      let h' : ltb 0 (length (select p rows)) ≡ true = rw e at h in
      let (r, rest, eq) = changed_there p set id named kept rows h' in
      elim (Bool-cases (str_eq row.id id)) [
        | inl f ↦ (row, r ∷ rest, rw (e, f, eq, update_where) refl)
        | inr f ↦ (r, rest, rw (e, f, eq, update_where) refl)
      ]
]

module _ (json : Json) (io : Session) (rows : List JobRow) where
  read_back-IsAtomic :
      (rows' : List JobRow) (row : JobRow) (rest : List JobRow)
      → IsAtomic rows (read_back json io rows rows' (row ∷ rest))
  read_back-IsAtomic rows' row rest = go (scan_sync_job json row)
    where
      go :
          (r : Result SyncJob)
          → IsAtomic rows (elim r [
            | ok job ↦ commit io rows rows' (some job)
            | err e ↦ (rows, err e)
            | nil_dereference ↦ (rows, nil_dereference)
            | diverges ↦ (rows, diverges)
          ])
      go (ok job) = committed-IsAtomic rows rows' (io.fault 5) job
      go (err e) = inl refl
      go nil_dereference = inl refl
      go diverges = inl refl

  idle-IsAtomic : IsAtomic rows (commit io rows rows none)
  idle-IsAtomic = step-IsAtomic rows (io.fault 5) (rows, ok none) (inl refl)

  updated-IsAtomic :
      (sync_id id w : Str) (now until : ℕ)
      → (b : Bool) → ltb 0 (affected (is_candidate_row id sync_id now) rows) ≡ b
      → IsAtomic rows (
          let rows' =
            update_where (is_candidate_row id sync_id now) (claimed_row w now until) rows in
          if b
          then elim (io.fault 4) [
            | some e ↦ (rows, err e)
            | none ↦ read_back json io rows rows' (select (λ r. str_eq r.id id) rows')
          ]
          else commit io rows rows' none)
  updated-IsAtomic sync_id id w now until true h =
      let condition = is_candidate_row id sync_id now in
      let (row, rest, there) =
        changed_there condition (claimed_row w now until) id
          (λ r g. (&&-true (str_eq r.id id) (is_claimable_row sync_id now r) g).0) (λ r. refl) rows
          h in
      step-IsAtomic rows (io.fault 4) _ (
        subst
          (λ found.
            IsAtomic rows (
              read_back json io rows (update_where condition (claimed_row w now until) rows) found))
          (sym there) (read_back-IsAtomic _ row rest))
  updated-IsAtomic sync_id id w now until false h =
      let condition = is_candidate_row id sync_id now in
      let none_there : affected condition rows ≡ 0 = ground arith in
      subst (λ r. IsAtomic rows (commit io rows r none))
        (sym (update_idle condition (claimed_row w now until) rows none_there)) idle-IsAtomic

  claim_candidate-IsAtomic :
      (cs : List JobRow) (sync_id w : Str) (now until : ℕ)
      → IsAtomic rows (claim_candidate json io rows cs sync_id w now until)
  unfolding claim_candidate
  claim_candidate-IsAtomic [] sync_id w now until = idle-IsAtomic
  claim_candidate-IsAtomic (row ∷ cs) sync_id w now until =
      step-IsAtomic rows (io.fault 2) _
        (step-IsAtomic rows (io.fault 3) _ (updated-IsAtomic sync_id row.id w now until _ refl))

  -- `ClaimNext` of the SQLite store leaves the rows as they were or answers a job, whichever step
  -- of its transaction fails and whatever the contexts are.
  pub claim_next-IsAtomic :
      (sync_id w : Str) (lock_for : ℤ) (now : Time)
      → IsAtomic rows (claim_next json io rows sync_id w lock_for now)
  unfolding claim_next
  claim_next-IsAtomic sync_id w lock_for now = step-IsAtomic rows (io.ctx 0) _ (
      if-IsAtomic rows (is_nonpos lock_for) _ _ (inl refl) (
        step-IsAtomic rows (io.fault 0) _
          (step-IsAtomic rows (io.fault 1) _ (claim_candidate-IsAtomic _ sync_id w _ _))))

-- What an update leaves: the rows as they were, or no error, or the error of the engine that made the
-- update and could not count the rows.
abbrev pub IsHonest : Session → List JobRow → List JobRow × Option Error → Type 0
IsHonest io rows r =
    (r.0 ≡ rows) ⊎ (r.1 ≡ none) ⊎ ((e : Error) × (io.fault 1 ≡ some e) × (r.1 ≡ some e))

if-IsHonest :
    (io : Session) (rows : List JobRow) (b : Bool) (r r' : List JobRow × Option Error)
    → IsHonest io rows r
    → IsHonest io rows r'
    → IsHonest io rows (if b then r else r')
if-IsHonest io rows true r r' h h' = h
if-IsHonest io rows false r r' h h' = h'

step-IsHonest :
    (io : Session) (rows : List JobRow) (fault : Option Error) (r : List JobRow × Option Error)
    → IsHonest io rows r
    → IsHonest io rows (elim fault [ some e ↦ (rows, some e) | none ↦ r ])
step-IsHonest io rows none r h = h
step-IsHonest io rows (some e) r h = inl refl

module _ (io : Session) (rows : List JobRow) (id : Str) (p : JobRow → Bool) (set : JobRow → JobRow)
    (refusal : Error) where
  counted-IsHonest :
      (b : Bool)
      → ltb 0 (affected p rows) ≡ b
      → IsHonest io rows (
          if b
          then (update_where p set rows, none)
          else (update_where p set rows, job_exists io (update_where p set rows) id refusal))
  counted-IsHonest true h = inr (inl refl)
  counted-IsHonest false h =
      let none_there : affected p rows ≡ 0 = ground arith in inl (update_idle p set rows none_there)

  updated-IsHonest :
      (fault : Option Error)
      → io.fault 1 ≡ fault
      → (r : List JobRow × Option Error) → IsHonest io rows r
      → IsHonest io rows (elim fault [ some e ↦ (update_where p set rows, some e) | none ↦ r ])
  updated-IsHonest none h r g = g
  updated-IsHonest (some e) h r g = inr (inr (e, h, refl))

  update_rows-IsHonest : IsHonest io rows (update_rows io rows id p set refusal)
  unfolding update_rows
  update_rows-IsHonest = step-IsHonest io rows (io.ctx 1) _ (
      step-IsHonest io rows (io.fault 0) _
        (updated-IsHonest (io.fault 1) refl _ (counted-IsHonest _ refl)))

-- A renewal, a transition or an operator's action of the SQLite store leaves the rows as they
-- were, or answers no error, or answers the error of the engine that has made the update and could
-- not count its rows.
pub updates-IsHonest :
    (io : Session) (rows : List JobRow) (id w reason : Str) (ghost : Bool) (e : Option Error)
    (lock_for : ℤ) (next now : Time)
    → IsHonest io rows (renew_lease io rows id w lock_for now)
      × IsHonest io rows (mark_synced io rows id w ghost now)
      × IsHonest io rows (mark_retrying io rows id w e next now)
      × IsHonest io rows (requeue_claimed io rows id w e next now)
      × IsHonest io rows (mark_dead io rows id w e now)
      × IsHonest io rows (force_release_expired_lease io rows id reason now)
      × IsHonest io rows (requeue_expired_lease io rows id next reason now)
unfolding renew_lease mark_synced mark_retrying requeue_claimed mark_dead
    force_release_expired_lease requeue_expired_lease update_owned update_expired
updates-IsHonest io rows id w reason ghost e lock_for next now = (
  step-IsHonest io rows (io.ctx 0) _ (
      if-IsHonest io rows (is_nonpos lock_for) _ _ (inl refl)
        (update_rows-IsHonest io rows id _ (renewed_row lock_for now) _)),
  update_rows-IsHonest io rows id _ (synced_row ghost now) _,
  update_rows-IsHonest io rows id _ (retrying_row e next now) _,
  update_rows-IsHonest io rows id _ (requeued_row e next now) _,
  update_rows-IsHonest io rows id _ (dead_row e now) _,
  step-IsHonest io rows (io.ctx 0) _ (
      if-IsHonest io rows (is_empty (trim_space reason)) _ _ (inl refl)
        (update_rows-IsHonest io rows id _ (released_row (trim_space reason) now) _)),
  step-IsHonest io rows (io.ctx 0) _ (
      if-IsHonest io rows (is_empty (trim_space reason)) _ _ (inl refl)
        (update_rows-IsHonest io rows id _ (operator_requeued_row (trim_space reason) next now) _)),
)
