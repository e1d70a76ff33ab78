-- ===== src/Sqlite/Refinement.antt =====
-- The transitions of pkg/connectors/sqlite/job_store.go next to those of internal/store.go, where no
-- call of the engine fails and the context does not end.
use deltaflow.Prelude.{
  ℕ, pos, ◌*◌, Str, Bool, true, false, ◌≡◌, refl, ap, ◌∙◌, Option, none, some, List, Keys,
  if◌then◌else◌, is_empty, trim_space, Bool-cases, not, is_nonpos, inl, inr, arith,
}
use deltaflow.Model.{
  Time, SyncJob, Error, job_not_found, job_lease_not_owned, job_lease_not_expired,
}
use deltaflow.Jobs.State.{
  JobStore, Transition, renew_lease_transition, mark_synced_transition, mark_retrying_transition,
  requeue_claimed_transition, mark_dead_transition, job_lease_owned,
}
use deltaflow.Jobs.Owned as Memory
use deltaflow.Jobs.Owned.{to_renewed, to_synced, to_retrying, to_requeued, to_dead}
use deltaflow.Jobs.Operator.{to_released, to_operator_requeued}
use deltaflow.Jobs.Operator as MemoryOperator
use deltaflow.Jobs.Edges.{touched}
use deltaflow.Sqlite.Sql.{Session, micros_from_time, update_where, affected}
use deltaflow.Sqlite.Rows.{Json, JobRow}
use deltaflow.Sqlite.Tables.{IsTableOf, has_row, IsUpdateOf, missing, refused, applied, update_lem}
use deltaflow.Sqlite.Owned as Sqlite
use deltaflow.Sqlite.Owned.{job_exists, update_rows, is_owned_row, is_expired_row}
use deltaflow.Sqlite.Transitions.{
  IsRowOf, job_row_id, stored, is_expired_job, synced-IsUpdateOf, retrying-IsUpdateOf,
  requeued-IsUpdateOf, dead-IsUpdateOf, renewed-IsUpdateOf, released-IsUpdateOf,
  operator_requeued-IsUpdateOf,
}

-- No context ends and no step of the engine fails.
pub record IsQuiet (io : Session) : Type 0 where
  pub ctx : (n : ℕ) → io.ctx n ≡ none
  pub fault : (n : ℕ) → io.fault n ≡ none

-- The rows of the table are the jobs of the store, one for one.
abbrev pub Represents : Json → List JobRow → JobStore → Type 0
Represents json rows s = IsTableOf job_row_id (IsRowOf json) rows s.jobs

-- The same answer, and a table that goes on to represent the store.
abbrev pub Agrees : Json → List JobRow × Option Error → JobStore × Option Error → Type 0
Agrees json r r' = (r.1 ≡ r'.1) × Represents json r.0 r'.0

not-false : (b : Bool) → not b ≡ false → b ≡ true
not-false b h = ground arith

not-true : (b : Bool) → not b ≡ true → b ≡ false
not-true b h = ground arith

module _ (io : Session) (quiet : IsQuiet io) (id : Str) (p : JobRow → Bool) (set : JobRow → JobRow)
    (refusal : Error) (rows : List JobRow) where
  update_rows-missing :
      update_where p set rows ≡ rows
      → affected p rows ≡ 0
      → has_row job_row_id id rows ≡ false
      → update_rows io rows id p set refusal ≡ (rows, some job_not_found)
  unfolding update_rows job_exists
  update_rows-missing same none_there gone =
      rw
        (
          quiet.ctx 1,
          quiet.fault 0,
          quiet.fault 1,
          same,
          none_there,
          quiet.ctx 2,
          quiet.fault 2,
          update_rows,
          job_exists,
        )
        (ap (λ b. (rows, if b then some refusal else some job_not_found))
          (ap (has_row job_row_id id) same ∙ gone))

  update_rows-refused :
      update_where p set rows ≡ rows
      → affected p rows ≡ 0
      → has_row job_row_id id rows ≡ true
      → update_rows io rows id p set refusal ≡ (rows, some refusal)
  unfolding update_rows job_exists
  update_rows-refused same none_there there =
      rw
        (
          quiet.ctx 1,
          quiet.fault 0,
          quiet.fault 1,
          same,
          none_there,
          quiet.ctx 2,
          quiet.fault 2,
          update_rows,
          job_exists,
        )
        (ap (λ b. (rows, if b then some refusal else some job_not_found))
          (ap (has_row job_row_id id) same ∙ there))

  update_rows-applied :
      affected p rows ≡ 1 → update_rows io rows id p set refusal ≡ (update_where p set rows, none)
  unfolding update_rows
  update_rows-applied one = rw (quiet.ctx 1, quiet.fault 0, quiet.fault 1, one, update_rows) refl

module _ (io : Session) (quiet : IsQuiet io) (json : Json) (rows : List JobRow) (s : JobStore)
    (table : Represents json rows s) (unique : Keys s.jobs) where
  update_owned-Agrees :
      (id w : Str) (now : Time) (t : Transition) (set : JobRow → JobRow)
      (fn : SyncJob → Time → SyncJob)
      → IsUpdateOf job_row_id
          (IsRowOf json)
          id
          (is_owned_row id w (micros_from_time now))
          set
          (λ job. job_lease_owned job (stored now) w)
          (λ job. touched (fn job (stored now)) (stored now))
      → Agrees json
          (Sqlite.update_owned io rows id w now set)
          (Memory.update_owned none s id w t fn (stored now))
  unfolding Sqlite.update_owned Memory.update_owned
  update_owned-Agrees id w now t set fn u =
      elim (update_lem job_row_id (IsRowOf json) u rows s.jobs table unique) [
        | missing absent same none_there gone ↦
            rw
              (
                update_rows-missing io quiet id (is_owned_row id w (micros_from_time now)) set
                    job_lease_not_owned rows same none_there gone,
                absent,
                Memory.update_owned,
              )
              (refl, table)
        | refused v found denied same none_there there ↦
            rw
              (
                update_rows-refused io quiet id (is_owned_row id w (micros_from_time now)) set
                    job_lease_not_owned rows same none_there there,
                found,
                denied,
                Memory.update_owned,
              )
              (refl, table)
        | applied v found allowed one table' ↦
            rw
              (
                update_rows-applied io quiet id (is_owned_row id w (micros_from_time now)) set
                    job_lease_not_owned rows one,
                found,
                allowed,
                Memory.update_owned,
              )
              (refl, table')
      ]

  sql_expired :
      (id audit_reason : Str) (now : Time) (set : Str → JobRow → JobRow)
      → is_empty (trim_space audit_reason) ≡ false
      → Sqlite.update_expired io rows id audit_reason now set
        ≡ update_rows io rows id
            (is_expired_row id (micros_from_time now))
            (set (trim_space audit_reason))
            job_lease_not_expired
  unfolding Sqlite.update_expired
  sql_expired id audit_reason now set given = rw (quiet.ctx 0, given, Sqlite.update_expired) refl

  update_expired-Agrees :
      (id audit_reason : Str) (now : Time) (set : Str → JobRow → JobRow)
      (fn : SyncJob → Str → SyncJob)
      → ((reason : Str)
          → IsUpdateOf job_row_id
              (IsRowOf json)
              id
              (is_expired_row id (micros_from_time now))
              (set reason)
              (is_expired_job (stored now))
              (λ job. touched (fn job reason) (stored now)))
      → Agrees json
          (Sqlite.update_expired io rows id audit_reason now set)
          (MemoryOperator.update_expired none s id audit_reason fn (stored now))
  unfolding Sqlite.update_expired MemoryOperator.update_expired
  update_expired-Agrees id audit_reason now set fn u =
      elim (Bool-cases (is_empty (trim_space audit_reason))) [
        | inl blank ↦
            rw (quiet.ctx 0, blank, Sqlite.update_expired, MemoryOperator.update_expired)
              (refl, table)
        | inr given ↦
            let reason = trim_space audit_reason in
            elim (update_lem job_row_id (IsRowOf json) (u reason) rows s.jobs table unique) [
              | missing absent same none_there gone ↦
                  rw
                    (
                      sql_expired id audit_reason now set given,
                      update_rows-missing io quiet id (is_expired_row id (micros_from_time now))
                          (set reason) job_lease_not_expired rows same none_there gone,
                      given,
                      absent,
                      MemoryOperator.update_expired,
                    )
                    (refl, table)
              | refused v found denied same none_there there ↦
                  rw
                    (
                      sql_expired id audit_reason now set given,
                      update_rows-refused io quiet id (is_expired_row id (micros_from_time now))
                          (set reason) job_lease_not_expired rows same none_there there,
                      given,
                      found,
                      not-false _ denied,
                      MemoryOperator.update_expired,
                    )
                    (refl, table)
              | applied v found allowed one table' ↦
                  rw
                    (
                      sql_expired id audit_reason now set given,
                      update_rows-applied io quiet id (is_expired_row id (micros_from_time now))
                          (set reason) job_lease_not_expired rows one,
                      given,
                      found,
                      not-true _ allowed,
                      MemoryOperator.update_expired,
                    )
                    (refl, table')
            ]
      ]

  pub transitions_refine :
      (id w : Str) (ghost : Bool) (e : Option Error) (next now : Time)
      → Agrees json
          (Sqlite.mark_synced io rows id w ghost now)
          (Memory.mark_synced none s id w ghost (stored now))
        × Agrees json
            (Sqlite.mark_retrying io rows id w e next now)
            (Memory.mark_retrying none s id w e (stored next) (stored now))
        × Agrees json
            (Sqlite.requeue_claimed io rows id w e next now)
            (Memory.requeue_claimed none s id w e (stored next) (stored now))
        × Agrees json
            (Sqlite.mark_dead io rows id w e now)
            (Memory.mark_dead none s id w e (stored now))
  unfolding Sqlite.mark_synced Memory.mark_synced Sqlite.mark_retrying Memory.mark_retrying
      Sqlite.requeue_claimed Memory.requeue_claimed Sqlite.mark_dead Memory.mark_dead
  transitions_refine id w ghost e next now = (
    update_owned-Agrees id w now mark_synced_transition _ (to_synced ghost)
        (synced-IsUpdateOf json id w now ghost),
    update_owned-Agrees id w now mark_retrying_transition _ (to_retrying e (stored next))
        (retrying-IsUpdateOf json id w now e next),
    update_owned-Agrees id w now requeue_claimed_transition _ (to_requeued e (stored next))
        (requeued-IsUpdateOf json id w now e next),
    update_owned-Agrees id w now mark_dead_transition _ (to_dead e)
        (dead-IsUpdateOf json id w now e),
  )

  pub renewal_refines :
      (id w : Str) (n : ℕ) (now : Time)
      → Agrees json
          (Sqlite.renew_lease io rows id w (pos (n * 1000)) now)
          (Memory.renew_lease none s id w (pos (n * 1000)) (stored now))
  unfolding Sqlite.renew_lease Memory.renew_lease
  renewal_refines id w n now = elim (Bool-cases (is_nonpos (pos (n * 1000)))) [
    | inl bad ↦ rw (quiet.ctx 0, bad, Sqlite.renew_lease, Memory.renew_lease) (refl, table)
    | inr good ↦
        rw (quiet.ctx 0, good, Sqlite.renew_lease, Memory.renew_lease)
          (update_owned-Agrees id w now renew_lease_transition _ (to_renewed (pos (n * 1000)))
            (renewed-IsUpdateOf json id w now n))
  ]

  pub operator_refines :
      (id reason : Str) (next now : Time)
      → Agrees json
          (Sqlite.force_release_expired_lease io rows id reason now)
          (MemoryOperator.force_release_expired_lease none s id reason (stored now))
        × Agrees json
            (Sqlite.requeue_expired_lease io rows id next reason now)
            (MemoryOperator.requeue_expired_lease none s id (stored next) reason (stored now))
  unfolding Sqlite.force_release_expired_lease MemoryOperator.force_release_expired_lease
      Sqlite.requeue_expired_lease MemoryOperator.requeue_expired_lease
  operator_refines id reason next now = (
    update_expired-Agrees id reason now _ to_released (λ r. released-IsUpdateOf json id now r),
    update_expired-Agrees id reason now _ (to_operator_requeued (stored next))
        (λ r. operator_requeued-IsUpdateOf json id now r next),
  )
