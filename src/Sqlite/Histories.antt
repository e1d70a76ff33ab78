-- ===== src/Sqlite/Histories.antt =====
-- Histories of requests to the job store of pkg/connectors/sqlite/job_store.go and to the one of
-- internal/store.go, with the answers that the callers get.
use deltaflow.Prelude.{
  ℕ, pos, ◌*◌, Str, Bool, false, ◌≡◌, refl, ap, Option, none, some, List, [], ◌∷◌, All, Keys,
}
use deltaflow.Model.{Time, SyncJob, Error, Result, ok, err}
use deltaflow.Jobs.State.{JobStore}
use deltaflow.Jobs.Claim as MemoryClaim
use deltaflow.Jobs.Owned as Memory
use deltaflow.Jobs.Operator as MemoryOperator
use deltaflow.Jobs.Calls as Calls
use deltaflow.Jobs.Calls.{Call, perform}
use deltaflow.Jobs.Invariant.{Inv}
use deltaflow.Jobs.Histories.{perform-Inv}
use deltaflow.Sqlite.Sql.{Session}
use deltaflow.Sqlite.Rows.{Json, JobRow}
use deltaflow.Sqlite.Claim as SqliteClaim
use deltaflow.Sqlite.Owned as Sqlite
use deltaflow.Sqlite.Transitions.{stored}
use deltaflow.Sqlite.Refinement.{
  IsQuiet, Represents, transitions_refine, renewal_refines, operator_refines,
}
use deltaflow.Sqlite.Claims.{claim_next_refines}

-- A duration is a number of microseconds.
pub data Request : Type 0 where
  claims : (sync_id worker_id : Str) → ℕ → Request
  renews : (job_id worker_id : Str) → ℕ → Request
  syncs : (job_id worker_id : Str) → Bool → Request
  retries : (job_id worker_id : Str) → Option Error → Time → Request
  requeues : (job_id worker_id : Str) → Option Error → Time → Request
  buries : (job_id worker_id : Str) → Option Error → Request
  releases : (job_id : Str) → Str → Request
  requeues_expired : (job_id : Str) → Time → Str → Request

abbrev pub Answer : Type 0
Answer = Result (Option SyncJob)

-- A nil error answers nothing.
abbrev pub answer_of : Option Error → Answer
answer_of none = ok none
answer_of (some e) = err e

abbrev pub answered {ℓ} : {S : Type ℓ} → S × Option Error → S × Answer
answered r = (r.0, answer_of r.1)

unfoldable pub sql_request : Json → Request → Session → Time → List JobRow → List JobRow × Answer
sql_request json (claims sync_id w n) io now rows =
    SqliteClaim.claim_next json io rows sync_id w (pos (n * 1000)) now
sql_request json (renews id w n) io now rows =
    answered (Sqlite.renew_lease io rows id w (pos (n * 1000)) now)
sql_request json (syncs id w ghost) io now rows =
    answered (Sqlite.mark_synced io rows id w ghost now)
sql_request json (retries id w e next) io now rows =
    answered (Sqlite.mark_retrying io rows id w e next now)
sql_request json (requeues id w e next) io now rows =
    answered (Sqlite.requeue_claimed io rows id w e next now)
sql_request json (buries id w e) io now rows = answered (Sqlite.mark_dead io rows id w e now)
sql_request json (releases id reason) io now rows =
    answered (Sqlite.force_release_expired_lease io rows id reason now)
sql_request json (requeues_expired id next reason) io now rows =
    answered (Sqlite.requeue_expired_lease io rows id next reason now)

-- The same request, made to the in-memory store at the moment that SQLite stores.
unfoldable pub memory_request : Request → Time → JobStore → JobStore × Answer
memory_request (claims sync_id w n) now s =
    MemoryClaim.claim_next none s sync_id w (pos (n * 1000)) (stored now)
memory_request (renews id w n) now s =
    answered (Memory.renew_lease none s id w (pos (n * 1000)) (stored now))
memory_request (syncs id w ghost) now s =
    answered (Memory.mark_synced none s id w ghost (stored now))
memory_request (retries id w e next) now s =
    answered (Memory.mark_retrying none s id w e (stored next) (stored now))
memory_request (requeues id w e next) now s =
    answered (Memory.requeue_claimed none s id w e (stored next) (stored now))
memory_request (buries id w e) now s = answered (Memory.mark_dead none s id w e (stored now))
memory_request (releases id reason) now s =
    answered (MemoryOperator.force_release_expired_lease none s id reason (stored now))
memory_request (requeues_expired id next reason) now s =
    answered (MemoryOperator.requeue_expired_lease none s id (stored next) reason (stored now))

pub record Event : Type 0 where
  pub request : Request
  pub io : Session
  pub at : Time

-- The answers of a history, and the rows or the store after it.
unfoldable pub sql_history : Json → List JobRow → List Event → List JobRow × List Answer
unfolding sql_request
sql_history json rows [] = (rows, [])
sql_history json rows (e ∷ es) =
    let (rows', answer) = sql_request json e.request e.io e.at rows in
    let (end, answers) = sql_history json rows' es in (end, answer ∷ answers)

unfoldable pub memory_history : JobStore → List Event → JobStore × List Answer
unfolding memory_request
memory_history s [] = (s, [])
memory_history s (e ∷ es) =
    let (s', answer) = memory_request e.request e.at s in
    let (end, answers) = memory_history s' es in (end, answer ∷ answers)

-- The answers are the same, and the rows represent the store.
abbrev Alike {ℓ} : {A : Type ℓ} → Json → List JobRow × A → JobStore × A → Type ℓ
Alike json r r' = (r.1 ≡ r'.1) × Represents json r.0 r'.0

request-Alike :
    (json : Json) (q : Request) (io : Session) (now : Time) (rows : List JobRow) (s : JobStore)
    → IsQuiet io
    → Represents json rows s
    → Keys s.jobs
    → Alike json (sql_request json q io now rows) (memory_request q now s)
unfolding sql_request memory_request
request-Alike json (claims sync_id w n) io now rows s quiet t u =
    claim_next_refines json sync_id now io quiet rows w s t u n
request-Alike json (renews id w n) io now rows s quiet t u =
    let h = (renewal_refines io quiet json rows s t u id w n now) in (ap answer_of h.0, h.1)
request-Alike json (syncs id w ghost) io now rows s quiet t u =
    let h = (transitions_refine io quiet json rows s t u id w ghost none now now).0 in
    (ap answer_of h.0, h.1)
request-Alike json (retries id w e next) io now rows s quiet t u =
    let h = (transitions_refine io quiet json rows s t u id w false e next now).1 in
    (ap answer_of h.0, h.1)
request-Alike json (requeues id w e next) io now rows s quiet t u =
    let h = (transitions_refine io quiet json rows s t u id w false e next now).2 in
    (ap answer_of h.0, h.1)
request-Alike json (buries id w e) io now rows s quiet t u =
    let h = (transitions_refine io quiet json rows s t u id w false e now now).3 in
    (ap answer_of h.0, h.1)
request-Alike json (releases id reason) io now rows s quiet t u =
    let h = (operator_refines io quiet json rows s t u id reason now now).0 in
    (ap answer_of h.0, h.1)
request-Alike json (requeues_expired id next reason) io now rows s quiet t u =
    let h = (operator_refines io quiet json rows s t u id reason next now).1 in
    (ap answer_of h.0, h.1)

memory_request-Inv :
    (q : Request) (now : Time) (s : JobStore) → Inv s → Inv (memory_request q now s).0
unfolding memory_request perform
memory_request-Inv (claims sync_id w n) now s v =
    perform-Inv (Calls.claims sync_id w (pos (n * 1000))) none (stored now) s v
memory_request-Inv (renews id w n) now s v =
    perform-Inv (Calls.renews id w (pos (n * 1000))) none (stored now) s v
memory_request-Inv (syncs id w ghost) now s v =
    perform-Inv (Calls.syncs id w ghost) none (stored now) s v
memory_request-Inv (retries id w e next) now s v =
    perform-Inv (Calls.retries id w e (stored next)) none (stored now) s v
memory_request-Inv (requeues id w e next) now s v =
    perform-Inv (Calls.requeues id w e (stored next)) none (stored now) s v
memory_request-Inv (buries id w e) now s v = perform-Inv (Calls.buries id w e) none (stored now) s v
memory_request-Inv (releases id reason) now s v =
    perform-Inv (Calls.releases id reason) none (stored now) s v
memory_request-Inv (requeues_expired id next reason) now s v =
    perform-Inv (Calls.requeues_expired id (stored next) reason) none (stored now) s v

-- Where no step of the engine fails and no context ends, every history of claims, renewals,
-- transitions and operator's actions gets from the SQLite job store the answers that it gets from
-- the in-memory one at the stored moments, and leaves rows that stand, one for one, for its jobs,
-- if they did so before and the in-memory store was well formed; durations are whole microseconds.
pub histories_refine :
    (json : Json) (rows : List JobRow) (s : JobStore) (es : List Event)
    → Represents json rows s
    → Inv s
    → All (λ e. IsQuiet e.io) es
    → ((sql_history json rows es).1 ≡ (memory_history s es).1)
      × Represents json (sql_history json rows es).0 (memory_history s es).0
unfolding sql_history memory_history
histories_refine json rows s [] t v quiet = (refl, t)
histories_refine json rows s (e ∷ es) t v quiet =
    let (same, table) = request-Alike json e.request e.io e.at rows s quiet.0 t v.unique in
    let (answers, end) =
      histories_refine json (sql_request json e.request e.io e.at rows).0
        (memory_request e.request e.at s).0 es table (memory_request-Inv e.request e.at s v)
        quiet.1 in
    (rw (same, answers) refl, end)
