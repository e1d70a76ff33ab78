-- ===== src/Jobs/Queries.antt =====
-- internal/store.go: the lease queries of `JobMemoryStore`.
use deltaflow.Prelude.{
  ℤ, Str, Bool, true, false, if◌then◌else◌, not, ◌&&◌, ◌||◌, Option, none, some, List, [], map,
  ◌==◌, ltb, str_eq, str_lt, sort_by, select, take, is_empty, is_nonpos, is_neg, to_count,
  add_duration,
}
use deltaflow.Model.{
  Time, after, SyncJob, is_processing, Ctx, invalid_lease_window, Result, ok, err,
}
use deltaflow.Jobs.State.{JobStore, is_lease_live}

abbrev same_time : Option Time → Option Time → Bool
same_time none none = true
same_time none (some u) = false
same_time (some t) none = false
same_time (some t) (some u) = t == u

abbrev time_before : Option Time → Option Time → Bool
time_before none none = false
time_before none (some u) = true
time_before (some t) none = false
time_before (some t) (some u) = ltb t u

-- The order of leases: no expiry first, then `LockedUntil`, `UpdatedAt` and the identifier.
unfoldable pub lease_before : Str × SyncJob → Str × SyncJob → Bool
lease_before (_, left) (_, right) =
    if not (same_time left.locked_until right.locked_until)
    then time_before left.locked_until right.locked_until
    else if not (left.updated_at == right.updated_at)
    then ltb left.updated_at right.updated_at
    else str_lt left.id right.id

-- What the loop keeps: processing jobs of the sync, of all syncs if it is empty, that pass.
abbrev pub is_selected : Str → (SyncJob → Bool) → SyncJob → Bool
is_selected sync_id predicate job =
    is_processing job.state && (is_empty sync_id || str_eq job.sync_id sync_id) && predicate job

-- `selectProcessingLeasesLocked`
unfoldable pub select_processing_leases : JobStore → Str → ℤ → (SyncJob → Bool) → List SyncJob
unfolding lease_before
select_processing_leases s sync_id limit predicate =
    map (λ e. e.1)
      (take (to_count limit)
        (sort_by lease_before (select (λ e. is_selected sync_id predicate e.1) s.jobs)))

abbrev pub is_active : Time → SyncJob → Bool
is_active now job = is_lease_live job.locked_until now

abbrev pub is_expired : Time → SyncJob → Bool
is_expired now job = not (is_lease_live job.locked_until now)

abbrev pub is_within : Time → ℤ → Option Time → Bool
is_within now within none = false
is_within now within (some until) = after until now && not (after until (add_duration now within))

abbrev pub is_near_expiry : Time → ℤ → SyncJob → Bool
is_near_expiry now within job = is_within now within job.locked_until

-- `ListActiveLeases`
unfoldable pub list_active_leases : Ctx → JobStore → Str → ℤ → Time → Result (List SyncJob)
unfolding select_processing_leases
list_active_leases (some e) s sync_id limit now = err e
list_active_leases none s sync_id limit now =
    if is_nonpos limit then ok [] else ok (select_processing_leases s sync_id limit (is_active now))

-- `ListExpiredProcessingLeases`
unfoldable pub list_expired_processing_leases :
    Ctx → JobStore → Str → ℤ → Time → Result (List SyncJob)
unfolding select_processing_leases
list_expired_processing_leases (some e) s sync_id limit now = err e
list_expired_processing_leases none s sync_id limit now =
    if is_nonpos limit
    then ok []
    else ok (select_processing_leases s sync_id limit (is_expired now))

-- `ListNearExpiryLeases`
unfoldable pub list_near_expiry_leases : Ctx → JobStore → Str → ℤ → ℤ → Time → Result (List SyncJob)
unfolding select_processing_leases
list_near_expiry_leases (some e) s sync_id within limit now = err e
list_near_expiry_leases none s sync_id within limit now =
    if is_neg within
    then err invalid_lease_window
    else if is_nonpos limit
    then ok []
    else ok (select_processing_leases s sync_id limit (is_near_expiry now within))
