-- ===== src/Deltas/Pull.antt =====
-- internal/store.go: `Pull`, `MarkDispatched` and the pending identifiers of `DeltaMemoryStore`.
use deltaflow.Prelude.{
  ℤ, Str, Map, Bool, if◌then◌else◌, not, ◌&&◌, ◌==◌, ltb, Option, none, some, List, [], map, str_eq,
  str_lt, lookup, insert, sort_by, select, take, is_nonpos, to_count,
}
use deltaflow.Model.{
  Time, Delta, dispatched, is_pending, is_dispatched, Ctx, Error, delta_not_found, Result, ok, err,
}
use deltaflow.Deltas.State.{DeltaStore}

-- The order of deltas: `OccurredAt`, then `CreatedAt`, then the identifier.
unfoldable pub delta_before : Str × Delta → Str × Delta → Bool
delta_before (_, left) (_, right) =
    if not (left.occurred_at == right.occurred_at)
    then ltb left.occurred_at right.occurred_at
    else if not (left.created_at == right.created_at)
    then ltb left.created_at right.created_at
    else str_lt left.id right.id

-- `pendingDeltaIDsLocked`
unfoldable pub pending_delta_ids : Map Delta → List Str
unfolding delta_before
pending_delta_ids m = map (λ e. e.0) (sort_by delta_before (select (λ e. is_pending e.1.state) m))

abbrev pub is_pending_for : Str → Delta → Bool
is_pending_for sync_id delta = is_pending delta.state && str_eq delta.sync_id sync_id

-- The pending entries of a sync, in order.
unfoldable pub pending_entries : Map Delta → Str → List (Str × Delta)
unfolding delta_before
pending_entries m sync_id = sort_by delta_before (select (λ e. is_pending_for sync_id e.1) m)

-- `pendingDeltaIDsLockedForSyncLocked`
unfoldable pub pending_delta_ids_for_sync : Map Delta → Str → List Str
unfolding pending_entries
pending_delta_ids_for_sync m sync_id = map (λ e. e.0) (pending_entries m sync_id)

-- `Pull`
unfoldable pub pull : Ctx → DeltaStore → Str → ℤ → Result (List (Option Delta))
unfolding pending_delta_ids_for_sync
pull (some e) s sync_id limit = err e
pull none s sync_id limit =
    if is_nonpos limit
    then ok []
    else ok (
        map (λ id. lookup id s.deltas)
          (take (to_count limit) (pending_delta_ids_for_sync s.deltas sync_id)))

abbrev pub to_dispatched : Delta → Time → Delta
to_dispatched delta now = record delta { state = dispatched; dispatched_at = some now }

-- `MarkDispatched`
unfoldable pub mark_dispatched : Ctx → DeltaStore → Str → Time → DeltaStore × Option Error
mark_dispatched (some e) s delta_id now = (s, some e)
mark_dispatched none s delta_id now = elim (lookup delta_id s.deltas) [
  | none ↦ (s, some delta_not_found)
  | some delta ↦
      if is_dispatched delta.state
      then (s, none)
      else (record s { deltas = insert delta_id (to_dispatched delta now) s.deltas }, none)
]
