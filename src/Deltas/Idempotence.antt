-- ===== src/Deltas/Idempotence.antt =====
-- About `Enqueue` of internal/store.go's `DeltaMemoryStore`, the invariant and duplicates.
use deltaflow.Prelude.{
  ℕ, suc, ◌-◌, Str, Map, true, false, ◌≡◌, refl, sym, ◌∙◌, ap, inl, inr, Option, none, some, lookup,
  insert, lookup-insert_self, has, length, codes, is_empty, Bool-cases, Option-cases, arith, ◌⊎◌,
  subst,
}
use deltaflow.Model.{Time, Delta, Codec, Ctx, Result, ok, err, nil_dereference, diverges}
use deltaflow.Ids.{candidate, next_free_first}
use deltaflow.Dedup.{compute_dedup_key, projection_key_hash}
use deltaflow.Deltas.State.{DeltaStore}
use deltaflow.Deltas.Enqueue.{
  enqueued, remember, store_delta, enqueue_hashed, enqueue_numbered, enqueue,
}
use deltaflow.Deltas.Invariant.{Inv, raise_next-Inv, insert_plain-Inv, insert_keyed-Inv}

-- The identifier that the next delta gets.
abbrev pub next_delta_id : DeltaStore → Str
next_delta_id s = candidate (codes "delta-") (suc s.next_id)

-- Under the invariant the numbering loop stops in its first round.
pub enqueue_first :
    (c : Codec) (s : DeltaStore) (delta : Delta) (now : Time)
    → Inv s
    → is_empty delta.id ≡ true
    → enqueue none c s delta now
      ≡ enqueue_numbered c s delta
          (suc s.next_id)
          (next_delta_id s)
          now
          (projection_key_hash c delta.projection_key)
unfolding enqueue
enqueue_first c s delta now v blank = rw (
  blank,
  next_free_first (length s.deltas) (codes "delta-") s.next_id s.deltas
      (v.free (suc s.next_id) (omega arith)),
)

pub remember_keyed :
    (key id : Str) (dedup : Map Str)
    → is_empty key ≡ false
    → remember key id dedup ≡ insert key id dedup
remember_keyed key id dedup h = rw h

remember_plain :
    (key id : Str) (dedup : Map Str) → is_empty key ≡ true → remember key id dedup ≡ dedup
remember_plain key id dedup h = rw h

-- A new delta whose dedup key is not indexed, or is empty.
store_delta-Inv :
    (s : DeltaStore) (delta : Delta)
    → Inv s
    → delta.id ≡ next_delta_id s
    → ((is_empty delta.dedup_key ≡ true) ⊎ (lookup delta.dedup_key s.dedup ≡ none))
    → Inv (store_delta s delta (suc s.next_id))
store_delta-Inv s delta v named new =
    let s' = record s { next_id = suc s.next_id } in
    let v' = raise_next-Inv s (suc s.next_id) v (omega arith) in
    let fresh : has delta.id s.deltas ≡ false =
      subst (λ i. has i s.deltas ≡ false) (sym named) (v.free (suc s.next_id) (omega arith)) in
    elim (Bool-cases (is_empty delta.dedup_key)) [
      | inl plain ↦ rw (remember_plain delta.dedup_key delta.id s.dedup plain) (
          insert_plain-Inv s' v' delta.id (suc s.next_id) delta fresh refl named (omega arith)
            plain)
      | inr keyed ↦ rw (remember_keyed delta.dedup_key delta.id s.dedup keyed) (
          insert_keyed-Inv s' v' delta.id (suc s.next_id) delta fresh refl named (omega arith)
            (ground arith))
    ]

-- A taken number that is given back leaves the store as it was.
give_back : (s : DeltaStore) → record s { next_id = suc s.next_id - 1 } ≡ s
give_back s = let e : suc s.next_id - 1 ≡ s.next_id = omega arith in rw e

enqueue_hashed-Inv :
    (s : DeltaStore) (delta : Delta)
    → Inv s
    → delta.id ≡ next_delta_id s
    → (is_empty delta.dedup_window ≡ true → is_empty delta.dedup_key ≡ true)
    → Inv (enqueue_hashed s delta (suc s.next_id)).0
unfolding enqueue_hashed
enqueue_hashed-Inv s delta v named plain = elim (Bool-cases (is_empty delta.dedup_window)) [
  | inl no_window ↦ rw no_window (store_delta-Inv s delta v named (inl (plain no_window)))
  | inr window ↦ elim (Option-cases (lookup delta.dedup_key s.dedup)) [
    | inl unseen ↦ rw (window, unseen) (store_delta-Inv s delta v named (inr unseen))
    | inr (id, seen) ↦ rw (window, seen) (subst Inv (sym (give_back s)) v)
  ]
]

enqueued_plain :
    (c : Codec) (delta : Delta) (id hash : Str) (now : Time)
    → is_empty (enqueued c delta id hash now).dedup_window ≡ true
    → is_empty (enqueued c delta id hash now).dedup_key ≡ true
enqueued_plain c delta id hash now h = rw h refl

enqueue_numbered-Inv :
    (c : Codec) (s : DeltaStore) (delta : Delta) (now : Time) (r : Result Str)
    → Inv s
    → Inv (enqueue_numbered c s delta (suc s.next_id) (next_delta_id s) now r).0
unfolding enqueue_numbered
enqueue_numbered-Inv c s delta now (ok hash) v =
    enqueue_hashed-Inv s (enqueued c delta (next_delta_id s) hash now) v refl
      (enqueued_plain c delta (next_delta_id s) hash now)
enqueue_numbered-Inv c s delta now (err e) v = raise_next-Inv s (suc s.next_id) v (omega arith)
enqueue_numbered-Inv c s delta now nil_dereference v =
    raise_next-Inv s (suc s.next_id) v (omega arith)
enqueue_numbered-Inv c s delta now diverges v = raise_next-Inv s (suc s.next_id) v (omega arith)

-- `Enqueue` keeps the delta store well formed on every branch, errors included: keyed by the deltas'
-- identifiers, with the numbers ahead free, and indexed by the dedup keys.
pub enqueue-Inv :
    (ctx : Ctx) (c : Codec) (s : DeltaStore) (delta : Delta) (now : Time)
    → Inv s
    → Inv (enqueue ctx c s delta now).0
enqueue-Inv (some e) c s delta now v = unfold enqueue in v
enqueue-Inv none c s delta now v = elim (Bool-cases (is_empty delta.id)) [
  | inl blank ↦
      subst (λ (r : DeltaStore × Result (Option Delta)). Inv r.0)
        (sym (enqueue_first c s delta now v blank)) (enqueue_numbered-Inv c s delta now _ v)
  | inr given ↦ refused given
]
  where
    refused : is_empty delta.id ≡ false → Inv (enqueue none c s delta now).0
    refused given = unfold enqueue in rw given v

-- The key is indexed, and leads to the delta.
record IsIndexed (s : DeltaStore) (key : Str) (delta : Delta) : Type 0 where
  id : Str
  seen : lookup key s.dedup ≡ some id
  at : lookup id s.deltas ≡ some delta

pub enqueue_unseen :
    (s : DeltaStore) (delta : Delta) (n : ℕ)
    → is_empty delta.dedup_window ≡ false
    → lookup delta.dedup_key s.dedup ≡ none
    → enqueue_hashed s delta n ≡ (store_delta s delta n, ok (some delta))
unfolding enqueue_hashed
enqueue_unseen s delta n window unseen = rw (window, unseen)

pub enqueue_seen :
    (s : DeltaStore) (delta : Delta) (id : Str)
    → is_empty delta.dedup_window ≡ false
    → lookup delta.dedup_key s.dedup ≡ some id
    → enqueue_hashed s delta (suc s.next_id) ≡ (s, ok (lookup id s.deltas))
unfolding enqueue_hashed
enqueue_seen s delta id window seen =
    let e : suc s.next_id - 1 ≡ s.next_id = omega arith in rw (window, seen, e)

-- Where the answer is a delta, its key is indexed and leads to it.
abbrev Indexes : Str → DeltaStore × Result (Option Delta) → Type 0
Indexes key r = (stored : Delta) → r.1 ≡ ok (some stored) → IsIndexed r.0 key stored

enqueue_hashed-Indexes :
    (s : DeltaStore) (delta : Delta)
    → is_empty delta.dedup_window ≡ false
    → is_empty delta.dedup_key ≡ false
    → Indexes delta.dedup_key (enqueue_hashed s delta (suc s.next_id))
enqueue_hashed-Indexes s delta window keyed = elim (Option-cases (lookup delta.dedup_key s.dedup)) [
  | inl unseen ↦
      subst (Indexes delta.dedup_key) (sym (enqueue_unseen s delta (suc s.next_id) window unseen))
        λ stored e. record {
          id = delta.id;
          seen =
              ap (lookup delta.dedup_key) (remember_keyed delta.dedup_key delta.id s.dedup keyed)
              ∙ lookup-insert_self delta.dedup_key delta.id s.dedup;
          at = lookup-insert_self delta.id delta s.deltas ∙ ok_some e;
        }
  | inr (id, seen) ↦
      subst (Indexes delta.dedup_key) (sym (enqueue_seen s delta id window seen))
        λ stored e. record { id = id; seen = seen; at = ok_eq e }
]
  where
    ok_eq : {a b : Option Delta} → ◌≡◌ {A = Result (Option Delta)} (ok a) (ok b) → a ≡ b
    ok_eq e = cc

    ok_some :
        {a b : Delta}
        → ◌≡◌ {A = Result (Option Delta)} (ok (some a)) (ok (some b))
        → some a ≡ some b
    ok_some e = cc

-- A successful answer means that the key was encoded.
enqueue_numbered-ok :
    (c : Codec) (s s' : DeltaStore) (delta : Delta) (n : ℕ) (id : Str) (now : Time) (r : Result Str)
    (o : Option Delta)
    → enqueue_numbered c s delta n id now r ≡ (s', ok o)
    → (hash : Str) × (r ≡ ok hash)
unfolding enqueue_numbered
enqueue_numbered-ok c s s' delta n id now (ok hash) o e = (hash, refl)
enqueue_numbered-ok c s s' delta n id now (err x) o e = ground arith
enqueue_numbered-ok c s s' delta n id now nil_dereference o e = ground arith
enqueue_numbered-ok c s s' delta n id now diverges o e = ground arith

pub enqueued_keyed :
    (c : Codec) (delta : Delta) (id hash : Str) (now : Time)
    → is_empty delta.dedup_window ≡ false
    → (enqueued c delta id hash now).dedup_key
      ≡ compute_dedup_key c delta.dedup_window delta.projection_type hash
enqueued_keyed c delta id hash now h = rw h

-- Two deltas of the same projection in the same window.
pub record IsDuplicate (delta again : Delta) : Type 0 where
  pub window : again.dedup_window ≡ delta.dedup_window
  pub type : again.projection_type ≡ delta.projection_type
  pub key : again.projection_key ≡ delta.projection_key

-- After a successful `Enqueue` into a well-formed store with a dedup window, enqueueing the same
-- projection again in the same window, at any time, answers the stored delta and changes nothing,
-- not even the numbering, if the digest is never the empty text.
pub enqueue_idempotent :
    (c : Codec) (s s' : DeltaStore) (delta again stored : Delta) (now later : Time)
    → Inv s
    → ((x : Str) → is_empty (c.sha256_hex x) ≡ false)
    → is_empty delta.id ≡ true
    → is_empty again.id ≡ true
    → is_empty delta.dedup_window ≡ false
    → IsDuplicate delta again
    → enqueue none c s delta now ≡ (s', ok (some stored))
    → enqueue none c s' again later ≡ (s', ok (some stored))
unfolding enqueue_numbered compute_dedup_key
enqueue_idempotent c s s' delta again stored now later v digest blank blank' window dup e =
    let id = next_delta_id s in
    let id' = next_delta_id s' in
    let first = sym (enqueue_first c s delta now v blank) ∙ e in
    let (hash, hashed) =
      enqueue_numbered-ok c s s' delta (suc s.next_id) id now
        (projection_key_hash c delta.projection_key) (some stored) first in
    let one = enqueued c delta id hash now in
    let two = enqueued c again id' hash later in
    let first' : enqueue_hashed s one (suc s.next_id) ≡ (s', ok (some stored)) =
      subst (λ r. enqueue_numbered c s delta (suc s.next_id) id now r ≡ (s', ok (some stored)))
        hashed first in
    let window' : is_empty again.dedup_window ≡ false = rw dup.window window in
    let one_key = enqueued_keyed c delta id hash now window in
    let two_key : two.dedup_key ≡ one.dedup_key =
      enqueued_keyed c again id' hash later window' ∙ cc (dup.window, dup.type) ∙ sym one_key in
    let keyed : is_empty one.dedup_key ≡ false = rw one_key (digest _) in
    let at =
      subst (Indexes one.dedup_key) first' (enqueue_hashed-Indexes s one window keyed) stored
        refl in
    let v' =
      subst (λ (r : DeltaStore × Result (Option Delta)). Inv r.0) e
        (enqueue-Inv none c s delta now v) in
    let hashed' : projection_key_hash c again.projection_key ≡ ok hash =
      ap (projection_key_hash c) dup.key ∙ hashed in
    enqueue_first c s' again later v' blank'
    ∙ ap (enqueue_numbered c s' again (suc s'.next_id) id' later) hashed'
    ∙ enqueue_seen s' two at.id window'
        (subst (λ k. lookup k s'.dedup ≡ some at.id) (sym two_key) at.seen)
    ∙ ap (λ o. (s', ok o)) at.at
