-- ===== src/Deltas/Batches.antt =====
-- The second loop of `EnqueueBatch` of internal/store.go's `DeltaMemoryStore`, against `Enqueue`.
use deltaflow.Prelude.{
  ℕ, suc, ◌+◌, Str, true, false, ◌≡◌, refl, sym, ◌∙◌, ap, inl, inr, Option, none, some, List, [],
  ◌∷◌, All, length, lookup, insert, has, has-false, has-true, is_empty, Bool-cases, arith,
  if◌then◌else◌, subst,
}
use deltaflow.Model.{Time, Delta, Codec, Result, ok, err, nil_dereference, diverges, ◌>>=◌}
use deltaflow.Dedup.{compute_dedup_key, projection_key_hash}
use deltaflow.Deltas.State.{DeltaStore, with_defaults}
use deltaflow.Deltas.Enqueue.{enqueued, enqueue_numbered, enqueue, store_delta}
use deltaflow.Deltas.Batch.{prepare, store_prepared, store_all}
use deltaflow.Deltas.Invariant.{Inv}
use deltaflow.Deltas.Idempotence.{
  next_delta_id, enqueue_first, enqueue_seen, enqueue_unseen, enqueue-Inv, enqueued_keyed,
  remember_keyed,
}

-- The specification: `Enqueue` of each delta in turn, at one time.
abbrev pub enqueue_each : Codec → DeltaStore → List Delta → Time → DeltaStore
enqueue_each c s [] now = s
enqueue_each c s (delta ∷ deltas) now = enqueue_each c (enqueue none c s delta now).0 deltas now

-- A delta as the first loop of the batch leaves it.
abbrev prepared : Codec → Str → Delta → Str → Delta
prepared c window delta hash = record delta {
  projection_key_hash = hash;
  dedup_key = compute_dedup_key c window delta.projection_type hash;
}

-- A delta with a key hash, a dedup key and the defaults.
abbrev rekeyed : Delta → Str → Str → Time → Str → Delta
rekeyed delta id hash now key = record (with_defaults delta id now) {
  projection_key_hash = hash;
  dedup_key = key;
}

-- Inversion of a successful chain.
chain_ok :
    {A B : Type 0} (first : Result A) (then_do : A → Result B) {answer : B}
    → first >>= then_do ≡ ok answer
    → (value : A) × (first ≡ ok value) × (then_do value ≡ ok answer)
chain_ok (ok value) then_do h = (value, refl, h)
chain_ok (err e) then_do h = cc
chain_ok nil_dereference then_do h = cc
chain_ok diverges then_do h = cc

prepare-cons :
    (c : Codec) (window : Str) (delta : Delta) (deltas ps : List Delta)
    → prepare c window (delta ∷ deltas) ≡ ok ps
    → (hash : Str) × (rest : List Delta) × (is_empty delta.id ≡ true)
      × (projection_key_hash c delta.projection_key ≡ ok hash)
      × (prepare c window deltas ≡ ok rest)
      × (ps ≡ prepared c window delta hash ∷ rest)
unfolding prepare
prepare-cons c window delta deltas ps e = elim (Bool-cases (is_empty delta.id)) [
  | inr given ↦ let e' : err _ ≡ ok ps = rw given at e in cc
  | inl blank ↦
      let (hash, hashed, e₁) =
        chain_ok (projection_key_hash c delta.projection_key) _ (rw blank at e) in
      let (rest, prepared_rest, e₂) = chain_ok (prepare c window deltas) _ e₁ in
      (hash, rest, blank, hashed, prepared_rest, ground arith)
]

store_all-skip :
    (s : DeltaStore) (p : Delta) (ps : List Delta) (now : Time) (i d : ℕ)
    → has p.dedup_key s.dedup ≡ true
    → store_all s (p ∷ ps) now i d ≡ store_all s ps now i (d + 1)
unfolding store_all
store_all-skip s p ps now i d seen = rw (seen, store_all)

store_all-keep :
    (s : DeltaStore) (p : Delta) (ps : List Delta) (now : Time) (i d : ℕ)
    → has p.dedup_key s.dedup ≡ false
    → store_all s (p ∷ ps) now i d ≡ store_all (store_prepared s p now) ps now (i + 1) d
unfolding store_all
store_all-keep s p ps now i d unseen = rw (unseen, store_all)

module _ (c : Codec) (digest : (x : Str) → is_empty (c.sha256_hex x) ≡ false) (window : Str)
    (some_window : is_empty window ≡ false) (now : Time) where
  -- One round of the second loop does what one `Enqueue` does.
  round :
      (s : DeltaStore) (delta : Delta) (hash : Str)
      → Inv s
      → delta.dedup_window ≡ window
      → is_empty delta.id ≡ true
      → projection_key_hash c delta.projection_key ≡ ok hash
      → let p = prepared c window delta hash in
        (enqueue none c s delta now).0
        ≡ (if has p.dedup_key s.dedup then s else store_prepared s p now)
  unfolding enqueue_numbered
  round s delta hash v in_window blank hashed =
      let id = next_delta_id s in
      let one = enqueued c delta id hash now in
      let p = prepared c window delta hash in
      let given : is_empty delta.dedup_window ≡ false = rw in_window some_window in
      let same_key : one.dedup_key ≡ p.dedup_key =
        enqueued_keyed c delta id hash now given
        ∙ ap (λ w. compute_dedup_key c w delta.projection_type hash) in_window in
      let start =
        enqueue_first c s delta now v blank
        ∙ ap (enqueue_numbered c s delta (suc s.next_id) id now) hashed in
      elim (Bool-cases (has p.dedup_key s.dedup)) [
        | inl seen ↦
            let (i, at) = has-true p.dedup_key s.dedup seen in
            rw seen (
              ap (λ (r : DeltaStore × Result (Option Delta)). r.0)
                (start
                  ∙ enqueue_seen s one i given
                      (subst (λ k. lookup k s.dedup ≡ some i) (sym same_key) at)))
        | inr unseen ↦
            let absent = has-false p.dedup_key s.dedup unseen in
            let absent' = subst (λ k. lookup k s.dedup ≡ none) (sym same_key) absent in
            let keyed : is_empty p.dedup_key ≡ false = unfold compute_dedup_key in digest _ in
            rw unseen (
              ap (λ (r : DeltaStore × Result (Option Delta)). r.0)
                (start ∙ enqueue_unseen s one (suc s.next_id) given absent')
              ∙ ap (λ k. store_delta s (rekeyed delta id hash now k) (suc s.next_id)) same_key
              ∙ ap
                  (λ d. record s {
                    next_id = suc s.next_id;
                    deltas = insert id (with_defaults p id now) s.deltas;
                    dedup = d;
                  })
                  (remember_keyed p.dedup_key id s.dedup keyed))
      ]

  pub store_all-enqueue_each :
      (deltas ps : List Delta) (s : DeltaStore) (i d : ℕ)
      → Inv s
      → All (λ x. x.dedup_window ≡ window) deltas
      → prepare c window deltas ≡ ok ps
      → ((store_all s ps now i d).0 ≡ enqueue_each c s deltas now)
        × ((store_all s ps now i d).1 + (store_all s ps now i d).2 ≡ i + d + length deltas)
  unfolding prepare store_all
  store_all-enqueue_each [] ps s i d v h e =
      let none_left : [] ≡ ps = ground arith in rw (← none_left) (refl, omega arith)
  store_all-enqueue_each (delta ∷ deltas) ps s i d v h e =
      let (hash, rest, blank, hashed, prepared_rest, eq) =
        prepare-cons c window delta deltas ps e in
      let p = prepared c window delta hash in
      let one = round s delta hash v h.0 blank hashed in
      elim (Bool-cases (has p.dedup_key s.dedup)) [
        | inl seen ↦
            let ih = store_all-enqueue_each deltas rest s i (d + 1) v h.1 prepared_rest in
            let back : (enqueue none c s delta now).0 ≡ s = rw seen at one in
            let q = ap (λ l. store_all s l now i d) eq ∙ store_all-skip s p rest now i d seen in
            let total : i + (d + 1) + length deltas ≡ i + d + suc (length deltas) = omega arith in
            (
              ap (λ (r : DeltaStore × ℕ × ℕ). r.0) q
                  ∙ ih.0
                  ∙ ap (λ t. enqueue_each c t deltas now) (sym back),
              ap (λ (r : DeltaStore × ℕ × ℕ). r.1 + r.2) q ∙ ih.1 ∙ total,
            )
        | inr unseen ↦
            let back : (enqueue none c s delta now).0 ≡ store_prepared s p now = rw unseen at one in
            let v' = subst Inv back (enqueue-Inv none c s delta now v) in
            let ih =
              store_all-enqueue_each deltas rest (store_prepared s p now) (i + 1) d v' h.1
                prepared_rest in
            let q = ap (λ l. store_all s l now i d) eq ∙ store_all-keep s p rest now i d unseen in
            let total : i + 1 + d + length deltas ≡ i + d + suc (length deltas) = omega arith in
            (
              ap (λ (r : DeltaStore × ℕ × ℕ). r.0) q
                  ∙ ih.0
                  ∙ ap (λ t. enqueue_each c t deltas now) (sym back),
              ap (λ (r : DeltaStore × ℕ × ℕ). r.1 + r.2) q ∙ ih.1 ∙ total,
            )
      ]
