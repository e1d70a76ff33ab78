-- ===== src/Deltas/Accepted.antt =====
-- About the batches that `EnqueueBatch` of internal/store.go's `DeltaMemoryStore` accepts.
use deltaflow.Prelude.{
  ℕ, ◌+◌, Str, false, ◌≡◌, refl, sym, ◌∙◌, ap, inl, inr, none, List, [], ◌∷◌, All, length, is_empty,
  str_eq, str_eq_iff, ltb, Bool-cases, arith, subst,
}
use deltaflow.Model.{
  Time, Delta, Codec, Error, Result, ok, err, nil_dereference, diverges, EnqueueBatchResult,
}
use deltaflow.Deltas.State.{DeltaStore}
use deltaflow.Deltas.Batch.{
  same_window, batch_window, validate_enqueue_batch, prepare, store_all, batch_result,
  enqueue_windowed, enqueue_batch,
}
use deltaflow.Deltas.Invariant.{Inv}
use deltaflow.Deltas.Batches.{enqueue_each, store_all-enqueue_each}

-- The window that the validation answers is that of every delta, and not empty.
same_window-All :
    (w w' : Str) (deltas : List Delta)
    → same_window w deltas ≡ ok w'
    → All (λ x. x.dedup_window ≡ w) deltas × (w' ≡ w)
unfolding same_window
same_window-All w w' [] e = (tt, ground arith)
same_window-All w w' (delta ∷ deltas) e = elim (Bool-cases (is_empty delta.dedup_window)) [
  | inl blank ↦ let e' : err _ ≡ ok w' = rw (blank, same_window) at e in cc
  | inr given ↦ elim (Bool-cases (str_eq delta.dedup_window w)) [
    | inr apart ↦ let e' : err _ ≡ ok w' = rw (given, apart, same_window) at e in cc
    | inl same ↦
        let rest = same_window-All w w' deltas (rw (given, same, same_window) at e) in
        (((str_eq_iff delta.dedup_window w).0 same, rest.0), rest.1)
  ]
]

validate-window :
    (delta : Delta) (deltas : List Delta) (max_size : ℕ) (w : Str)
    → validate_enqueue_batch none (delta ∷ deltas) max_size ≡ ok w
    → (is_empty w ≡ false) × All (λ x. x.dedup_window ≡ w) (delta ∷ deltas)
unfolding validate_enqueue_batch batch_window
validate-window delta deltas max_size w e =
    elim (Bool-cases (ltb max_size (length (delta ∷ deltas)))) [
      | inl large ↦ let e' : err _ ≡ ok w = rw (large, validate_enqueue_batch) at e in cc
      | inr fits ↦ elim (Bool-cases (is_empty delta.dedup_window)) [
        | inl blank ↦
            let e' : err _ ≡ ok w = rw (fits, blank, validate_enqueue_batch, batch_window) at e in
            cc
        | inr given ↦
            let e' : same_window delta.dedup_window deltas ≡ ok w =
              rw (fits, given, validate_enqueue_batch, batch_window) at e in
            let (all, same) = same_window-All delta.dedup_window w deltas e' in
            subst (λ x. (is_empty x ≡ false) × All (λ y. y.dedup_window ≡ x) (delta ∷ deltas))
              (sym same) (given, (refl, all))
      ]
    ]

-- The four kinds of result.
data ResultCase {A : Type 0} (r : Result A) : Type 0 where
  is_ok : (value : A) → r ≡ ok value → ResultCase r
  is_err : (e : Error) → r ≡ err e → ResultCase r
  is_nil_dereference : r ≡ nil_dereference → ResultCase r
  is_diverges : r ≡ diverges → ResultCase r

result_case : {A : Type 0} (r : Result A) → ResultCase r
result_case (ok value) = is_ok value refl
result_case (err e) = is_err e refl
result_case nil_dereference = is_nil_dereference refl
result_case diverges = is_diverges refl

-- The store and the counts of a batch, against `Enqueue` of each of its deltas in turn.
abbrev pub IsBatchOf :
    Codec → DeltaStore → List Delta → Time → DeltaStore → EnqueueBatchResult → Type 0
IsBatchOf c s deltas now s' r =
    (s' ≡ enqueue_each c s deltas now)
    × (r.requested_count ≡ length deltas)
    × (r.inserted_count + r.duplicate_count ≡ length deltas)

-- The counts of the second loop as an answer.
abbrev counted : Str → ℕ → DeltaStore × ℕ × ℕ → EnqueueBatchResult
counted window requested (_, inserted, duplicates) = record {
  requested_count = requested;
  inserted_count = inserted;
  duplicate_count = duplicates;
  dedup_window = window;
}

module _ (c : Codec) (digest : (x : Str) → is_empty (c.sha256_hex x) ≡ false) (s s' : DeltaStore)
    (now : Time) (r : EnqueueBatchResult) (v : Inv s) where
  no_error :
      {e : Error} → ¬ (◌≡◌ {A = DeltaStore × Result EnqueueBatchResult} (s, err e) (s', ok r))
  no_error h = let h' = ap (λ (x : DeltaStore × Result EnqueueBatchResult). x.1) h in cc

  no_nil : ¬ (◌≡◌ {A = DeltaStore × Result EnqueueBatchResult} (s, nil_dereference) (s', ok r))
  no_nil h = let h' = ap (λ (x : DeltaStore × Result EnqueueBatchResult). x.1) h in cc

  no_loop : ¬ (◌≡◌ {A = DeltaStore × Result EnqueueBatchResult} (s, diverges) (s', ok r))
  no_loop h = let h' = ap (λ (x : DeltaStore × Result EnqueueBatchResult). x.1) h in cc

  windowed-IsBatchOf :
      (window : Str) (delta : Delta) (deltas : List Delta)
      → is_empty window ≡ false
      → All (λ x. x.dedup_window ≡ window) (delta ∷ deltas)
      → enqueue_windowed c s (delta ∷ deltas) window now ≡ (s', ok r)
      → IsBatchOf c s (delta ∷ deltas) now s' r
  unfolding enqueue_windowed
  windowed-IsBatchOf window delta deltas given h e =
      elim (result_case (prepare c window (delta ∷ deltas))) [
        | is_err x p ↦ absurd (no_error (rw (p, enqueue_windowed) at e))
        | is_nil_dereference p ↦ absurd (no_nil (rw (p, enqueue_windowed) at e))
        | is_diverges p ↦ absurd (no_loop (rw (p, enqueue_windowed) at e))
        | is_ok ps p ↦
            let out = store_all s ps now 0 0 in
            let e' : batch_result (length (delta ∷ deltas)) window out ≡ (s', ok r) =
              rw (p, enqueue_windowed) at e in
            let done =
              store_all-enqueue_each c digest window given now (delta ∷ deltas) ps s 0 0 v h p in
            let state : out.0 ≡ s' = ap (λ (x : DeltaStore × Result EnqueueBatchResult). x.0) e' in
            let answer : ok (counted window (length (delta ∷ deltas)) out) ≡ ok r =
              ap (λ (x : DeltaStore × Result EnqueueBatchResult). x.1) e' in
            let same : counted window (length (delta ∷ deltas)) out ≡ r = ground arith in
            let total : 0 + 0 + length (delta ∷ deltas) ≡ length (delta ∷ deltas) = omega arith in
            (
              sym state ∙ done.0,
              ap (λ (x : EnqueueBatchResult). x.requested_count) (sym same),
              ap (λ (x : EnqueueBatchResult). x.inserted_count + x.duplicate_count) (sym same)
                  ∙ done.1
                  ∙ total,
            )
      ]

  -- A batch that `EnqueueBatch` accepts into a well-formed store leaves the store that `Enqueue` of
  -- its deltas in turn, all at the batch's time, would leave, and its counts of inserted deltas and
  -- of duplicates add up to the number of its deltas, if the digest is never the empty text.
  pub enqueue_batch-IsBatchOf :
      (deltas : List Delta)
      → enqueue_batch none c s deltas now ≡ (s', ok r)
      → IsBatchOf c s deltas now s' r
  unfolding enqueue_batch validate_enqueue_batch batch_window enqueue_windowed
  enqueue_batch-IsBatchOf [] e = elim (Bool-cases (ltb s.max_enqueue_batch_size 0)) [
    | inl large ↦ absurd (no_error (rw (large, enqueue_batch) at e))
    | inr fits ↦
        let e' : (s, ok (counted [] 0 (s, 0, 0))) ≡ (s', ok r) = rw (fits, enqueue_batch) at e in
        let state : s ≡ s' = ap (λ (x : DeltaStore × Result EnqueueBatchResult). x.0) e' in
        let answer : ok (counted [] 0 (s, 0, 0)) ≡ ok r =
          ap (λ (x : DeltaStore × Result EnqueueBatchResult). x.1) e' in
        let same : counted [] 0 (s, 0, 0) ≡ r = ground arith in
        let nothing : 0 + 0 ≡ 0 = omega arith in
        (
          sym state,
          ap (λ (x : EnqueueBatchResult). x.requested_count) (sym same),
          ap (λ (x : EnqueueBatchResult). x.inserted_count + x.duplicate_count) (sym same)
              ∙ nothing,
        )
  ]
  enqueue_batch-IsBatchOf (delta ∷ deltas) e =
      elim (result_case (validate_enqueue_batch none (delta ∷ deltas) s.max_enqueue_batch_size)) [
        | is_err x p ↦ absurd (no_error (rw (p, enqueue_batch) at e))
        | is_nil_dereference p ↦ absurd (no_nil (rw (p, enqueue_batch) at e))
        | is_diverges p ↦ absurd (no_loop (rw (p, enqueue_batch) at e))
        | is_ok window p ↦
            let (given, all) = validate-window delta deltas s.max_enqueue_batch_size window p in
            windowed-IsBatchOf window delta deltas given all (rw (p, enqueue_batch) at e)
      ]
