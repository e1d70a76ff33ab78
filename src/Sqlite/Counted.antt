-- ===== src/Sqlite/Counted.antt =====
-- What `EnqueueBatch` of pkg/connectors/sqlite/delta_store.go leaves, and what its counts say.
use deltaflow.Prelude.{
  ap, ℕ, suc, ◌+◌, Str, true, false, ◌≡◌, refl, inl, inr, Option, List, [], ◌∷◌, length,
  length-append, is_empty, Bool-cases, arith, ◌==◌, subst, codes,
}
use deltaflow.Model.{
  Time, Delta, Error, Ctx, EnqueueBatchResult, Result, ok, err, nil_dereference, diverges, ◌>>=◌,
}
use deltaflow.Connectors.Prepare.{validate_durable_batch, prepare_delta_for_enqueue}
use deltaflow.Sqlite.Sql.{Session}
use deltaflow.Sqlite.Rows.{Json}
use deltaflow.Sqlite.Create.{new_id}
use deltaflow.Sqlite.DeltaRows.{DeltaRow}
use deltaflow.Sqlite.Deltas.{insert_delta, conflicts, any_delta, has_delta_id}
use deltaflow.Sqlite.DeltaBatch.{
  prepare_rows, insert_rows, counted, enqueue_batch_tx, enqueue_batch, batch_row_of,
}
use deltaflow.Sqlite.Atomic.{
  IsAllOrNothing, WhenOk, WhenOk-ok, after_step-Fine, after_result-Fine, WhenOk-failure,
  IsAllOrNothing-failure,
}

-- One insertion: nothing, or one row more.
data IsInserted (table table' : List DeltaRow) (n : ℕ) : Type 0 where
  kept : n ≡ 0 → table' ≡ table → IsInserted table table' n
  added : n ≡ 1 → length table' ≡ suc (length table) → IsInserted table table' n

insert_delta-IsInserted :
    (taken : Error) (table : List DeltaRow) (row : DeltaRow)
    → WhenOk (IsInserted table) (insert_delta taken table row)
unfolding insert_delta
insert_delta-IsInserted taken table row = elim (Bool-cases (conflicts row table)) [
  | inl e ↦ rw (e, insert_delta) (kept refl refl)
  | inr e ↦ elim (Bool-cases (any_delta (has_delta_id row.id) table)) [
    | inl e' ↦ rw (e, e', insert_delta) tt
    | inr e' ↦ rw (e, e', insert_delta) (added refl (omega (arith, length-append table (row ∷ []))))
  ]
]

-- The counts of the loop, from those it started with.
abbrev IsCountedFrom : List DeltaRow → ℕ → ℕ → ℕ → List DeltaRow → ℕ × ℕ → Type 0
IsCountedFrom table inserted duplicates n table' c =
    (c.0 + c.1 ≡ inserted + duplicates + n) × (length table' + inserted ≡ length table + c.0)

weaken :
    (table table' : List DeltaRow) (i d i' d' n : ℕ) (r : List DeltaRow × Result (ℕ × ℕ))
    → i' + d' ≡ suc (i + d)
    → length table' + i ≡ length table + i'
    → WhenOk (IsCountedFrom table' i' d' n) r
    → WhenOk (IsCountedFrom table i d (suc n)) r
weaken table table' i d i' d' n (t, ok c) e e' h = omega (arith, e, e', h.0, h.1)
weaken table table' i d i' d' n (t, err x) e e' h = tt
weaken table table' i d i' d' n (t, nil_dereference) e e' h = tt
weaken table table' i d i' d' n (t, diverges) e e' h = tt

-- The rest of the loop after one insertion.
counted_on :
    (table table' : List DeltaRow) (i d k n : ℕ) (next : ℕ → ℕ → List DeltaRow × Result (ℕ × ℕ))
    → IsInserted table table' n
    → ((i' d' : ℕ) → WhenOk (IsCountedFrom table' i' d' k) (next i' d'))
    → WhenOk
        (IsCountedFrom table i d (suc k))
        (elim (n == 1) [ true ↦ next (i + 1) d | false ↦ next i (d + 1) ])
counted_on table table' i d k n next (kept none_new same) h =
    rw none_new (weaken table table' i d i (d + 1) k _ (omega arith) (rw same refl) (h i (d + 1)))
counted_on table table' i d k n next (added one_new longer) h =
    rw one_new
      (weaken table table' i d (i + 1) d k _ (omega arith) (omega (arith, longer)) (h (i + 1) d))

insert_rows-IsCountedFrom :
    (taken : Error) (io : ℕ → Session) (table rows : List DeltaRow) (inserted duplicates : ℕ)
    → WhenOk
        (IsCountedFrom table inserted duplicates (length rows))
        (insert_rows taken io table rows inserted duplicates)
unfolding insert_rows
insert_rows-IsCountedFrom taken io table [] i d = omega arith
insert_rows-IsCountedFrom taken io table (row ∷ rows) i d =
    let Good = IsCountedFrom table i d (suc (length rows)) in
    let r = insert_delta taken table row in
    after_step-Fine (WhenOk Good) table (WhenOk-failure Good table) ((io 0).fault 0) _ (λ _.
      after_result-Fine (WhenOk Good) r.0 (WhenOk-failure Good r.0) r.1 _ (λ n counted_n.
        after_step-Fine (WhenOk Good) r.0 (WhenOk-failure Good r.0) ((io 0).fault 1) _ (λ _.
          counted_on table r.0 i d (length rows) n
            (λ i' d'. insert_rows taken (λ k. io (suc k)) r.0 rows i' d')
            (WhenOk-ok (IsInserted table) r n (insert_delta-IsInserted taken table row) counted_n)
            (λ i' d'. insert_rows-IsCountedFrom taken (λ k. io (suc k)) r.0 rows i' d'))))

-- What a result holds, if it is a value.
abbrev Holds : {A : Type 0} → (A → Type 0) → Result A → Type 0
Holds P (ok a) = P a
Holds P _ = Unit

Holds-ok : {A : Type 0} (P : A → Type 0) (r : Result A) (a : A) → Holds P r → r ≡ ok a → P a
Holds-ok P r a h e = subst (Holds P) e h

Holds-bind :
    {A B : Type 0} (P : B → Type 0) (m : Result A) (f : A → Result B)
    → ((a : A) → m ≡ ok a → Holds P (f a))
    → Holds P (m >>= f)
Holds-bind P (ok a) f h = h a refl
Holds-bind P (err e) f h = tt
Holds-bind P nil_dereference f h = tt
Holds-bind P diverges f h = tt

prepare_rows-length :
    (json : Json) (clock : ℕ → Time) (random : ℕ → Result Str) (deltas : List Delta)
    → Holds (λ rows. length rows ≡ length deltas) (prepare_rows json clock random deltas)
unfolding prepare_rows
prepare_rows-length json clock random [] = refl
prepare_rows-length json clock random (delta ∷ deltas) = elim (Bool-cases (is_empty delta.id)) [
  | inr given ↦ rw given tt
  | inl blank ↦
      let AsLong = λ (n : ℕ) (rows : List DeltaRow). length rows ≡ n in
      let Good = AsLong (suc (length deltas)) in
      let rest = prepare_rows json (λ n. clock (suc n)) (λ n. random (suc n)) deltas in
      let finish : Delta × Str × Str → Str → List DeltaRow → Result (List DeltaRow) =
        λ prepared id rows. ok (batch_row_of prepared.0 id prepared.1 prepared.2 ∷ rows) in
      let named : Delta × Str × Str → Result Str =
        λ prepared. new_id (codes "delta") prepared.0.created_at (random 0) in
      let shorter = prepare_rows-length json (λ n. clock (suc n)) (λ n. random (suc n)) deltas in
      rw blank (
        Holds-bind Good (prepare_delta_for_enqueue json.codec json.marshal_metadata delta (clock 0))
          (λ prepared. named prepared >>= (λ id. rest >>= finish prepared id))
          (λ prepared _.
            Holds-bind Good (named prepared) (λ id. rest >>= finish prepared id)
              (λ id _. Holds-bind Good rest (finish prepared id) (λ rows found.
                ap suc (Holds-ok (AsLong (length deltas)) rest rows shorter found)))))
]

-- The counts of a batch add up to its size, and count the rows that were added.
abbrev pub IsCounted : List DeltaRow → List Delta → List DeltaRow → EnqueueBatchResult → Type 0
IsCounted table deltas table' result =
    (result.requested_count ≡ length deltas)
    × (result.inserted_count + result.duplicate_count ≡ length deltas)
    × (length table' ≡ length table + result.inserted_count)

enqueue_batch_tx-IsCounted :
    (json : Json) (taken : Error) (max_size : ℕ) (ctx : Ctx) (prepare : Option Error)
    (io : ℕ → Session) (clock : ℕ → Time) (random : ℕ → Result Str) (table : List DeltaRow)
    (deltas : List Delta)
    → WhenOk
        (IsCounted table deltas)
        (enqueue_batch_tx json taken max_size ctx prepare io clock random table deltas)
unfolding enqueue_batch_tx
enqueue_batch_tx-IsCounted json taken m ctx prepare io clock random table [] =
    let Good = IsCounted table [] in
    after_result-Fine (WhenOk Good) table (WhenOk-failure Good table)
      (validate_durable_batch ctx [] m) _ (λ window valid. omega arith)
enqueue_batch_tx-IsCounted json taken m ctx prepare io clock random table (delta ∷ rest) =
    let Good = IsCounted table (delta ∷ rest) in
    let fails = WhenOk-failure Good table in
    after_result-Fine (WhenOk Good) table fails (validate_durable_batch ctx (delta ∷ rest) m) _
      (λ window valid.
        after_result-Fine (WhenOk Good) table fails (prepare_rows json clock random (delta ∷ rest))
          _
          (λ rows prepared. after_step-Fine (WhenOk Good) table fails prepare _ (λ _.
            answered rows window (insert_rows taken io table rows 0 0)
              (Holds-ok (λ rows'. length rows' ≡ suc (length rest)) _ rows
                (prepare_rows-length json clock random (delta ∷ rest)) prepared)
              (insert_rows-IsCountedFrom taken io table rows 0 0))))
  where
    answered :
        (rows : List DeltaRow) (window : Str) (r : List DeltaRow × Result (ℕ × ℕ))
        → length rows ≡ suc (length rest)
        → WhenOk (IsCountedFrom table 0 0 (length rows)) r
        → WhenOk
            (IsCounted table (delta ∷ rest))
            (r.0, r.1 >>= (λ c. ok (counted (suc (length rest)) window c)))
    answered rows window (t, ok c) e h = omega (arith, e, h.0, h.1)
    answered rows window (t, err x) e h = tt
    answered rows window (t, nil_dereference) e h = tt
    answered rows window (t, diverges) e h = tt

-- Whichever steps fail, `EnqueueBatch` of the SQLite store either answers no counts and leaves the
-- rows as they were, or its counts of inserted deltas and of duplicates add up to the number of
-- its deltas, which it answers too, and the rows are more by the inserted ones.
pub enqueue_batch-IsCounted :
    (json : Json) (taken : Error) (max_size : ℕ) (tx : Session) (prepare : Option Error)
    (io : ℕ → Session) (clock : ℕ → Time) (random : ℕ → Result Str) (table : List DeltaRow)
    (deltas : List Delta)
    → IsAllOrNothing table
        (IsCounted table deltas)
        (enqueue_batch json taken max_size tx prepare io clock random table deltas)
unfolding enqueue_batch
enqueue_batch-IsCounted json taken m tx prepare io clock random table deltas =
    let Good = IsCounted table deltas in
    let Fine = IsAllOrNothing table Good in
    let fails = IsAllOrNothing-failure Good table in
    let r = enqueue_batch_tx json taken m (tx.ctx 0) prepare io clock random table deltas in
    after_step-Fine Fine table fails (tx.fault 0) _ (λ _.
      after_result-Fine Fine table fails r.1 _ (λ result done.
        after_step-Fine Fine table fails (tx.fault 1) _ (λ _. inr (
          result,
          refl,
          WhenOk-ok Good r result
              (enqueue_batch_tx-IsCounted json taken m (tx.ctx 0) prepare io clock random table
                deltas)
              done,
        ))))
