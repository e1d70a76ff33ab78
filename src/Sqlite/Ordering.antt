-- ===== src/Sqlite/Ordering.antt =====
-- Queries of pkg/connectors/sqlite next to the loops over Go maps: filtered and sorted rows stand for
-- the filtered and sorted entries.
use deltaflow.Prelude.{
  ℕ, zero, suc, take, Str, Map, Bool, true, false, ◌≡◌, refl, subst, inl, inr, some, List, [], ◌∷◌,
  select, lookup, insert_by, sort_by, str_eq, Bool-cases, arith,
}
use deltaflow.Sqlite.Tables.{IsTableOf}

module _ {R V : Type 0} (row_id : R → Str) (IsRowOf : R → V → Type 0) where
  pub IsTableOf-select :
      (p : R → Bool) (q : Str × V → Bool)
      → ((row : R) (e : Str × V) → IsRowOf row e.1 → p row ≡ q e)
      → (rows : List R) (m : Map V) → IsTableOf row_id IsRowOf rows m
      → IsTableOf row_id IsRowOf (select p rows) (select q m)
  IsTableOf-select p q same [] [] t = tt
  IsTableOf-select p q same [] (e ∷ m) t = elim t [ ]
  IsTableOf-select p q same (row ∷ rows) [] t = elim t [ ]
  IsTableOf-select p q same (row ∷ rows) ((k, v) ∷ m) t = elim (Bool-cases (q (k, v))) [
    | inl h ↦ rw (same row (k, v) t.1, h) (t.0, t.1, IsTableOf-select p q same rows m t.2)
    | inr h ↦ rw (same row (k, v) t.1, h) (IsTableOf-select p q same rows m t.2)
  ]

  module _ (before : R → R → Bool) (less : Str × V → Str × V → Bool)
      (same : (a b : R) (e f : Str × V)
        → IsRowOf a e.1
        → IsRowOf b f.1
        → before a b ≡ less e f) where
    IsTableOf-insert_by :
        (row : R) (k : Str) (v : V)
        → row_id row ≡ k
        → IsRowOf row v
        → (rows : List R) (m : Map V) → IsTableOf row_id IsRowOf rows m
        → IsTableOf row_id IsRowOf (insert_by before row rows) (insert_by less (k, v) m)
    unfolding insert_by
    IsTableOf-insert_by row k v named is [] [] t = (named, is, tt)
    IsTableOf-insert_by row k v named is [] (e ∷ m) t = elim t [ ]
    IsTableOf-insert_by row k v named is (x ∷ rows) [] t = elim t [ ]
    IsTableOf-insert_by row k v named is (x ∷ rows) ((j, w) ∷ m) t =
        elim (Bool-cases (less (j, w) (k, v))) [
          | inl h ↦
              rw (same x row (j, w) (k, v) t.1 is, h)
                (t.0, t.1, IsTableOf-insert_by row k v named is rows m t.2)
          | inr h ↦ rw (same x row (j, w) (k, v) t.1 is, h) (named, is, t)
        ]

    pub IsTableOf-sort_by :
        (rows : List R) (m : Map V)
        → IsTableOf row_id IsRowOf rows m
        → IsTableOf row_id IsRowOf (sort_by before rows) (sort_by less m)
    unfolding sort_by
    IsTableOf-sort_by [] [] t = tt
    IsTableOf-sort_by [] (e ∷ m) t = elim t [ ]
    IsTableOf-sort_by (row ∷ rows) [] t = elim t [ ]
    IsTableOf-sort_by (row ∷ rows) ((k, v) ∷ m) t =
        IsTableOf-insert_by row k v t.0 t.1 (sort_by before rows) (sort_by less m)
          (IsTableOf-sort_by rows m t.2)

  -- A query by a key finds the row of the entry.
  pub IsTableOf-found :
      (id : Str) (v : V) (rows : List R) (m : Map V)
      → IsTableOf row_id IsRowOf rows m
      → lookup id m ≡ some v
      → (row : R) × (rest : List R) × (select (λ r. str_eq (row_id r) id) rows ≡ row ∷ rest)
        × IsRowOf row v
  unfolding lookup
  IsTableOf-found id v [] [] t h = cc
  IsTableOf-found id v [] (e ∷ m) t h = elim t [ ]
  IsTableOf-found id v (row ∷ rows) [] t h = elim t [ ]
  IsTableOf-found id v (row ∷ rows) ((k, w) ∷ m) t h = elim (Bool-cases (str_eq k id)) [
    | inl e ↦
        let here : str_eq (row_id row) id ≡ true = rw t.0 e in
        let found : some w ≡ some v = rw e at h in
        let same : w ≡ v = ground arith in
        (
          row,
          select (λ r. str_eq (row_id r) id) rows,
          rw here refl,
          subst (λ x. IsRowOf row x) same t.1,
        )
    | inr e ↦
        let away : str_eq (row_id row) id ≡ false = rw t.0 e in
        let (r, rest, eq, is) = IsTableOf-found id v rows m t.2 (rw e at h) in
        (r, rest, rw away eq, is)
  ]

  pub IsTableOf-take :
      (n : ℕ) (rows : List R) (m : Map V)
      → IsTableOf row_id IsRowOf rows m
      → IsTableOf row_id IsRowOf (take n rows) (take n m)
  IsTableOf-take zero rows m t = tt
  IsTableOf-take (suc n) [] [] t = tt
  IsTableOf-take (suc n) [] (e ∷ m) t = elim t [ ]
  IsTableOf-take (suc n) (row ∷ rows) [] t = elim t [ ]
  IsTableOf-take (suc n) (row ∷ rows) ((k, v) ∷ m) t = (t.0, t.1, IsTableOf-take n rows m t.2)
