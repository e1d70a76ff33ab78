-- ===== src/Deltas/Invariant.antt =====
-- What holds of internal/store.go's `DeltaMemoryStore` between two calls: the map is keyed by the
-- deltas' identifiers, the numbers ahead are free, and `dedup` is the index of the deltas by their
-- dedup keys.
use deltaflow.Prelude.{
  ℕ, ℤ, Str, true, false, ◌≡◌, refl, sym, ◌∙◌, ap, ◌<◌, ◌≤◌, none, some, lookup, insert, has,
  has_of_lookup, has-insert, has-insert_old, Keys, insert-Keys, lookup-insert, lookup-insert_self,
  All, All-insert, All-lookup, arith, codes, str_eq, str_eq_iff, is_empty, Bool-cases, inl, inr,
  subst,
}
use deltaflow.Model.{Delta}
use deltaflow.Ids.{candidate, candidate-injective}
use deltaflow.Deltas.State.{DeltaStore, new_delta_store}

pub record Inv (s : DeltaStore) : Type 0 where
  pub unique : Keys s.deltas
  pub named : All (λ e. e.1.id ≡ e.0) s.deltas
  pub free : (k : ℕ) → s.next_id < k → has (candidate (codes "delta-") k) s.deltas ≡ false
  pub indexed :
      (key id : Str)
      → lookup key s.dedup ≡ some id
      → (delta : Delta) × (lookup id s.deltas ≡ some delta) × (delta.dedup_key ≡ key)
  pub covered :
      (id : Str) (delta : Delta)
      → lookup id s.deltas ≡ some delta
      → is_empty delta.dedup_key ≡ false
      → lookup delta.dedup_key s.dedup ≡ some id

pub raise_next-Inv :
    (s : DeltaStore) (n : ℕ) → Inv s → s.next_id ≤ n → Inv (record s { next_id = n })
raise_next-Inv s n v h = record {
  unique = v.unique;
  named = v.named;
  free = λ k g. v.free k (omega arith);
  indexed = v.indexed;
  covered = v.covered;
}

-- A new delta under a number that is passed and not in use.
module _ (s : DeltaStore) (v : Inv s) (id : Str) (n : ℕ) (delta : Delta)
    (absent : has id s.deltas ≡ false) (named : delta.id ≡ id)
    (numbered : id ≡ candidate (codes "delta-") n) (passed : n ≤ s.next_id) where
  other_key : (i : Str) (k : Delta) → lookup i s.deltas ≡ some k → str_eq id i ≡ false
  other_key i k h = elim (Bool-cases (str_eq id i)) [
    | inl t ↦
        let here : id ≡ i = (str_eq_iff id i).0 t in
        let there : has id s.deltas ≡ true = rw here (has_of_lookup i k s.deltas h) in cc
    | inr t ↦ t
  ]

  insert_free :
      (k : ℕ)
      → s.next_id < k
      → has (candidate (codes "delta-") k) (insert id delta s.deltas) ≡ false
  insert_free k g =
      let c = candidate (codes "delta-") k in
      elim (Bool-cases (str_eq id c)) [
        | inl t ↦
            let same : n ≡ k =
              candidate-injective (codes "delta-") n k (sym numbered ∙ (str_eq_iff id c).0 t) in
            absurd (omega arith)
        | inr t ↦ rw (has-insert id c delta s.deltas, t) (v.free k g)
      ]

  insert_indexed :
      (key i : Str)
      → lookup key s.dedup ≡ some i
      → (k : Delta) × (lookup i (insert id delta s.deltas) ≡ some k) × (k.dedup_key ≡ key)
  insert_indexed key i h =
      let (k, at, keyed) = v.indexed key i h in
      (k, rw (lookup-insert id i delta s.deltas, other_key i k at) at, keyed)

  -- A delta with no dedup key is not indexed.
  pub insert_plain-Inv :
      is_empty delta.dedup_key ≡ true → Inv (record s { deltas = insert id delta s.deltas })
  insert_plain-Inv plain = record {
    unique = insert-Keys id delta s.deltas v.unique;
    named = All-insert (λ e. e.1.id ≡ e.0) id delta s.deltas v.named named;
    free = insert_free;
    indexed = insert_indexed;
    covered = λ i k h o. elim (Bool-cases (str_eq id i)) [
      | inl t ↦
          let eq : some delta ≡ some k = rw (lookup-insert id i delta s.deltas, t) at h in
          let eq' : delta ≡ k = ground arith in
          let clash : is_empty k.dedup_key ≡ true =
            subst (λ x. is_empty x.dedup_key ≡ true) eq' plain in
          cc
      | inr t ↦ v.covered i k (rw (lookup-insert id i delta s.deltas, t) at h) o
    ];
  }

  module _ (unseen : lookup delta.dedup_key s.dedup ≡ none) where
    keyed_indexed :
        (key i : Str)
        → lookup key (insert delta.dedup_key id s.dedup) ≡ some i
        → (k : Delta) × (lookup i (insert id delta s.deltas) ≡ some k) × (k.dedup_key ≡ key)
    keyed_indexed key i h = elim (Bool-cases (str_eq delta.dedup_key key)) [
      | inl t ↦
          let eq : some id ≡ some i = rw (lookup-insert delta.dedup_key key id s.dedup, t) at h in
          let eq' : id ≡ i = ground arith in
          (
            delta,
            rw (lookup-insert id i delta s.deltas, (str_eq_iff id i).1 eq'),
            (str_eq_iff delta.dedup_key key).0 t,
          )
      | inr t ↦ insert_indexed key i (rw (lookup-insert delta.dedup_key key id s.dedup, t) at h)
    ]

    keyed_covered :
        (i : Str) (k : Delta)
        → lookup i (insert id delta s.deltas) ≡ some k
        → is_empty k.dedup_key ≡ false
        → lookup k.dedup_key (insert delta.dedup_key id s.dedup) ≡ some i
    keyed_covered i k h o = elim (Bool-cases (str_eq id i)) [
      | inl t ↦
          let eq : some delta ≡ some k = rw (lookup-insert id i delta s.deltas, t) at h in
          let eq' : delta ≡ k = ground arith in
          let same : id ≡ i = (str_eq_iff id i).0 t in
          subst (λ x. lookup x.dedup_key (insert delta.dedup_key id s.dedup) ≡ some i) eq'
            (lookup-insert_self delta.dedup_key id s.dedup ∙ ap some same)
      | inr t ↦
          let old = v.covered i k (rw (lookup-insert id i delta s.deltas, t) at h) o in
          elim (Bool-cases (str_eq delta.dedup_key k.dedup_key)) [
            | inl same ↦
                let eq : delta.dedup_key ≡ k.dedup_key =
                  (str_eq_iff delta.dedup_key k.dedup_key).0 same in
                let clash : lookup delta.dedup_key s.dedup ≡ some i =
                  subst (λ x. lookup x s.dedup ≡ some i) (sym eq) old in
                cc
            | inr apart ↦ rw (lookup-insert delta.dedup_key k.dedup_key id s.dedup, apart) old
          ]
    ]

    -- A delta with a dedup key that was not seen before is indexed under it.
    pub insert_keyed-Inv :
        Inv (record s {
          deltas = insert id delta s.deltas;
          dedup = insert delta.dedup_key id s.dedup;
        })
    insert_keyed-Inv = record {
      unique = insert-Keys id delta s.deltas v.unique;
      named = All-insert (λ e. e.1.id ≡ e.0) id delta s.deltas v.named named;
      free = insert_free;
      indexed = keyed_indexed;
      covered = keyed_covered;
    }

-- A write to a delta of the map that keeps its identifier and its dedup key.
pub write-Inv :
    (s : DeltaStore) (id : Str) (delta delta' : Delta)
    → Inv s
    → lookup id s.deltas ≡ some delta
    → delta'.id ≡ delta.id
    → delta'.dedup_key ≡ delta.dedup_key
    → Inv (record s { deltas = insert id delta' s.deltas })
write-Inv s id delta delta' v found same_id same_key = record {
  unique = insert-Keys id delta' s.deltas v.unique;
  named =
      All-insert (λ e. e.1.id ≡ e.0) id delta' s.deltas v.named
        (same_id ∙ All-lookup (λ e. e.1.id ≡ e.0) id delta s.deltas v.named found);
  free = λ k h. has-insert_old id _ delta' delta s.deltas found ∙ v.free k h;
  indexed = λ key i h.
      let (k, at, keyed) = v.indexed key i h in
      elim (Bool-cases (str_eq id i)) [
        | inl t ↦
            let here : id ≡ i = (str_eq_iff id i).0 t in
            let old : lookup i s.deltas ≡ some delta = rw (← here) found in
            let eq : delta ≡ k = ground arith in
            (
              delta',
              rw (lookup-insert id i delta' s.deltas, t),
              same_key ∙ ap (λ (x : Delta). x.dedup_key) eq ∙ keyed,
            )
        | inr t ↦ (k, rw (lookup-insert id i delta' s.deltas, t) at, keyed)
      ];
  covered = λ i k h o. elim (Bool-cases (str_eq id i)) [
    | inl t ↦
        let here : id ≡ i = (str_eq_iff id i).0 t in
        let eq : some delta' ≡ some k = rw (lookup-insert id i delta' s.deltas, t) at h in
        let eq' : delta' ≡ k = ground arith in
        let key : delta.dedup_key ≡ k.dedup_key =
          sym same_key ∙ ap (λ (x : Delta). x.dedup_key) eq' in
        let old = v.covered id delta found (subst (λ x. is_empty x ≡ false) (sym key) o) in
        subst (λ x. lookup x s.dedup ≡ some i) key (old ∙ ap some here)
    | inr t ↦ v.covered i k (rw (lookup-insert id i delta' s.deltas, t) at h) o
  ];
}

pub new_delta_store-Inv : (max_size : ℤ) → Inv (new_delta_store max_size)
unfolding new_delta_store lookup has
new_delta_store-Inv max_size = record {
  unique = tt;
  named = tt;
  free = λ k h. refl;
  indexed = λ key id h. cc;
  covered = λ id delta h o. cc;
}
