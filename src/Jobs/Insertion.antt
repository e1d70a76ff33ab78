-- ===== src/Jobs/Insertion.antt =====
-- A new job enters the store under a number that is not in use: `createLocked` of internal/store.go
-- and the staged jobs of internal/dispatcher.go.
use deltaflow.Prelude.{
  ℕ, Str, true, false, ◌≡◌, ◌≢◌, sym, ◌∙◌, ap, ◌<◌, ◌≤◌, some, lookup, insert, has, has-insert,
  has_of_lookup, insert-Keys, lookup-insert, All-insert, arith, codes, str_eq, str_eq_iff,
  str_eq_refl, Bool-cases, inl, inr,
}
use deltaflow.Model.{SyncJob, outbox}
use deltaflow.Ids.{candidate, candidate-injective}
use deltaflow.Jobs.State.{JobStore}
use deltaflow.Jobs.Invariant.{Inv, IsOutboxJobOf}

pub raise_next-Inv : (s : JobStore) (n : ℕ) → Inv s → s.next_id ≤ n → Inv (record s { next_id = n })
raise_next-Inv s n v h = record {
  unique = v.unique;
  named = v.named;
  free = λ k g. v.free k (omega arith);
  mapped = v.mapped;
  covered = v.covered;
}

module _ (s : JobStore) (v : Inv s) (id : Str) (n : ℕ) (job : SyncJob)
    (absent : has id s.jobs ≡ false) (named : job.id ≡ id)
    (numbered : id ≡ candidate (codes "job-") n) (passed : n ≤ s.next_id) where
  other_key : (i : Str) (k : SyncJob) → lookup i s.jobs ≡ some k → str_eq id i ≡ false
  other_key i k h = elim (Bool-cases (str_eq id i)) [
    | inl t ↦
        let here : id ≡ i = (str_eq_iff id i).0 t in
        let there : has id s.jobs ≡ true = rw here (has_of_lookup i k s.jobs h) in cc
    | inr t ↦ t
  ]

  insert_free :
      (k : ℕ) → s.next_id < k → has (candidate (codes "job-") k) (insert id job s.jobs) ≡ false
  insert_free k g =
      let c = candidate (codes "job-") k in
      elim (Bool-cases (str_eq id c)) [
        | inl t ↦
            let same : n ≡ k =
              candidate-injective (codes "job-") n k (sym numbered ∙ (str_eq_iff id c).0 t) in
            absurd (omega arith)
        | inr t ↦ rw (has-insert id c job s.jobs, t) (v.free k g)
      ]

  insert_mapped :
      (d i : Str)
      → lookup d s.job_by_delta ≡ some i
      → (k : SyncJob) × (lookup i (insert id job s.jobs) ≡ some k) × IsOutboxJobOf d k
  insert_mapped d i h =
      let (k, at, of) = v.mapped d i h in
      (k, rw (lookup-insert id i job s.jobs, other_key i k at) at, of)

  -- A job of another origin is not indexed.
  pub insert_plain-Inv : job.origin ≢ outbox → Inv (record s { jobs = insert id job s.jobs })
  insert_plain-Inv plain = record {
    unique = insert-Keys id job s.jobs v.unique;
    named = All-insert (λ e. e.1.id ≡ e.0) id job s.jobs v.named named;
    free = insert_free;
    mapped = insert_mapped;
    covered = λ i k h o. elim (Bool-cases (str_eq id i)) [
      | inl t ↦
          let eq : some job ≡ some k = rw (lookup-insert id i job s.jobs, t) at h in
          absurd (plain (ground arith))
      | inr t ↦ v.covered i k (rw (lookup-insert id i job s.jobs, t) at h) o
    ];
  }

  module _ (d : Str) (of : IsOutboxJobOf d job) (unmapped : has d s.job_by_delta ≡ false) where
    outbox_mapped :
        (e i : Str)
        → lookup e (insert d id s.job_by_delta) ≡ some i
        → (k : SyncJob) × (lookup i (insert id job s.jobs) ≡ some k) × IsOutboxJobOf e k
    outbox_mapped e i h = elim (Bool-cases (str_eq d e)) [
      | inl t ↦
          let eq : some id ≡ some i = rw (lookup-insert d e id s.job_by_delta, t) at h in
          let eq' : id ≡ i = ground arith in
          let same : d ≡ e = (str_eq_iff d e).0 t in
          (
            job,
            rw (lookup-insert id i job s.jobs, (str_eq_iff id i).1 eq'),
            (of.0, of.1 ∙ ap some same),
          )
      | inr t ↦ insert_mapped e i (rw (lookup-insert d e id s.job_by_delta, t) at h)
    ]

    outbox_covered :
        (i : Str) (k : SyncJob)
        → lookup i (insert id job s.jobs) ≡ some k
        → k.origin ≡ outbox
        → (e : Str) × (k.delta_id ≡ some e) × (lookup e (insert d id s.job_by_delta) ≡ some i)
    outbox_covered i k h o = elim (Bool-cases (str_eq id i)) [
      | inl t ↦
          let eq : some job ≡ some k = rw (lookup-insert id i job s.jobs, t) at h in
          let eq' : job ≡ k = ground arith in
          let same : id ≡ i = (str_eq_iff id i).0 t in
          (
            d,
            sym (ap (λ (j : SyncJob). j.delta_id) eq') ∙ of.1,
            rw (lookup-insert d d id s.job_by_delta, str_eq_refl d) (ap some same),
          )
      | inr t ↦
          let (e, at, mapped) = v.covered i k (rw (lookup-insert id i job s.jobs, t) at h) o in
          elim (Bool-cases (str_eq d e)) [
            | inl same ↦
                let eq : d ≡ e = (str_eq_iff d e).0 same in
                let hit : has d s.job_by_delta ≡ true =
                  rw eq (has_of_lookup e i s.job_by_delta mapped) in
                cc
            | inr apart ↦ (e, at, rw (lookup-insert d e id s.job_by_delta, apart) mapped)
          ]
    ]

    -- An outbox job is indexed under its delta, which had no job before.
    pub insert_outbox-Inv :
        Inv (record s { jobs = insert id job s.jobs; job_by_delta = insert d id s.job_by_delta })
    insert_outbox-Inv = record {
      unique = insert-Keys id job s.jobs v.unique;
      named = All-insert (λ e. e.1.id ≡ e.0) id job s.jobs v.named named;
      free = insert_free;
      mapped = outbox_mapped;
      covered = outbox_covered;
    }
