-- ===== src/Ids.antt =====
-- The loop that numbers a new delta or job: `for { nextID++; candidate := Sprintf("job-%d", nextID);
-- if exists continue; break }` of internal/store.go and internal/dispatcher.go. The fuel is one
-- more than the number of entries.
use deltaflow.Prelude.{
  subst, ℕ, zero, suc, ◌<◌, ◌≤◌, ◌≡◌, ◌≢◌, refl, sym, false, if◌then◌else◌, Option, none, some,
  ◌++◌, ◌∙◌, Str, itoa, itoa-injective, append-cancel_left, Map, has, remove, has-remove, length,
  length-remove-lt, arith, Bool-cases, inl, inr,
}

-- `fmt.Sprintf("<prefix>-%d", n)`
unfoldable pub candidate : Str → ℕ → Str
candidate prefix n = prefix ++ itoa n

pub candidate-injective : (prefix : Str) (m n : ℕ) → candidate prefix m ≡ candidate prefix n → m ≡ n
unfolding candidate
candidate-injective prefix m n e =
    itoa-injective m n (append-cancel_left prefix (itoa m) (itoa n) e)

-- The counter after the loop and the identifier found; `none` if the fuel ran out.
unfoldable pub next_free {ℓ} : {V : Type ℓ} → ℕ → Str → ℕ → Map V → Option (ℕ × Str)
next_free zero prefix next m = none
next_free (suc fuel) prefix next m =
    let rest = next_free fuel prefix (suc next) m in
    if has (candidate prefix (suc next)) m
    then rest
    else some (suc next, candidate prefix (suc next))

-- An identifier that the loop has passed does not matter to it.
next_free-remove {ℓ} :
    {V : Type ℓ} (fuel : ℕ) (prefix : Str) (next k : ℕ) (m : Map V)
    → k ≤ next
    → next_free fuel prefix next (remove (candidate prefix k) m) ≡ next_free fuel prefix next m
unfolding next_free
next_free-remove zero prefix next k m h = refl
next_free-remove (suc fuel) prefix next k m h =
    let apart : candidate prefix k ≢ candidate prefix (suc next) =
      λ e. absurd (omega (arith, candidate-injective prefix k (suc next) e)) in
    rw (has-remove (candidate prefix k) (candidate prefix (suc next)) m apart)
      (elim (Bool-cases (has (candidate prefix (suc next)) m)) [
        | inl e ↦ rw e (next_free-remove fuel prefix (suc next) k m (omega arith))
        | inr e ↦ rw e refl
      ])

-- With more fuel than the map has entries, the numbering loop ends.
pub next_free_total {ℓ} :
    {V : Type ℓ} (fuel : ℕ) (prefix : Str) (next : ℕ) (m : Map V)
    → length m < fuel
    → (r : ℕ × Str) × (next_free fuel prefix next m ≡ some r)
unfolding next_free
next_free_total zero prefix next m h = elim h [ ]
next_free_total (suc fuel) prefix next m h =
    elim (Bool-cases (has (candidate prefix (suc next)) m)) [
      | inl e ↦
          let c = candidate prefix (suc next) in
          let (r, found) =
            next_free_total fuel prefix (suc next) (remove c m)
              (omega (arith, length-remove-lt c m e)) in
          (
            r,
            rw e (sym (next_free-remove fuel prefix (suc next) (suc next) m (omega arith)) ∙ found),
          )
      | inr e ↦ ((suc next, candidate prefix (suc next)), rw e)
    ]

-- What the numbering loop returns is a later number and its identifier, which is not in the map.
pub next_free_fresh {ℓ} :
    {V : Type ℓ} (fuel : ℕ) (prefix : Str) (next : ℕ) (m : Map V) {n : ℕ} {c : Str}
    → next_free fuel prefix next m ≡ some (n, c)
    → (next < n) × (c ≡ candidate prefix n) × (has c m ≡ false)
unfolding next_free
next_free_fresh zero prefix next m h = cc
next_free_fresh (suc fuel) prefix next m h =
    elim (Bool-cases (has (candidate prefix (suc next)) m)) [
      | inl e ↦ ground (arith, next_free_fresh fuel prefix (suc next) m (rw e at h))
      | inr e ↦ ground arith
    ]

-- With more fuel than the map has entries, the numbering loop ends, with a later number whose
-- identifier is not in the map.
pub next_free_lem {ℓ} :
    {V : Type ℓ} (fuel : ℕ) (prefix : Str) (next : ℕ) (m : Map V)
    → length m < fuel
    → (n : ℕ) × (next_free fuel prefix next m ≡ some (n, candidate prefix n))
      × (next < n)
      × (has (candidate prefix n) m ≡ false)
next_free_lem fuel prefix next m h =
    let ((n, c), found) = next_free_total fuel prefix next m h in
    let (later, same, free) = next_free_fresh fuel prefix next m found in
    (
      n,
      subst (λ x. next_free fuel prefix next m ≡ some (n, x)) same found,
      later,
      subst (λ x. has x m ≡ false) same free,
    )

-- Where the next number is free, the loop takes it in its first round.
pub next_free_first {ℓ} :
    {V : Type ℓ} (fuel : ℕ) (prefix : Str) (next : ℕ) (m : Map V)
    → has (candidate prefix (suc next)) m ≡ false
    → next_free (suc fuel) prefix next m ≡ some (suc next, candidate prefix (suc next))
unfolding next_free
next_free_first fuel prefix next m h = rw h
