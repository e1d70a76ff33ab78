-- ===== src/Worker/Routines.antt =====
-- pkg/deltaflow/worker.go: the identifiers under which the routines of one worker hold leases.
use deltaflow.Prelude.{
  ℕ, zero, suc, Str, ◌≡◌, refl, ◌∙◌, ap, ◌++◌, ◌+◌, length, length-append, codes, itoa,
  itoa-injective, append-cancel_left, arith,
}
use deltaflow.Worker.Config.{worker_id_for_routine}

length-prefixed :
    (w : Str) (n : ℕ) → length (w ++ codes "-r" ++ itoa n) ≡ length w + 2 + length (itoa n)
length-prefixed w n =
    length-append (w ++ codes "-r") (itoa n)
    ∙ ap (λ k. k + length (itoa n)) (length-append w (codes "-r"))

-- Different routines of a worker have different identifiers.
pub worker_id_for_routine-injective :
    (w : Str) (m n : ℕ) → worker_id_for_routine w m ≡ worker_id_for_routine w n → m ≡ n
unfolding worker_id_for_routine
worker_id_for_routine-injective w zero zero e = refl
worker_id_for_routine-injective w zero (suc n) e =
    let same : length w ≡ length (w ++ codes "-r" ++ itoa (suc n)) = ap length e in
    absurd (omega (arith, same, length-prefixed w (suc n)))
worker_id_for_routine-injective w (suc m) zero e =
    let same : length (w ++ codes "-r" ++ itoa (suc m)) ≡ length w = ap length e in
    absurd (omega (arith, same, length-prefixed w (suc m)))
worker_id_for_routine-injective w (suc m) (suc n) e =
    itoa-injective (suc m) (suc n)
      (append-cancel_left (w ++ codes "-r") (itoa (suc m)) (itoa (suc n)) e)
