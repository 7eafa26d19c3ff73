-- ===== src/Interleaving/Ownership.antt =====
-- How many owners a resource has over a schedule: a move that the resource does not come in by does
-- not add one.
use cpp_grpc_db.Prelude.{ℕ, ◌+◌, ◌≤◌, List, [], ◌∷◌, total, arith}
use cpp_grpc_db.Interleaving.{System, step, run, step-total}

module _ {P Pc Event : Type 0} (move : P → Pc → Event → P × Pc) (idle : P → ℕ) (owns : Pc → ℕ)
    (born : Event → ℕ) where
  abbrev pub births : List (ℕ × Event) → ℕ
  births [] = 0
  births ((i, e) ∷ xs) = born e + births xs

  abbrev pub owners : System P Pc → ℕ
  owners s = idle s.shared + total owns s.threads

  module _
      (moves : (pc : Pc) (e : Event) (p : P)
        → idle (move p pc e).0 + owns (move p pc e).1 ≤ idle p + owns pc + born e) where
    step-owners :
        (s : System P Pc) (i : ℕ) (e : Event) → owners (step move s (i, e)) ≤ owners s + born e
    step-owners s i e =
        step-total move owns (λ p n. idle p + n ≤ owners s + born e) s i e (omega arith)
          (λ pc n before. omega (arith, moves pc e s.shared))

    pub run-owners :
        (s : System P Pc) (xs : List (ℕ × Event)) → owners (run move s xs) ≤ owners s + births xs
    unfolding run
    run-owners s [] = omega arith
    run-owners s ((i, e) ∷ xs) =
        omega (arith, run-owners (step move s (i, e)) xs, step-owners s i e)
