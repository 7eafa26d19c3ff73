-- ===== src/Interleaving/Waits/Closing.antt =====
-- A thread that is on its way to notify all has closed the object.
use cpp_grpc_db.Prelude.{
  ℕ, ◌+◌, ◌≤◌, Bool, true, List, total, ◌≡◌, sym, arith, ltb, ltb→lt, [], ◌∷◌, Bool-cases, inl, inr,
}
use cpp_grpc_db.Interleaving.{System, step, Follows, Follows-Ledger}
use cpp_grpc_db.Interleaving.Waits.{Signal, Monitor, Thread, Act, move}
use cpp_grpc_db.Interleaving.Waits.Erasure.{move-Erased}
use cpp_grpc_db.Interleaving.Waits.Discipline.{Discipline}

module _ {P Pc Event : Type 0} (base : P → Pc → Event → P × Pc) (waits : Pc → Bool)
    (resumes : Bool → Pc → Event → Bool) (signal : P → Pc → Event → Signal) (fine : P → Type 0)
    (capacity : P → ℕ) (closed : P → Bool) (closing : Pc → ℕ)
    (d : Discipline base waits resumes signal fine capacity closed closing) where
  abbrev pub closes : Thread Pc → ℕ
  closes t = closing t.pc

  record Shutting (m : Monitor P) (n : ℕ) : Type 0 where
    shut : 1 ≤ n → closed m.object ≡ true

  stays_closed : (p : P) (pc : Pc) (e : Event) → closed p ≡ true → closed (base p pc e).0 ≡ true
  stays_closed p pc e h = elim (Bool-cases (closed (base p pc e).0)) [
    | inl shut ↦ shut
    | inr opens ↦ let before = d.reopens_never p pc e opens in cc
  ]

  moved-Shutting :
      (p : P) (pc : Pc) (e : Event) (n : ℕ)
      → (1 ≤ n + closing pc → closed p ≡ true)
      → 1 ≤ n + closing (base p pc e).1
      → closed (base p pc e).0 ≡ true
  moved-Shutting p pc e n h some = elim (Bool-cases (ltb 0 (n + closing pc))) [
    | inl before ↦ stays_closed p pc e (h (omega (arith, ltb→lt 0 (n + closing pc) before)))
    | inr first ↦
        let none_yet : n + closing pc ≡ 0 = ground arith in
        d.begins_closing p pc e (omega (arith, none_yet)) (omega (arith, none_yet, some))
  ]

  move-Shutting :
      (t : Thread Pc) (x : Act Event) (m : Monitor P) (n : ℕ)
      → Shutting m (n + closes t)
      → Shutting
          (move base waits resumes signal m t x).0
          (n + closes (move base waits resumes signal m t x).1)
  move-Shutting t x m n h = elim (move-Erased base waits resumes signal m t x) [
    | inl (same, stays) ↦ record { shut = λ some. rw same (h.shut (rw (sym stays) some)) }
    | inr (e, object, pc) ↦ record {
      shut = λ some. rw object (moved-Shutting m.object t.pc e n h.shut (rw (sym pc) some));
    }
  ]

  Follows-any :
      (s : System (Monitor P) (Thread Pc)) (xs : List (ℕ × Act Event))
      → Follows (move base waits resumes signal) (λ m t x. Unit) s xs
  Follows-any s [] = tt
  Follows-any s ((i, x) ∷ xs) =
      ((λ t at. tt), Follows-any (step (move base waits resumes signal) s (i, x)) xs)

  -- What a thread on its way may count on, in every schedule.
  pub run-permitted :
      (s : System (Monitor P) (Thread Pc)) (xs : List (ℕ × Act Event))
      → total closes s.threads ≡ 0
      → Follows
          (move base waits resumes signal)
          (λ m t x. 1 ≤ closing t.pc → closed m.object ≡ true)
          s
          xs
  run-permitted s xs none_closing = weaken s xs (
      Follows-Ledger (move base waits resumes signal) closes Shutting (λ m t x. Unit)
        (λ t x m n. move-Shutting t x m n) s xs
        (record { shut = λ some. absurd (omega (arith, some, none_closing)) }) (Follows-any s xs))
    where
      weaken :
          (s : System (Monitor P) (Thread Pc)) (xs : List (ℕ × Act Event))
          → Follows
              (move base waits resumes signal)
              (λ m t x. Unit × ((n : ℕ) × Shutting m (n + closes t)))
              s
              xs
          → Follows
              (move base waits resumes signal)
              (λ m t x. 1 ≤ closing t.pc → closed m.object ≡ true)
              s
              xs
      weaken s [] f = tt
      weaken s ((i, x) ∷ xs) f = (
        λ t at some. let (u, w) = f.0 t at in let (n, h) = w in h.shut (omega (arith, some)),
        weaken (step (move base waits resumes signal) s (i, x)) xs f.1,
      )
