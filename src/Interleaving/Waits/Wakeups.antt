-- ===== src/Interleaving/Waits/Wakeups.antt =====
-- No wake-up is lost: what a sleeping thread may conclude.
use cpp_grpc_db.Prelude.{
  ℕ, ◌+◌, ◌<◌, Bool, false, List, total, total-le, ◌≡◌, arith, Bool-cases, inl, inr,
}
use cpp_grpc_db.Interleaving.{System, run}
use cpp_grpc_db.Interleaving.Waits.{Signal, Monitor, Thread, Act, ones, alls, move}
use cpp_grpc_db.Interleaving.Waits.Covered.{owes_one, run-Covered}
use cpp_grpc_db.Interleaving.Waits.Announced.{owes_all, run-Announced}
use cpp_grpc_db.Interleaving.Waits.Discipline.{Discipline}
use cpp_grpc_db.Interleaving.Waits.Closing.{closes}

module _ {P Pc Event : Type 0} (base : P → Pc → Event → P × Pc) (waits : Pc → Bool)
    (resumes : Bool → Pc → Event → Bool) (signal : P → Pc → Event → Signal) (fine : P → Type 0)
    (capacity : P → ℕ) (closed : P → Bool) (closing : Pc → ℕ)
    (d : Discipline base waits resumes signal fine capacity closed closing) where
  -- The notifications that a thread owes.
  abbrev pub debt : Thread Pc → ℕ
  debt t = closing t.pc + (ones t.owes + alls t.owes)

  abbrev pub after :
      System (Monitor P) (Thread Pc) → List (ℕ × Act Event) → System (Monitor P) (Thread Pc)
  after s xs = run (move base waits resumes signal) s xs

  -- When every notification has been made and taken, a thread that still sleeps has an open object
  -- with nothing to have in front of it.
  pub sleepers :
      (s : System (Monitor P) (Thread Pc)) (xs : List (ℕ × Act Event))
      → fine s.shared.object
      → total (closes base waits resumes signal fine capacity closed closing d) s.threads ≡ 0
      → s.shared.asleep ≡ 0
      → 0 < (after s xs).shared.asleep
      → (after s xs).shared.notified ≡ 0
      → total debt (after s xs).threads ≡ 0
      → (capacity (after s xs).shared.object ≡ 0) × (closed (after s xs).shared.object ≡ false)
  sleepers s xs ok none_closing awake some_asleep none_notified paid =
      let t = after s xs in
      let c =
        run-Covered base waits resumes signal fine capacity closed closing d s xs ok none_closing
          awake in
      let a = run-Announced base waits resumes signal fine capacity closed closing d s xs awake in
      let ones_paid =
        total-le (owes_one base waits resumes signal fine capacity closed closing d) debt
          (λ u. omega arith) t.threads in
      let alls_paid =
        total-le (owes_all base waits resumes signal fine capacity closed closing d) debt
          (λ u. omega arith) t.threads in
      elim (Bool-cases (closed t.shared.object)) [
        | inl shut ↦ absurd (omega (arith, a.announced some_asleep shut, alls_paid, paid))
        | inr still_open ↦ (
          omega (arith, c.covered some_asleep still_open, none_notified, ones_paid, paid),
          still_open,
        )
      ]
