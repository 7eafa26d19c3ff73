-- ===== src/Interleaving/Waits/Announced.antt =====
-- When the object closes: all that sleep are about to be notified.
use cpp_grpc_db.Prelude.{
  ℕ, ◌+◌, ◌-◌, ◌≤◌, ◌<◌, Bool, true, false, List, ◌==◌, total, ◌≡◌, refl, arith, Bool-cases, inl,
  inr,
}
use cpp_grpc_db.Interleaving.{System, run, run-Balanced}
use cpp_grpc_db.Interleaving.Waits.{
  Signal, silent, one, all, Monitor, Thread, Act, notifies, acts, alls, is_silent, deliver, acted,
  resumed, move,
}
use cpp_grpc_db.Interleaving.Waits.Discipline.{Discipline}

quiet_alls : (s : Signal) → is_silent s ≡ true → alls s ≡ 0
quiet_alls silent h = refl
quiet_alls one h = ground arith
quiet_alls all h = ground arith

module _ {P Pc Event : Type 0} (base : P → Pc → Event → P × Pc) (waits : Pc → Bool)
    (resumes : Bool → Pc → Event → Bool) (signal : P → Pc → Event → Signal) (fine : P → Type 0)
    (capacity : P → ℕ) (closed : P → Bool) (closing : Pc → ℕ)
    (d : Discipline base waits resumes signal fine capacity closed closing) where
  -- A closed object is about to notify all.
  pub record Announced (m : Monitor P) (n : ℕ) : Type 0 where
    pub announced : 0 < m.asleep → closed m.object ≡ true → 1 ≤ n

  abbrev pub owes_all : Thread Pc → ℕ
  owes_all t = closing t.pc + alls t.owes

  deliver-Announced :
      (s : Signal) (m : Monitor P) (n : ℕ)
      → Announced m (n + alls s)
      → Announced (deliver base waits resumes signal s m) n
  deliver-Announced silent m n a = ground arith
  deliver-Announced one m n a = elim (Bool-cases (m.asleep == 0)) [
    | inl none_asleep ↦ rw none_asleep (ground arith)
    | inr some_asleep ↦ rw some_asleep (ground arith)
  ]
  deliver-Announced all m n a = record {
    announced = λ some_asleep. absurd (omega (arith, some_asleep));
  }

  Announced-le : (m : Monitor P) (n k : ℕ) → n ≤ k → Announced m n → Announced m k
  Announced-le m n k more a = record {
    announced = λ some_asleep shut. omega (arith, a.announced some_asleep shut);
  }

  acted-Announced :
      (noticed : Bool) (m : Monitor P) (a : ℕ) (k : ℕ) (pc : Pc) (e : Event) (n : ℕ)
      → a ≤ m.asleep
      → (waits pc ≡ true → resumes noticed pc e ≡ true)
      → Announced m (n + closing pc)
      → Announced
          (acted base waits resumes signal (record m { asleep = a; notified = k }) pc e).0
          (n + (closing (base m.object pc e).1 + alls (signal m.object pc e)))
  acted-Announced noticed m a k pc e n fewer fits h =
      elim (Bool-cases (waits (base m.object pc e).1)) [
        | inl sleeps ↦
            let (nothing, open_yet) = d.sleeps noticed m.object pc e fits sleeps in
            rw sleeps (record { announced = λ some_asleep shut. absurd cc })
        | inr on ↦ rw on (record {
          announced = λ some_asleep shut. elim (Bool-cases (closed m.object)) [
            | inl before ↦ omega (
              arith,
              h.announced (omega (arith, some_asleep)) before,
              d.goes_on_closing m.object pc e,
            )
            | inr not_before ↦ omega (arith, d.closes m.object pc e not_before shut)
          ];
        })
      ]

  resumed-Announced :
      (noticed : Bool) (m : Monitor P) (t : Thread Pc) (e : Event) (n : ℕ)
      → resumes noticed t.pc e ≡ true
      → Announced m (n + owes_all t)
      → Announced m (n + closing t.pc)
      → Announced
          (resumed base waits resumes signal noticed m t.pc e t).0
          (n + owes_all (resumed base waits resumes signal noticed m t.pc e t).1)
  resumed-Announced true m t e n fits a bare = elim (Bool-cases (m.notified == 0)) [
    | inl nobody ↦ rw nobody a
    | inr somebody ↦
        rw somebody
          (acted-Announced true m m.asleep (m.notified - 1) t.pc e n (omega arith) (λ h. fits) bare)
  ]
  resumed-Announced false m t e n fits a bare = elim (Bool-cases (m.asleep == 0)) [
    | inl nobody ↦ rw nobody a
    | inr somebody ↦
        rw somebody (
          acted-Announced false m (m.asleep - 1) m.notified t.pc e n (omega arith) (λ h. fits) bare)
  ]

  move-Announced :
      (t : Thread Pc) (x : Act Event) (m : Monitor P) (n : ℕ)
      → Announced m (n + owes_all t)
      → Announced
          (move base waits resumes signal m t x).0
          (n + owes_all (move base waits resumes signal m t x).1)
  unfolding move
  move-Announced t notifies m n a =
      let owed = Announced-le m _ (n + closing t.pc + alls t.owes) (omega arith) a in
      Announced-le _ (n + closing t.pc) _ (omega arith)
        (deliver-Announced t.owes m (n + closing t.pc) owed)
  move-Announced t (acts noticed e) m n a = elim (Bool-cases (is_silent t.owes)) [
    | inl free ↦
        let bare = Announced-le m _ (n + closing t.pc) (omega (arith, quiet_alls t.owes free)) a in
        elim (Bool-cases (waits t.pc)) [
          | inl asleep ↦ elim (Bool-cases (resumes noticed t.pc e)) [
            | inl fits ↦ rw (free, asleep, fits) (resumed-Announced noticed m t e n fits a bare)
            | inr other ↦ rw (free, asleep, other) a
          ]
          | inr awake ↦
              rw (free, awake)
                (acted-Announced false m m.asleep m.notified t.pc e n (omega arith)
                  (λ h. cc (h, awake)) bare)
        ]
    | inr busy ↦ rw busy a
  ]

  pub run-Announced :
      (s : System (Monitor P) (Thread Pc)) (xs : List (ℕ × Act Event))
      → s.shared.asleep ≡ 0
      → Announced
          (run (move base waits resumes signal) s xs).shared
          (total owes_all (run (move base waits resumes signal) s xs).threads)
  run-Announced s xs awake =
      run-Balanced (move base waits resumes signal) owes_all Announced
        (λ t x m n. move-Announced t x m n) s xs
        (record { announced = λ h. absurd (omega (arith, h, awake)) })
