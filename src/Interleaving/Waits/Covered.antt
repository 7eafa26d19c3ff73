-- ===== src/Interleaving/Waits/Covered.antt =====
-- While the object is open: what there is to have is notified or about to be.
use cpp_grpc_db.Prelude.{
  ℕ, ◌+◌, ◌-◌, ◌≤◌, ◌<◌, Bool, true, false, List, ◌==◌, total, ◌≡◌, refl, arith, Bool-cases, inl,
  inr,
}
use cpp_grpc_db.Interleaving.{System, run, run-Balanced_following}
use cpp_grpc_db.Interleaving.Waits.{
  Signal, silent, one, all, Monitor, Thread, Act, notifies, acts, ones, used, is_silent, deliver,
  acted, resumed, move,
}
use cpp_grpc_db.Interleaving.Waits.Discipline.{Discipline}
use cpp_grpc_db.Interleaving.Waits.Closing.{closes, run-permitted}

quiet_ones : (s : Signal) → is_silent s ≡ true → ones s ≡ 0
quiet_ones silent h = refl
quiet_ones one h = ground arith
quiet_ones all h = ground arith

module _ {P Pc Event : Type 0} (base : P → Pc → Event → P × Pc) (waits : Pc → Bool)
    (resumes : Bool → Pc → Event → Bool) (signal : P → Pc → Event → Signal) (fine : P → Type 0)
    (capacity : P → ℕ) (closed : P → Bool) (closing : Pc → ℕ)
    (d : Discipline base waits resumes signal fine capacity closed closing) where
  -- While the object is open, what is there is covered by threads notified and notifications to come.
  pub record Covered (m : Monitor P) (n : ℕ) : Type 0 where
    pub still_fine : fine m.object
    pub covered : 0 < m.asleep → closed m.object ≡ false → capacity m.object ≤ m.notified + n

  abbrev pub owes_one : Thread Pc → ℕ
  owes_one t = ones t.owes

  Covered-le : (m : Monitor P) (n k : ℕ) → n ≤ k → Covered m n → Covered m k
  Covered-le m n k more c = record {
    still_fine = c.still_fine;
    covered = λ some_asleep still_open. omega (arith, c.covered some_asleep still_open);
  }

  deliver-Covered :
      (s : Signal) (m : Monitor P) (n : ℕ)
      → Covered m (n + ones s)
      → Covered (deliver base waits resumes signal s m) n
  deliver-Covered silent m n c = ground arith
  deliver-Covered one m n c = elim (Bool-cases (m.asleep == 0)) [
    | inl none_asleep ↦ rw none_asleep (ground arith)
    | inr some_asleep ↦ rw some_asleep (ground arith)
  ]
  deliver-Covered all m n c = record {
    still_fine = c.still_fine;
    covered = λ some_asleep. absurd (omega (arith, some_asleep));
  }

  -- A move from `pc`, once the monitor no longer counts the thread.
  acted-Covered :
      (noticed : Bool) (m : Monitor P) (pc : Pc) (e : Event) (n : ℕ)
      → fine m.object
      → (waits pc ≡ true → resumes noticed pc e ≡ true)
      → (0 < m.asleep
          → waits (base m.object pc e).1 ≡ false
          → closed (base m.object pc e).0 ≡ false
          → capacity (base m.object pc e).0 ≤ m.notified + n)
      → Covered (acted base waits resumes signal m pc e).0 n
  acted-Covered noticed m pc e n ok fits enough = elim (Bool-cases (waits (base m.object pc e).1)) [
    | inl sleeps ↦
        let (nothing, open_yet) = d.sleeps noticed m.object pc e fits sleeps in
        rw sleeps (record {
          still_fine = d.stays_fine m.object pc e ok;
          covered = λ some_asleep still_open. omega (arith, nothing);
        })
    | inr on ↦ rw on (record {
      still_fine = d.stays_fine m.object pc e ok;
      covered = λ some_asleep still_open. enough some_asleep on still_open;
    })
  ]

  -- The move of a thread that was awake.
  awake-Covered :
      (m : Monitor P) (pc : Pc) (e : Event) (n : ℕ)
      → (1 ≤ closing pc → closed m.object ≡ true)
      → waits pc ≡ false
      → Covered m n
      → Covered (acted base waits resumes signal m pc e).0 (n + ones (signal m.object pc e))
  awake-Covered m pc e n allowed awake c =
      acted-Covered false m pc e (n + ones (signal m.object pc e)) c.still_fine (λ h. cc (h, awake))
        λ some_asleep on still_open.
          let before = c.covered some_asleep (d.reopens_never m.object pc e still_open) in
          omega (arith, before, d.gains m.object pc e c.still_fine allowed awake still_open)

  -- The move of one that slept, once `a` are asleep and `k` notified without it.
  gone_on-Covered :
      (noticed : Bool) (m : Monitor P) (a k : ℕ) (pc : Pc) (e : Event) (n : ℕ)
      → a ≤ m.asleep
      → m.notified ≤ k + used noticed
      → waits pc ≡ true
      → resumes noticed pc e ≡ true
      → Covered m n
      → Covered
          (acted base waits resumes signal (record m { asleep = a; notified = k }) pc e).0
          (n + ones (signal m.object pc e))
  gone_on-Covered noticed m a k pc e n fewer one_less asleep fits c =
      acted-Covered noticed (record m { asleep = a; notified = k }) pc e
        (n + ones (signal m.object pc e)) c.still_fine (λ h. fits)
        λ some_asleep on still_open.
          let before =
            c.covered (omega (arith, some_asleep)) (d.reopens_never m.object pc e still_open) in
          omega
            (arith, before, d.takes noticed m.object pc e c.still_fine asleep fits on still_open)

  resumed-Covered :
      (noticed : Bool) (m : Monitor P) (pc : Pc) (e : Event) (t : Thread Pc) (n : ℕ)
      → waits pc ≡ true
      → resumes noticed pc e ≡ true
      → ones t.owes ≡ 0
      → Covered m n
      → Covered
          (resumed base waits resumes signal noticed m pc e t).0
          (n + ones (resumed base waits resumes signal noticed m pc e t).1.owes)
  resumed-Covered true m pc e t n asleep fits quiet c = elim (Bool-cases (m.notified == 0)) [
    | inl nobody ↦ rw nobody (ground arith)
    | inr somebody ↦ rw somebody (
        gone_on-Covered true m m.asleep (m.notified - 1) pc e n (omega arith) (omega arith) asleep
          fits c)
  ]
  resumed-Covered false m pc e t n asleep fits quiet c = elim (Bool-cases (m.asleep == 0)) [
    | inl nobody ↦ rw nobody (ground arith)
    | inr somebody ↦ rw somebody (
        gone_on-Covered false m (m.asleep - 1) m.notified pc e n (omega arith) (omega arith) asleep
          fits c)
  ]

  move-Covered :
      (t : Thread Pc) (x : Act Event) (m : Monitor P) (n : ℕ)
      → (1 ≤ closing t.pc → closed m.object ≡ true)
      → Covered m (n + owes_one t)
      → Covered
          (move base waits resumes signal m t x).0
          (n + owes_one (move base waits resumes signal m t x).1)
  unfolding move
  move-Covered t notifies m n allowed c =
      Covered-le _ n (n + 0) (omega arith) (deliver-Covered t.owes m n c)
  move-Covered t (acts noticed e) m n allowed c = elim (Bool-cases (is_silent t.owes)) [
    | inl free ↦ elim (Bool-cases (waits t.pc)) [
      | inl asleep ↦ elim (Bool-cases (resumes noticed t.pc e)) [
        | inl fits ↦
            rw (free, asleep, fits)
              (resumed-Covered noticed m t.pc e t n asleep fits (quiet_ones t.owes free)
                (Covered-le m _ n (omega (arith, quiet_ones t.owes free)) c))
        | inr other ↦ rw (free, asleep, other) c
      ]
      | inr awake ↦
          rw (free, awake)
            (awake-Covered m t.pc e n allowed awake
              (Covered-le m _ n (omega (arith, quiet_ones t.owes free)) c))
    ]
    | inr busy ↦ rw busy c
  ]

  pub run-Covered :
      (s : System (Monitor P) (Thread Pc)) (xs : List (ℕ × Act Event))
      → fine s.shared.object
      → total (closes base waits resumes signal fine capacity closed closing d) s.threads ≡ 0
      → s.shared.asleep ≡ 0
      → Covered
          (run (move base waits resumes signal) s xs).shared
          (total owes_one (run (move base waits resumes signal) s xs).threads)
  run-Covered s xs ok none_closing awake =
      run-Balanced_following (move base waits resumes signal) owes_one Covered
        (λ m t x. 1 ≤ closing t.pc → closed m.object ≡ true)
        (λ t x m n allowed c. move-Covered t x m n allowed c) s xs
        (run-permitted base waits resumes signal fine capacity closed closing d s xs none_closing)
        (record { still_fine = ok; covered = λ h. absurd (omega (arith, h, awake)) })
