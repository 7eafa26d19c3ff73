-- ===== src/Interleaving/Waits/Erasure.antt =====
-- Without its monitor a run is a run of the system: waiting and notifying only restrict the schedule.
use mathlib.Core.Option.{some-injective}
use cpp_grpc_db.Prelude.{
  ◌-◌, ℕ, zero, suc, Bool, true, false, List, [], ◌∷◌, ◌++◌, some, ◌==◌, get_elem?, set, ◌≡◌, refl,
  sym, ap, ◌∙◌, ◌⊎◌, inl, inr, arith, Bool-cases,
}
use cpp_grpc_db.Interleaving.{System, step, run, run-append, moved, step_cases}
use cpp_grpc_db.Interleaving.Waits.{
  Signal, silent, one, all, Monitor, Thread, Act, notifies, acts, is_silent, deliver, fall_asleep,
  acted, resumed, move,
}

module _ {P Pc Event : Type 0} (base : P → Pc → Event → P × Pc) (waits : Pc → Bool)
    (resumes : Bool → Pc → Event → Bool) (signal : P → Pc → Event → Signal) where
  abbrev pub pcs : List (Thread Pc) → List Pc
  pcs [] = []
  pcs (t ∷ ts) = t.pc ∷ pcs ts

  abbrev pub erase : System (Monitor P) (Thread Pc) → System P Pc
  erase s = record { shared = s.shared.object; threads = pcs s.threads }

  -- A move of the monitor leaves the object and the program point, or is a move of the object.
  abbrev pub Erased : Monitor P → Thread Pc → Monitor P × Thread Pc → Type 0
  Erased m t (m', t') =
      ((m'.object ≡ m.object) × (t'.pc ≡ t.pc))
      ⊎ ((e : Event) × (m'.object ≡ (base m.object t.pc e).0) × (t'.pc ≡ (base m.object t.pc e).1))

  object-fall_asleep :
      (pc : Pc) (m : Monitor P) → (fall_asleep base waits resumes signal pc m).object ≡ m.object
  object-fall_asleep pc m = elim (Bool-cases (waits pc)) [ inl b ↦ rw b refl | inr b ↦ rw b refl ]

  object-deliver :
      (s : Signal) (m : Monitor P) → (deliver base waits resumes signal s m).object ≡ m.object
  object-deliver silent m = refl
  object-deliver one m = elim (Bool-cases (m.asleep == 0)) [ inl b ↦ rw b refl | inr b ↦ rw b refl ]
  object-deliver all m = refl

  acted-Erased :
      (m : Monitor P) (a k : ℕ) (t : Thread Pc) (e : Event)
      → Erased m t (acted base waits resumes signal (record m { asleep = a; notified = k }) t.pc e)
  acted-Erased m a k t e = inr (e, object-fall_asleep (base m.object t.pc e).1 _, refl)

  resumed-Erased :
      (noticed : Bool) (m : Monitor P) (t : Thread Pc) (e : Event)
      → Erased m t (resumed base waits resumes signal noticed m t.pc e t)
  resumed-Erased true m t e = elim (Bool-cases (m.notified == 0)) [
    | inl b ↦ rw b (inl (refl, refl))
    | inr b ↦ rw b (acted-Erased m m.asleep (m.notified - 1) t e)
  ]
  resumed-Erased false m t e = elim (Bool-cases (m.asleep == 0)) [
    | inl b ↦ rw b (inl (refl, refl))
    | inr b ↦ rw b (acted-Erased m (m.asleep - 1) m.notified t e)
  ]

  pub move-Erased :
      (m : Monitor P) (t : Thread Pc) (x : Act Event)
      → Erased m t (move base waits resumes signal m t x)
  unfolding move
  move-Erased m t notifies = inl (object-deliver t.owes m, refl)
  move-Erased m t (acts noticed e) = elim (Bool-cases (is_silent t.owes)) [
    | inl free ↦ elim (Bool-cases (waits t.pc)) [
      | inl asleep ↦ elim (Bool-cases (resumes noticed t.pc e)) [
        | inl fits ↦ rw (free, asleep, fits) (resumed-Erased noticed m t e)
        | inr other ↦ rw (free, asleep, other) (inl (refl, refl))
      ]
      | inr awake ↦ rw (free, awake) (acted-Erased m m.asleep m.notified t e)
    ]
    | inr busy ↦ rw busy (inl (refl, refl))
  ]

  get_elem?-pcs :
      (ts : List (Thread Pc)) (i : ℕ) {t : Thread Pc}
      → get_elem? ts i ≡ some t
      → get_elem? (pcs ts) i ≡ some t.pc
  get_elem?-pcs [] i at = ground arith
  get_elem?-pcs (u ∷ us) zero {t} at = ap (λ v. some v.pc) (some-injective u t at)
  get_elem?-pcs (u ∷ us) (suc i) {t} at = get_elem?-pcs us i {t = t} at

  pcs-set : (ts : List (Thread Pc)) (i : ℕ) (t : Thread Pc) → pcs (set ts i t) ≡ set (pcs ts) i t.pc
  pcs-set [] i t = refl
  pcs-set (u ∷ us) zero t = refl
  pcs-set (u ∷ us) (suc i) t = ap (◌∷◌ u.pc) (pcs-set us i t)

  set-same :
      (xs : List Pc) (i : ℕ) {x : Pc} (y : Pc) → get_elem? xs i ≡ some x → y ≡ x → set xs i y ≡ xs
  set-same [] i y at same = refl
  set-same (z ∷ zs) zero {x} y at same = ap (λ v. v ∷ zs) (same ∙ sym (some-injective z x at))
  set-same (z ∷ zs) (suc i) {x} y at same = ap (◌∷◌ z) (set-same zs i {x = x} y at same)

  abbrev Goes : System P Pc → System P Pc → Type 0
  Goes s t = (ys : List (ℕ × Event)) × (run base s ys ≡ t)

  abbrev joined : P → List Pc → System P Pc
  joined p xs = record { shared = p; threads = xs }

  same_system : (p q : P) (xs ys : List Pc) → p ≡ q → xs ≡ ys → joined p xs ≡ joined q ys
  same_system p q xs ys e f = rw (e, f) refl

  step_at :
      (s : System P Pc) (i : ℕ) (e : Event) {pc : Pc}
      → get_elem? s.threads i ≡ some pc
      → step base s (i, e) ≡ moved base s i (base s.shared pc e)
  unfolding step
  step_at s i e at = rw (at, step) refl

  step-erase :
      (s : System (Monitor P) (Thread Pc)) (i : ℕ) (x : Act Event)
      → Goes (erase s) (erase (step (move base waits resumes signal) s (i, x)))
  unfolding run
  step-erase s i x =
      step_cases (move base waits resumes signal) (λ t. Goes (erase s) (erase t)) s i x ([], refl)
        λ t at.
          let u = (move base waits resumes signal s.shared t x).1 in
          let here = get_elem?-pcs s.threads i {t = t} at in
          elim (move-Erased s.shared t x) [
            | inl (same, stays) ↦ (
              [],
              same_system _ _ _ _ (sym same) (
                  sym (
                    pcs-set s.threads i u ∙ set-same (pcs s.threads) i {x = t.pc} u.pc here stays)),
            )
            | inr (e, object, pc) ↦ (
              (i, e) ∷ [],
              step_at (erase s) i e {pc = t.pc} here
                  ∙ same_system _ _ _ _ (sym object)
                      (ap (set (pcs s.threads) i) (sym pc) ∙ sym (pcs-set s.threads i u)),
            )
          ]

  -- Every run of the threads with the monitor is a run of the system without it: the same object
  -- and the same program points, behind a schedule of the moves that were made.
  pub run-erase :
      (s : System (Monitor P) (Thread Pc)) (xs : List (ℕ × Act Event))
      → (ys : List (ℕ × Event)) × (run base (erase s) ys
          ≡ erase (run (move base waits resumes signal) s xs))
  unfolding run
  run-erase s [] = ([], refl)
  run-erase s ((i, x) ∷ xs) =
      let (ys, first) = step-erase s i x in
      let (zs, rest) = run-erase (step (move base waits resumes signal) s (i, x)) xs in
      (ys ++ zs, run-append base (erase s) ys zs ∙ ap (λ t. run base t zs) first ∙ rest)
