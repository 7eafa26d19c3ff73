-- ===== src/Interleaving.antt =====
-- Threads that share one object. A thread is at a program point, an event moves one thread, and
-- what happens under a mutex is one event; a schedule is a list of events, each with its thread.
-- The laws reduce a claim about every schedule to a claim about one move of one thread.
pub mod Ownership
pub mod Waits
use mathlib.Core.Option.{some-injective}
use cpp_grpc_db.Prelude.{
  subst, ◌∙◌, ◌⊎◌, ℕ, zero, suc, ◌+◌, ◌-◌, List, [], ◌∷◌, ◌++◌, none, some, get_elem?, set, total,
  total-set, le-total, ◌≡◌, refl, sym, arith, Option-cases, inl, inr, All, All-set, All-get,
}

pub record System (P Pc : Type 0) : Type 0 where
  pub shared : P
  pub threads : List Pc

module _ {P Pc Event : Type 0} (move : P → Pc → Event → P × Pc) where
  abbrev pub moved : System P Pc → ℕ → P × Pc → System P Pc
  moved s i (p, pc) = record { shared = p; threads = set s.threads i pc }

  -- An event of a thread that does not exist changes nothing.
  unfoldable pub step : System P Pc → ℕ × Event → System P Pc
  step s (i, e) = elim (get_elem? s.threads i) [
    | none ↦ s
    | some pc ↦ moved s i (move s.shared pc e)
  ]

  unfoldable pub run : System P Pc → List (ℕ × Event) → System P Pc
  run s [] = s
  run s (x ∷ xs) = run (step s x) xs

  pub run-append :
      (s : System P Pc) (xs ys : List (ℕ × Event)) → run s (xs ++ ys) ≡ run (run s xs) ys
  unfolding run
  run-append s [] ys = refl
  run-append s (x ∷ xs) ys = run-append (step s x) xs ys

  -- A claim about a system that each step keeps holds after every schedule.
  pub run_inv :
      (Inv : System P Pc → Type 0)
      → ((s : System P Pc) (x : ℕ × Event) → Inv s → Inv (step s x))
      → (s : System P Pc) (xs : List (ℕ × Event)) → Inv s
      → Inv (run s xs)
  unfolding run
  run_inv Inv keep s [] h = h
  run_inv Inv keep s (x ∷ xs) h = run_inv Inv keep (step s x) xs (keep s x h)

  pub step_cases :
      (Q : System P Pc → Type 0) (s : System P Pc) (i : ℕ) (e : Event)
      → Q s
      → ((pc : Pc) → get_elem? s.threads i ≡ some pc → Q (moved s i (move s.shared pc e)))
      → Q (step s (i, e))
  unfolding step
  step_cases Q s i e same go = elim (Option-cases (get_elem? s.threads i)) [
    | inl gone ↦ rw (gone, step) same
    | inr (pc, at) ↦ rw (at, step) (go pc at)
  ]

  -- A step seen through the sum of a weight: `n` is what the other threads weigh together.
  pub step-total_at :
      (w : Pc → ℕ) (Q : P → ℕ → Type 0) (s : System P Pc) (i : ℕ) (e : Event)
      → Q s.shared (total w s.threads)
      → ((pc : Pc) (n : ℕ)
          → get_elem? s.threads i ≡ some pc
          → total w s.threads ≡ n + w pc
          → Q (move s.shared pc e).0 (n + w (move s.shared pc e).1))
      → Q (step s (i, e)).shared (total w (step s (i, e)).threads)
  step-total_at w Q s i e same go =
      step_cases (λ t. Q t.shared (total w t.threads)) s i e same
        λ pc at.
          let n : ℕ = total w s.threads - w pc in
          let q = (move s.shared pc e).1 in
          let heavy = le-total w s.threads i {x = pc} at in
          let before : total w s.threads ≡ n + w pc = omega (arith, heavy) in
          let after : total w (set s.threads i q) ≡ n + w q =
            omega (arith, total-set w s.threads i q {x = pc} at, heavy) in
          rw after (go pc n at before)

  pub step-total :
      (w : Pc → ℕ) (Q : P → ℕ → Type 0) (s : System P Pc) (i : ℕ) (e : Event)
      → Q s.shared (total w s.threads)
      → ((pc : Pc) (n : ℕ)
          → total w s.threads ≡ n + w pc
          → Q (move s.shared pc e).0 (n + w (move s.shared pc e).1))
      → Q (step s (i, e)).shared (total w (step s (i, e)).threads)
  step-total w Q s i e same go = step-total_at w Q s i e same (λ pc n at before. go pc n before)

  -- A ledger: a claim about the shared object and the sum of a weight over the threads, which
  -- holds after a move of one thread whatever the others weigh together.
  module _ (w : Pc → ℕ) (Ledger : P → ℕ → Type 0) where
    abbrev pub Keeps : Pc → Event → Type 0
    Keeps pc e =
        (p : P) (n : ℕ) → Ledger p (n + w pc) → Ledger (move p pc e).0 (n + w (move p pc e).1)

    abbrev pub Balanced : System P Pc → Type 0
    Balanced s = Ledger s.shared (total w s.threads)

    pub step-Balanced :
        ((pc : Pc) (e : Event) → Keeps pc e)
        → (s : System P Pc) (x : ℕ × Event) → Balanced s
        → Balanced (step s x)
    step-Balanced keep s (i, e) h =
        step-total w Ledger s i e h (λ pc n before. keep pc e s.shared n (rw before at h))

    pub run-Balanced :
        ((pc : Pc) (e : Event) → Keeps pc e)
        → (s : System P Pc) (xs : List (ℕ × Event)) → Balanced s
        → Balanced (run s xs)
    run-Balanced keep = run_inv Balanced (step-Balanced keep)

  -- A schedule in which every move is allowed where it is made.
  abbrev pub Follows : (P → Pc → Event → Type 0) → System P Pc → List (ℕ × Event) → Type 0
  Follows Allowed s [] = Unit {0}
  Follows Allowed s ((i, e) ∷ xs) =
      ((pc : Pc) → get_elem? s.threads i ≡ some pc → Allowed s.shared pc e)
      × Follows Allowed (step s (i, e)) xs

  -- A ledger that the allowed moves keep holds after every schedule of such moves.
  pub run-Balanced_following :
      (w : Pc → ℕ) (Ledger : P → ℕ → Type 0) (Allowed : P → Pc → Event → Type 0)
      → ((pc : Pc) (e : Event) (p : P) (n : ℕ)
          → Allowed p pc e
          → Ledger p (n + w pc)
          → Ledger (move p pc e).0 (n + w (move p pc e).1))
      → (s : System P Pc) (xs : List (ℕ × Event)) → Follows Allowed s xs
      → Balanced w Ledger s
      → Balanced w Ledger (run s xs)
  unfolding run
  run-Balanced_following w Ledger Allowed keep s [] a h = h
  run-Balanced_following w Ledger Allowed keep s ((i, e) ∷ xs) a h =
      run-Balanced_following w Ledger Allowed keep (step s (i, e)) xs a.1 (
        step-total_at w Ledger s i e h
          (λ pc n at before. keep pc e s.shared n (a.0 pc at) (rw before at h)))

  -- A ledger that every move keeps may be used as a permission.
  pub Follows-Ledger :
      (w : Pc → ℕ) (Ledger : P → ℕ → Type 0) (Allowed : P → Pc → Event → Type 0)
      → ((pc : Pc) (e : Event) → Keeps w Ledger pc e)
      → (s : System P Pc) (xs : List (ℕ × Event)) → Balanced w Ledger s
      → Follows Allowed s xs
      → Follows (λ p pc e. Allowed p pc e × ((n : ℕ) × Ledger p (n + w pc))) s xs
  Follows-Ledger w Ledger Allowed keep s [] h a = tt
  Follows-Ledger w Ledger Allowed keep s ((i, e) ∷ xs) h a = (
    λ pc at.
        let heavy = le-total w s.threads i {x = pc} at in
        let before : total w s.threads ≡ total w s.threads - w pc + w pc = omega (arith, heavy) in
        (a.0 pc at, (total w s.threads - w pc, subst (Ledger s.shared) before h)),
    Follows-Ledger w Ledger Allowed keep (step s (i, e)) xs (step-Balanced w Ledger keep s (i, e) h)
        a.1,
  )

  -- What every move keeps of its thread holds of all threads after every schedule.
  pub run-All :
      (Holds : Pc → Type 0)
      → ((p : P) (pc : Pc) (e : Event) → Holds pc → Holds (move p pc e).1)
      → (s : System P Pc) (xs : List (ℕ × Event)) → All Holds s.threads
      → All Holds (run s xs).threads
  run-All Holds keep =
      run_inv (λ s. All Holds s.threads)
        λ s (i, e) h.
          step_cases (λ t. All Holds t.threads) s i e h
            λ pc at.
              All-set Holds s.threads i _ h (keep s.shared pc e (All-get Holds s.threads i h at))

  get_elem?-set :
      (xs : List Pc) (i j : ℕ) (v : Pc) {x y : Pc}
      → get_elem? xs i ≡ some x
      → get_elem? xs j ≡ some y
      → ((x ≡ y) × (get_elem? (set xs i v) j ≡ some v)) ⊎ (get_elem? (set xs i v) j ≡ some y)
  get_elem?-set [] i j v h k = cc
  get_elem?-set (x ∷ xs) zero zero v {x = a} {y = b} h k =
      inl (some-injective _ _ (sym h ∙ k), refl)
  get_elem?-set (x ∷ xs) zero (suc j) v h k = inr k
  get_elem?-set (x ∷ xs) (suc i) zero v h k = inr k
  get_elem?-set (x ∷ xs) (suc i) (suc j) v {x = a} {y = b} h k =
      elim (get_elem?-set xs i j v {x = a} {y = b} h k) [ inl (e, f) ↦ inl (e, f) | inr f ↦ inr f ]

  -- A claim about the shared object and one thread, which the moves of that thread keep and those
  -- of the others do not disturb.
  pub run_thread :
      (Q : P → Pc → Type 0) (j : ℕ)
      → ((p : P) (pc : Pc) (e : Event) → Q p pc → Q (move p pc e).0 (move p pc e).1)
      → ((p : P) (pc other : Pc) (e : Event) → Q p pc → Q (move p other e).0 pc)
      → (s : System P Pc) (xs : List (ℕ × Event)) (pc : Pc) → get_elem? s.threads j ≡ some pc
      → Q s.shared pc
      → (q : Pc) × (get_elem? (run s xs).threads j ≡ some q) × Q (run s xs).shared q
  run_thread Q j own others s xs pc at h = run_inv Here keep s xs (pc, at, h)
    where
      Here : System P Pc → Type 0
      Here t = (q : Pc) × (get_elem? t.threads j ≡ some q) × Q t.shared q

      keep : (t : System P Pc) (x : ℕ × Event) → Here t → Here (step t x)
      keep t (i, e) (q, at', h') =
          step_cases Here t i e (q, at', h')
            λ o found.
              elim (get_elem?-set t.threads i j (move t.shared o e).1 {x = o} {y = q} found at') [
                | inl (same, f) ↦
                    ((move t.shared o e).1, f, own t.shared o e (subst (Q t.shared) (sym same) h'))
                | inr f ↦ (q, f, others t.shared q o e h')
              ]
