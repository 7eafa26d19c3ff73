-- ===== src/WorkerPool/Refusal.antt =====
-- The tasks that are accepted once the flag is set.
use cpp_grpc_db.Prelude.{
  ℕ, ◌+◌, length, length-append, Bool, false, Option-cases, inl, inr, ◌≤◌, ◌<◌, true, List, [], ◌∷◌,
  some, get_elem?, ◌≡◌, refl, arith, total, le-total,
}
use cpp_grpc_db.Interleaving.{
  System, run, Keeps, step, Follows, Follows-Ledger, run-Balanced_following,
}
use cpp_grpc_db.WorkerPool.{
  Options, Pool, try_posting, posting, submitting, Pc, away, entering, waiting_space, closing,
  joining, stopped, carrying, Event, calls, locks, passes, wakes, acquires, move, start,
}
use cpp_grpc_db.WorkerPool.Limits.{after}
use cpp_grpc_db.WorkerPool.Fifo.{accepted, seen_step, history}
use cpp_grpc_db.WorkerPool.Shutdown.{total_start}

abbrev held : Bool → ℕ
held true = 1
held false = 0

move_refuses :
    (pc : Pc) (e : Event) (p : Pool)
    → p.is_stopping ≡ true
    → ((move p pc e).0.is_stopping ≡ true)
      × (length (accepted pc (move p pc e).1) + held (move p pc e).0.late ≤ held p.late)
unfolding move
move_refuses away (calls k t) p h = ground arith
move_refuses (entering try_posting t) locks p h = ground arith
move_refuses (entering posting t) locks p h = ground arith
move_refuses (entering submitting t) locks p h = ground arith
move_refuses (entering try_posting t) passes p h = ground arith
move_refuses (entering posting t) passes p h = ground arith
move_refuses (entering submitting t) passes p h = ground arith
move_refuses (waiting_space k t) wakes p h = ground arith
move_refuses (waiting_space k t) passes p h = ground arith
move_refuses (carrying t) acquires p h = ground arith
move_refuses _ _ p h = ground arith

pub step_refuses :
    (s : System Pool Pc) (i : ℕ) (e : Event)
    → s.shared.is_stopping ≡ true
    → ((step move s (i, e)).shared.is_stopping ≡ true)
      × (length (seen_step accepted s i e) + held (step move s (i, e)).shared.late
          ≤ held s.shared.late)
unfolding step seen_step
step_refuses s i e h = elim (Option-cases (get_elem? s.threads i)) [
  | inl missing ↦ rw (missing, seen_step, step) (h, omega arith)
  | inr (pc, at) ↦ rw (at, seen_step, step) (move_refuses pc e s.shared h)
]

refuses_from :
    (s : System Pool Pc) (xs : List (ℕ × Event))
    → s.shared.is_stopping ≡ true
    → ((run move s xs).shared.is_stopping ≡ true)
      × (length (history accepted s xs) ≤ held s.shared.late)
unfolding run
refuses_from s [] h = (h, omega arith)
refuses_from s ((i, e) ∷ xs) h =
    let t = step move s (i, e) in
    let (down, one) = step_refuses s i e h in
    let (still, later) = refuses_from t xs down in
    let both = length-append (seen_step accepted s i e) (history accepted t xs) in
    (still, omega (arith, one, later, both))

-- A thread that has set the flag.
abbrev pub asks : Pc → ℕ
asks (closing drain) = 1
asks joining = 1
asks stopped = 1
asks pc = 0

abbrev pub Asked : Pool → ℕ → Type 0
Asked p n = 0 < n → p.is_stopping ≡ true

pub move-Asked : (pc : Pc) (e : Event) → Keeps move asks Asked pc e
unfolding move
move-Asked away (calls k t) p n b = ground arith
move-Asked (entering try_posting t) locks p n b = ground arith
move-Asked (entering posting t) locks p n b = ground arith
move-Asked (entering submitting t) locks p n b = ground arith
move-Asked (carrying t) acquires p n b = ground arith
move-Asked _ _ p n b = ground arith

-- A thread whose call of `shutdown` has had the mutex.
abbrev has_closed : Pc → ℕ
has_closed joining = 1
has_closed stopped = 1
has_closed pc = 0

abbrev Closed : Pool → ℕ → Type 0
Closed p n = 0 < n → (p.is_stopping ≡ true) × (p.late ≡ false)

abbrev Knows : Pool → Pc → Event → Type 0
Knows p pc e = Unit {0} × ((n : ℕ) × Asked p (n + asks pc))

move-Closed :
    (pc : Pc) (e : Event) (p : Pool) (n : ℕ)
    → Knows p pc e
    → Closed p (n + has_closed pc)
    → Closed (move p pc e).0 (n + has_closed (move p pc e).1)
unfolding move
move-Closed away (calls k t) p n (u, (m, asked)) b = ground arith
move-Closed (entering try_posting t) locks p n (u, (m, asked)) b = ground arith
move-Closed (entering posting t) locks p n (u, (m, asked)) b = ground arith
move-Closed (entering submitting t) locks p n (u, (m, asked)) b = ground arith
move-Closed (carrying t) acquires p n (u, (m, asked)) b = ground arith
move-Closed (closing drain) locks p n (u, (m, asked)) b =
    let stops = asked (omega arith) in ground arith
move-Closed _ _ p n (u, (m, asked)) b = ground arith

Follows-any : (s : System Pool Pc) (xs : List (ℕ × Event)) → Follows move (λ p pc e. Unit) s xs
Follows-any s [] = tt
Follows-any s ((i, e) ∷ xs) = (λ pc at. tt, Follows-any (step move s (i, e)) xs)

after-Closed :
    (opts : Options) (clients : ℕ) (xs : List (ℕ × Event))
    → let s = after opts clients xs in Closed s.shared (total has_closed s.threads)
after-Closed opts clients xs =
    let s0 = start opts clients in
    let none_ask = total_start asks opts clients 0 refl refl in
    let none_closed = total_start has_closed opts clients 0 refl refl in
    run-Balanced_following move has_closed Closed Knows move-Closed s0 xs
      (Follows-Ledger move asks Asked (λ p pc e. Unit) move-Asked s0 xs (λ h. absurd (omega arith))
        (Follows-any s0 xs))
      (λ h. absurd (omega arith))

held_le : (b : Bool) → held b ≤ 1
held_le true = omega arith
held_le false = omega arith

held-false : (b : Bool) → b ≡ false → held b ≡ 0
held-false b none_late = ground arith

no_length : (xs : List ℕ) → length xs ≡ 0 → xs ≡ []
no_length [] h = refl
no_length (x ∷ xs) h = ground arith

-- In every schedule of a new pool: once the flag is set it stays set, and at most one more task gets
-- into the queue. Once the call of `shutdown` that set the flag has come to joining the workers, no
-- call puts a task into the queue any more.
pub run_refuses :
    (opts : Options) (clients : ℕ) (xs ys : List (ℕ × Event))
    → let s = after opts clients xs in
      s.shared.is_stopping ≡ true
      → ((run move s ys).shared.is_stopping ≡ true)
        × (length (history accepted s ys) ≤ 1)
        × ((i : ℕ) → get_elem? s.threads i ≡ some joining → history accepted s ys ≡ [])
run_refuses opts clients xs ys h =
    let s = after opts clients xs in
    let (still, few) = refuses_from s ys h in
    (
      still,
      omega (arith, few, held_le s.shared.late),
      λ i at.
          let closed =
            after-Closed opts clients xs
              (omega (arith, le-total has_closed s.threads i {x = joining} at)) in
          no_length (history accepted s ys) (omega (arith, few, held-false s.shared.late closed.1)),
    )
