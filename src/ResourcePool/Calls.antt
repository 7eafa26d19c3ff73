-- ===== src/ResourcePool/Calls.antt =====
-- What a call may return, during the life of the pool and after its shutdown.
use cpp_grpc_db.Prelude.{
  ℕ, ◌<◌, ◌≤◌, true, false, List, [], ◌∷◌, some, get_elem?, ◌≡◌, arith, All, All-replicate,
  size_mod,
}
use cpp_grpc_db.Callbacks.{accepts, rejects, made}
use cpp_grpc_db.Interleaving.{System, step, run, run-All, run_thread}
use cpp_grpc_db.ResourcePool.{
  Pool, Mode, blocking, timed, trying, Outcome, null_ptr, throws, is_shutting_down, Pc, away, ended,
  entering, waiting, validating, discarded, rolling_back, holding, shutdown, Event, calls, locks,
  validates, makes, shuts_down, move,
}
use cpp_grpc_db.ResourcePool.Ledger.{start, after}

-- How a call of each kind may end with no resource.
abbrev pub MayEnd : Mode → Outcome → Type 0
MayEnd blocking null_ptr = ⊥
MayEnd trying (throws is_shutting_down) = ⊥
MayEnd m o = Unit

-- And `try_acquire` does not wait.
abbrev pub EndsWell : Pc → Type 0
EndsWell (ended m o) = MayEnd m o
EndsWell (rolling_back m e) = MayEnd m (throws e)
EndsWell (waiting trying) = ⊥
EndsWell pc = Unit

move-EndsWell : (p : Pool) (pc : Pc) (e : Event) → EndsWell pc → EndsWell (move p pc e).1
unfolding move
move-EndsWell p away (calls m) h = tt
move-EndsWell p (entering blocking) locks h = ground arith
move-EndsWell p (entering timed) locks h = ground arith
move-EndsWell p (entering trying) locks h = ground arith
move-EndsWell p (waiting blocking) e h = ground arith
move-EndsWell p (waiting timed) e h = ground arith
move-EndsWell p (waiting trying) e h = absurd h
move-EndsWell p (discarded blocking) locks h = ground arith
move-EndsWell p (discarded timed) locks h = ground arith
move-EndsWell p (discarded trying) locks h = ground arith
move-EndsWell p (validating blocking r) (validates v) h = ground arith
move-EndsWell p (validating timed r) (validates v) h = ground arith
move-EndsWell p (validating trying r) (validates v) h = ground arith
move-EndsWell p _ _ h = ground arith

-- `acquire()` never returns a null pointer, and `try_acquire()` never reports a shutdown by an
-- exception, in any schedule. `try_acquire()` does not wait.
pub run-EndsWell :
    (p : Pool) (threads : ℕ) (xs : List (ℕ × Event)) → All EndsWell (after p threads xs).threads
run-EndsWell p threads xs =
    run-All move EndsWell move-EndsWell (start p threads) xs
      (All-replicate EndsWell threads away tt)

-- A thread that owns no resource, and is not making one.
abbrev pub IsOutside : Pc → Type 0
IsOutside away = Unit
IsOutside (ended m o) = Unit
IsOutside (entering m) = Unit
IsOutside (waiting m) = Unit
IsOutside pc = ⊥

abbrev Refused : Pool → Pc → Type 0
Refused p pc = (p.shutting_down ≡ true) × IsOutside pc

move_own : (p : Pool) (pc : Pc) (e : Event) → Refused p pc → Refused (move p pc e).0 (move p pc e).1
unfolding move shutdown
move_own p away (calls m) h = ground arith
move_own p (entering blocking) locks h = ground arith
move_own p (entering timed) locks h = ground arith
move_own p (entering trying) locks h = ground arith
move_own p _ _ h = ground arith

move-shutting_down :
    (p : Pool) (pc : Pc) (e : Event) → p.shutting_down ≡ true → (move p pc e).0.shutting_down ≡ true
unfolding move shutdown
move-shutting_down p away (calls m) h = ground arith
move-shutting_down p (entering blocking) locks h = ground arith
move-shutting_down p (entering timed) locks h = ground arith
move-shutting_down p (entering trying) locks h = ground arith
move-shutting_down p (discarded blocking) locks h = ground arith
move-shutting_down p (discarded timed) locks h = ground arith
move-shutting_down p (discarded trying) locks h = ground arith
move-shutting_down p _ _ h = ground arith

-- After the shutdown a thread that calls, or waits, or is about to lock gets no resource, however
-- often it calls again and whatever the other threads do.
pub run-IsOutside :
    (s : System Pool Pc) (xs : List (ℕ × Event)) (i : ℕ) (pc : Pc)
    → s.shared.shutting_down ≡ true
    → get_elem? s.threads i ≡ some pc
    → IsOutside pc
    → (q : Pc) × (get_elem? (run move s xs).threads i ≡ some q) × IsOutside q
run-IsOutside s xs i pc down at out =
    let (q, f, h) =
      run_thread move Refused i move_own (λ p pc other e h. (move-shutting_down p other e h.0, h.1))
        s xs pc at (down, out) in
    (q, f, h.1)

-- A call that is between the discard of an invalid resource and its next lock when another thread
-- shuts the pool down makes a new resource all the same, and returns it.
pub lends_after_shutdown :
    (p : Pool) (m : Mode) (r : ℕ)
    → p.shutting_down ≡ false
    → p.total ≤ p.max_size
    → 0 < p.total
    → p.max_size < size_mod
    → p.has_validator ≡ true
    → p.idle ≡ []
    → (stale : ℕ)
    → let s =
        run move
          (record { shared = p; threads = validating m stale ∷ away ∷ [] })
          ((0, validates rejects)
            ∷ (1, shuts_down)
            ∷ (0, locks)
            ∷ (0, makes (made r))
            ∷ (0, validates accepts)
            ∷ []) in
      (s.shared.shutting_down ≡ true) × (s.threads ≡ holding r ∷ away ∷ [])
unfolding run step move shutdown
lends_after_shutdown p m r open_yet le pos small v e stale = ground arith
