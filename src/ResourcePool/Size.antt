-- ===== src/ResourcePool/Size.antt =====
-- `max_size_` is set once.
use cpp_grpc_db.Prelude.{ℕ, List, ◌≡◌, refl, ◌∙◌, arith}
use cpp_grpc_db.Callbacks.{threw, null, made}
use cpp_grpc_db.Interleaving.{System, run, run_inv, step_cases}
use cpp_grpc_db.ResourcePool.{
  Pool, blocking, timed, trying, Pc, entering, creating, locks, makes, shutdown, Event, move,
}

pub move-max_size : (p : Pool) (pc : Pc) (e : Event) → (move p pc e).0.max_size ≡ p.max_size
unfolding move shutdown
move-max_size p (entering blocking) locks = ground arith
move-max_size p (entering timed) locks = ground arith
move-max_size p (entering trying) locks = ground arith
move-max_size p (creating m) (makes threw) = ground arith
move-max_size p (creating m) (makes null) = ground arith
move-max_size p (creating m) (makes (made x)) = ground arith
move-max_size p _ _ = ground arith

pub run-max_size :
    (s : System Pool Pc) (xs : List (ℕ × Event))
    → (run move s xs).shared.max_size ≡ s.shared.max_size
run-max_size s xs =
    run_inv move (λ t. t.shared.max_size ≡ s.shared.max_size)
      (λ t (i, e) h.
        step_cases move (λ u. u.shared.max_size ≡ s.shared.max_size) t i e h
          (λ pc at. move-max_size t.shared pc e ∙ h))
      s xs refl
