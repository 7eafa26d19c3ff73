-- ===== src/CqServer/Lifecycle/Early.antt =====
-- src/complex_async_server_single_cq.cpp: a signal that comes before `Run` has made its queue.
use cpp_grpc_db.Prelude.{
  ℕ, zero, suc, false, List, [], ◌∷◌, ◌++◌, some, get_elem?, ◌≡◌, refl, sym, subst, arith,
}
use cpp_grpc_db.CallData.{Library}
use cpp_grpc_db.Interleaving.{System, step, run}
use cpp_grpc_db.CqServer.Lifecycle.{
  Process, Pc, joining, adding, starting, spawning, polling, proceeding, crashed, outside, Event,
  steps, signals, move, main_program,
}

-- A program point of the server's thread, before `Run` returns.
abbrev Serves : Pc → Type 0
Serves adding = Unit
Serves starting = Unit
Serves spawning = Unit
Serves polling = Unit
Serves (proceeding c) = Unit
Serves crashed = Unit
Serves pc = ⊥

record Stuck (p : Process) (b : Pc) : Type 0 where
  open_queue : p.queue_shut ≡ false
  goes_on : p.server_ended ≡ false
  serves : Serves b

-- A signal, and the main thread up to its `join`.
abbrev pub early : List (ℕ × Event)
early = (2, signals) ∷ (0, steps) ∷ (0, steps) ∷ (0, steps) ∷ []

-- `main` has not come out of `join`, the queue is open, and `Run` has not returned.
pub record Hangs (s : System Process Pc) : Type 0 where
  pub main_joins : get_elem? s.threads 0 ≡ some joining
  pub open_queue : s.shared.queue_shut ≡ false
  pub runs : s.shared.server_ended ≡ false

module _ (lib : Library) where
  server-Stuck :
      (p : Process) (b : Pc) (e : Event) → Stuck p b → Stuck (move lib p b e).0 (move lib p b e).1
  unfolding move
  server-Stuck p _ _ h = ground arith

  abbrev three : Process → Pc → System Process Pc
  three p b = record { shared = p; threads = joining ∷ b ∷ outside ∷ [] }

  main_stays :
      (p : Process) (e : Event) → p.server_ended ≡ false → move lib p joining e ≡ (p, joining)
  unfolding move
  main_stays p e on = ground arith

  outside-Stuck : (p : Process) (b : Pc) (e : Event) → Stuck p b → Stuck (move lib p outside e).0 b
  unfolding move
  outside-Stuck p b e h = ground arith

  outside_stays : (p : Process) (e : Event) → (move lib p outside e).1 ≡ outside
  unfolding move
  outside_stays p e = ground arith

  joining-Hangs :
      (p : Process) (b : Pc) (ys : List (ℕ × Event))
      → Stuck p b
      → Hangs (run (move lib) (three p b) ys)
  unfolding run step
  joining-Hangs p b [] h = record { main_joins = refl; open_queue = h.open_queue; runs = h.goes_on }
  joining-Hangs p b ((zero, e) ∷ ys) h =
      subst
        (λ z. Hangs (run (move lib) (record { shared = z.0; threads = z.1 ∷ b ∷ outside ∷ [] }) ys))
        (sym (main_stays p e h.goes_on)) (joining-Hangs p b ys h)
  joining-Hangs p b ((suc zero, e) ∷ ys) h =
      joining-Hangs (move lib p b e).0 (move lib p b e).1 ys (server-Stuck p b e h)
  joining-Hangs p b ((suc (suc zero), e) ∷ ys) h =
      let q = (move lib p outside e).0 in
      subst (λ c. Hangs (run (move lib) (record { shared = q; threads = joining ∷ b ∷ c ∷ [] }) ys))
        (sym (outside_stays p e)) (joining-Hangs q b ys (outside-Stuck p b e h))
  joining-Hangs p b ((suc (suc (suc i)), e) ∷ ys) h = joining-Hangs p b ys h

  -- `Shutdown` skips what `Run` has not made yet. If a signal is handled before `Run` has added the
  -- queue, then, whatever happens afterwards, further signals included, the queue is not shut down,
  -- `Run` does not return, and the main thread does not come out of `join`.
  pub early_signal-Hangs : (ys : List (ℕ × Event)) → Hangs (main_program lib (early ++ ys))
  unfolding run step move
  early_signal-Hangs ys =
      joining-Hangs _ adding ys (record { open_queue = refl; goes_on = refl; serves = tt })
