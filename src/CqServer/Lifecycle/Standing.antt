-- ===== src/CqServer/Lifecycle/Standing.antt =====
-- src/complex_async_server_single_cq.cpp: what holds of the threads of the process in every schedule.
use cpp_grpc_db.Prelude.{
  false, ℕ, zero, suc, List, [], ◌∷◌, Option, none, some, get_elem?, ◌≡◌, refl, sym, subst, arith,
  Bool-cases, inl, inr,
}
use cpp_grpc_db.CallData.{Library, World, Outcome, returned, threw, dangling}
use cpp_grpc_db.Interleaving.{System, step, run}
use cpp_grpc_db.CqServer.{Completion, empty_world, spawn_handlers}
use cpp_grpc_db.CqServer
use cpp_grpc_db.CqServer.Effects.{handle_rpc-Effect}
use cpp_grpc_db.CqServer.Safety.{Good, IsSafe, Effect-IsSafe, spawn_handlers-Good}
use cpp_grpc_db.CqServer.Lifecycle.{
  Process, Pc, awaiting, stopping, closing, joining, stopped, adding, starting, spawning, polling,
  proceeding, ended, crashed, outside, Event, steps, completes, poll, taken_by, proceeded, move,
}

abbrev pub Mains : Pc → Type 0
Mains awaiting = Unit
Mains stopping = Unit
Mains closing = Unit
Mains joining = Unit
Mains stopped = Unit
Mains pc = ⊥

-- What the server's thread makes of the world.
abbrev pub Fine : Pc → World → Type 0
Fine adding w = w ≡ empty_world
Fine starting w = w ≡ empty_world
Fine spawning w = w ≡ empty_world
Fine polling w = Good w
Fine (proceeding c) w = Good w
Fine ended w = Good w
Fine crashed w = Good w
Fine pc w = ⊥

-- An exception on the server's thread, and nothing else, has ended the process.
abbrev pub Alive : Pc → Process → Type 0
Alive crashed p = Unit
Alive pc p = p.aborted ≡ false

abbrev pub three : Process → Pc → Pc → System Process Pc
three p a b = record { shared = p; threads = a ∷ b ∷ outside ∷ [] }

module _ (lib : Library) where
  main-Mains :
      (p : Process) (a : Pc) (e : Event)
      → Mains a
      → Mains (move lib p a e).1 × ((move lib p a e).0.world ≡ p.world)
  unfolding move
  main-Mains p _ _ h = ground arith

  outside-world :
      (p : Process) (e : Event)
      → ((move lib p outside e).0.world ≡ p.world) × ((move lib p outside e).1 ≡ outside)
  unfolding move
  outside-world p e = ground arith

  proceeded-Fine :
      (p : Process) (c : Completion) (o : Outcome)
      → Good p.world
      → IsSafe lib o
      → Fine (proceeded p c o).1 (proceeded p c o).0.world
  proceeded-Fine p c (returned w) good safe = safe
  proceeded-Fine p c threw good safe = good
  proceeded-Fine p c dangling good safe = good

  poll-Fine :
      (p : Process) (tags : List ℕ) → Good p.world → Fine (poll p tags).1 (poll p tags).0.world
  poll-Fine p [] good = elim (Bool-cases p.queue_shut) [
    | inl shut ↦ rw shut good
    | inr up ↦ rw up good
  ]
  poll-Fine p (tag ∷ tags) good = good

  taken_by-Fine : (o : Option ℕ) (c : Completion) (w : World) → Good w → Fine (taken_by o c) w
  taken_by-Fine none c w good = good
  taken_by-Fine (some tag) c w good = good

  server-Fine :
      (p : Process) (b : Pc) (e : Event)
      → Fine b p.world
      → Fine (move lib p b e).1 (move lib p b e).0.world
  unfolding move
  server-Fine p (proceeding c) steps good =
      proceeded-Fine p c (CqServer.handle_rpc lib p.world c) good
        (Effect-IsSafe lib p.world c good (handle_rpc-Effect lib p.world c good.sound good.owned))
  server-Fine p spawning steps fresh =
      subst (λ w. Good (spawn_handlers w)) (sym fresh) spawn_handlers-Good
  server-Fine p polling steps good = poll-Fine p p.world.pending good
  server-Fine p polling (completes c) good =
      taken_by-Fine (get_elem? p.world.pending c.place) c p.world good
  server-Fine p _ _ fine = ground arith

  main-Alive :
      (p : Process) (a b : Pc) (e : Event) → Mains a → Alive b p → Alive b (move lib p a e).0
  unfolding move
  main-Alive p _ _ e h alive = ground arith

  outside-Alive : (p : Process) (b : Pc) (e : Event) → Alive b p → Alive b (move lib p outside e).0
  unfolding move
  outside-Alive p _ e alive = ground arith

  proceeded-Alive :
      (p : Process) (c : Completion) (o : Outcome)
      → p.aborted ≡ false
      → Alive (proceeded p c o).1 (proceeded p c o).0
  proceeded-Alive p c (returned w) alive = alive
  proceeded-Alive p c threw alive = tt
  proceeded-Alive p c dangling alive = tt

  server-Alive :
      (p : Process) (b : Pc) (e : Event)
      → Fine b p.world
      → Alive b p
      → Alive (move lib p b e).1 (move lib p b e).0
  unfolding move
  server-Alive p (proceeding c) steps good alive =
      proceeded-Alive p c (CqServer.handle_rpc lib p.world c) alive
  server-Alive p _ _ fine alive = ground arith

  -- In every schedule the threads are these three.
  pub record Sound (p : Process) (a b : Pc) : Type 0 where
    pub mains : Mains a
    pub fine : Fine b p.world
    pub alive : Alive b p

  pub main-Sound :
      (p : Process) (a b : Pc) (e : Event)
      → Sound p a b
      → Sound (move lib p a e).0 (move lib p a e).1 b
  main-Sound p a b e h =
      let (mains, same) = main-Mains p a e h.mains in
      record {
        mains = mains;
        fine = subst (Fine b) (sym same) h.fine;
        alive = main-Alive p a b e h.mains h.alive;
      }

  pub server-Sound :
      (p : Process) (a b : Pc) (e : Event)
      → Sound p a b
      → Sound (move lib p b e).0 a (move lib p b e).1
  server-Sound p a b e h = record {
    mains = h.mains;
    fine = server-Fine p b e h.fine;
    alive = server-Alive p b e h.fine h.alive;
  }

  pub outside-Sound :
      (p : Process) (a b : Pc) (e : Event)
      → Sound p a b
      → Sound (move lib p outside e).0 a b × ((move lib p outside e).1 ≡ outside)
  outside-Sound p a b e h =
      let (same, still) = outside-world p e in
      (
        record {
          mains = h.mains;
          fine = subst (Fine b) (sym same) h.fine;
          alive = outside-Alive p b e h.alive;
        },
        still,
      )

  abbrev pub Stands : System Process Pc → Type 0
  Stands s = (p : Process) × (a : Pc) × (b : Pc) × (s ≡ three p a b) × Sound p a b

  pub run-Stands :
      (p : Process) (a b : Pc) (xs : List (ℕ × Event))
      → Sound p a b
      → Stands (run (move lib) (three p a b) xs)
  unfolding run step
  run-Stands p a b [] h = (p, a, b, refl, h)
  run-Stands p a b ((zero, e) ∷ xs) h =
      run-Stands (move lib p a e).0 (move lib p a e).1 b xs (main-Sound p a b e h)
  run-Stands p a b ((suc zero, e) ∷ xs) h =
      run-Stands (move lib p b e).0 a (move lib p b e).1 xs (server-Sound p a b e h)
  run-Stands p a b ((suc (suc zero), e) ∷ xs) h =
      let (sound, still) = outside-Sound p a b e h in
      subst
        (λ c. Stands (
          run (move lib) (record { shared = (move lib p outside e).0; threads = a ∷ b ∷ c ∷ [] })
            xs))
        (sym still) (run-Stands (move lib p outside e).0 a b xs sound)
  run-Stands p a b ((suc (suc (suc i)), e) ∷ xs) h = run-Stands p a b xs h
