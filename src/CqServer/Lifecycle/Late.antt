-- ===== src/CqServer/Lifecycle/Late.antt =====
-- src/complex_async_server_single_cq.cpp: operations that are started behind the queue's `Shutdown`,
-- which gRPC forbids.
use cpp_grpc_db.Prelude.{
  ℕ, zero, suc, true, false, List, [], ◌∷◌, none, some, get_elem?, remove_at, length, ◌≡◌, refl,
  sym, ap, subst, ◌∙◌, arith, Bool-cases, inl, inr,
}
use cpp_grpc_db.CallData.{Library, World, Outcome, returned, threw, dangling, Service}
use cpp_grpc_db.Interleaving.{step, run, Follows}
use cpp_grpc_db.CqServer.{Completion, empty_world, spawn_handlers}
use cpp_grpc_db.CqServer
use cpp_grpc_db.CqServer.Objects.{accepting}
use cpp_grpc_db.CqServer.Effects.{
  Effect, idle, received, crashed, sent, refused, cancelled, handle_rpc-Effect,
}
use cpp_grpc_db.CqServer.Lifecycle.{
  Process, Pc, awaiting, adding, polling, proceeding, outside, Event, steps, poll, started,
  proceeded, move, launched, main_program,
}
use cpp_grpc_db.CqServer.Lifecycle.Standing.{
  Mains, Fine, three, Sound, main-Sound, server-Sound, outside-Sound,
}

-- The completion brings no new request: a handler that waits for one gets `ok` false.
abbrev pub BringsNothing : World → Completion → Type 0
BringsNothing w c =
    (k : ℕ) (s : Service)
    → get_elem? w.pending c.place ≡ some k
    → get_elem? w.heap k ≡ some (some (accepting s))
    → c.ok ≡ false

-- What gRPC says of a server that was shut down: behind that of its queue no request arrives.
abbrev pub NoRequest : Process → Pc → Event → Type 0
NoRequest p (proceeding c) steps = p.queue_shut ≡ true → BringsNothing p.world c
NoRequest p pc e = Unit

length-remove_none :
    (tags : List ℕ) (i : ℕ) → get_elem? tags i ≡ none → length (remove_at tags i) ≡ length tags
length-remove_none [] i gone = refl
length-remove_none (tag ∷ tags) zero gone = cc
length-remove_none (tag ∷ tags) (suc i) gone = ap suc (length-remove_none tags i gone)

module _ (lib : Library) where
  abbrev StartsNone : World → Completion → Outcome → Type 0
  StartsNone w c (returned v) = started w c v ≡ 0
  StartsNone w c o = Unit

  Effect-StartsNone :
      (w : World) (c : Completion) {o : Outcome}
      → BringsNothing w c
      → Effect lib w c o
      → StartsNone w c o
  Effect-StartsNone w c quiet (idle gone) = omega (arith, length-remove_none w.pending c.place gone)
  Effect-StartsNone w c quiet (received k s reply at there good e) =
      let bad = quiet k s at there in cc
  Effect-StartsNone w c quiet (crashed k s at there good e) = tt
  Effect-StartsNone w c quiet (sent k s at there good) = omega arith
  Effect-StartsNone w c quiet (refused k s at there bad) = omega arith
  Effect-StartsNone w c quiet (cancelled k s at there bad) = omega arith

  main-late : (p : Process) (a : Pc) (e : Event) → Mains a → (move lib p a e).0.late ≡ p.late
  unfolding move
  main-late p _ _ h = ground arith

  outside-late : (p : Process) (e : Event) → (move lib p outside e).0.late ≡ p.late
  unfolding move
  outside-late p e = ground arith

  proceeded-late :
      (p : Process) (c : Completion) (o : Outcome)
      → (p.queue_shut ≡ true → StartsNone p.world c o)
      → p.late ≡ 0
      → (proceeded p c o).0.late ≡ 0
  proceeded-late p c threw quiet before = before
  proceeded-late p c dangling quiet before = before
  proceeded-late p c (returned v) quiet before = elim (Bool-cases p.queue_shut) [
    | inl shut ↦ rw shut (omega (arith, quiet shut, before))
    | inr up ↦ rw up (omega (arith, before))
  ]

  poll-late : (p : Process) (tags : List ℕ) → (poll p tags).0.late ≡ p.late
  poll-late p [] = elim (Bool-cases p.queue_shut) [ inl shut ↦ rw shut refl | inr up ↦ rw up refl ]
  poll-late p (tag ∷ tags) = refl

  server-late :
      (p : Process) (b : Pc) (e : Event)
      → Fine b p.world
      → NoRequest p b e
      → p.late ≡ 0
      → (move lib p b e).0.late ≡ 0
  unfolding move
  server-late p (proceeding c) steps good quiet before =
      proceeded-late p c (CqServer.handle_rpc lib p.world c)
        (λ shut.
          Effect-StartsNone p.world c (quiet shut)
            (handle_rpc-Effect lib p.world c good.sound good.owned))
        before
  server-late p polling steps good quiet before = poll-late p p.world.pending ∙ before
  server-late p _ _ fine quiet before = ground arith

  run-late_from :
      (p : Process) (a b : Pc) (xs : List (ℕ × Event))
      → Sound lib p a b
      → p.late ≡ 0
      → Follows (move lib) NoRequest (three p a b) xs
      → (run (move lib) (three p a b) xs).shared.late ≡ 0
  unfolding run step
  run-late_from p a b [] h before f = before
  run-late_from p a b ((zero, e) ∷ xs) h before f =
      run-late_from (move lib p a e).0 (move lib p a e).1 b xs (main-Sound lib p a b e h)
        (main-late p a e h.mains ∙ before) f.1
  run-late_from p a b ((suc zero, e) ∷ xs) h before f =
      run-late_from (move lib p b e).0 a (move lib p b e).1 xs (server-Sound lib p a b e h)
        (server-late p b e h.fine (f.0 b refl) before) f.1
  run-late_from p a b ((suc (suc zero), e) ∷ xs) h before f =
      let q = (move lib p outside e).0 in
      let (sound, still) = outside-Sound lib p a b e h in
      subst
        (λ c.
          Follows (move lib) NoRequest (record { shared = q; threads = a ∷ b ∷ c ∷ [] }) xs
          → (run (move lib) (record { shared = q; threads = a ∷ b ∷ c ∷ [] }) xs).shared.late ≡ 0)
        (sym still) (λ g. run-late_from q a b xs sound (outside-late p e ∙ before) g) f.1
  run-late_from p a b ((suc (suc (suc i)), e) ∷ xs) h before f = run-late_from p a b xs h before f.1

  -- If every object that proceeds behind the queue's `Shutdown` is given no new request, as gRPC says
  -- of a server that was shut down, then no operation is started on a queue that was shut down,
  -- whenever the signal comes and however the threads interleave.
  pub main_program-late :
      (xs : List (ℕ × Event))
      → Follows (move lib) NoRequest (three launched awaiting adding) xs
      → (main_program lib xs).shared.late ≡ 0
  main_program-late xs f =
      run-late_from launched awaiting adding xs (record { mains = tt; fine = refl; alive = refl })
        refl f
