-- ===== src/CqServer/Lifecycle/Stopping.antt =====
-- src/complex_async_server_single_cq.cpp: the end of the process behind `Shutdown`.
use mathlib.Core.Option.{some-injective}
use cpp_grpc_db.Prelude.{
  Bool, false, ℕ, zero, suc, true, List, [], ◌∷◌, ◌++◌, some, get_elem?, length, ◌≡◌, refl, sym, ap,
  subst, ◌∙◌, arith, if◌then◌else◌, count,
}
use cpp_grpc_db.CallData.{Incoming, Library, Outcome, returned, threw, dangling}
use cpp_grpc_db.Interleaving.{System, step, run, run-append}
use cpp_grpc_db.CqServer.{Completion, empty_world, spawn_handlers}
use cpp_grpc_db.CqServer
use cpp_grpc_db.CqServer.Heap.{live_at}
use cpp_grpc_db.CqServer.Effects.{handle_rpc-Effect}
use cpp_grpc_db.CqServer.Safety.{Good, IsSafe, Effect-IsSafe}
use cpp_grpc_db.CqServer.Draining.{failing, Shrinks, Effect-Shrinks}
use cpp_grpc_db.CqServer.Lifecycle.{
  Process, Pc, awaiting, joining, stopped, adding, polling, ended, outside, Event, steps, completes,
  poll, taken_by, proceeded, move, launched, main_program,
}
use cpp_grpc_db.CqServer.Lifecycle.Standing.{Alive, Fine, three, run-Stands}

-- `n` operations complete with `ok` false, and both threads return.
abbrev pub winding_up : Incoming → ℕ → List (ℕ × Event)
winding_up request zero = (1, steps) ∷ (0, steps) ∷ []
winding_up request (suc n) = (1, completes (failing request)) ∷ (1, steps) ∷ winding_up request n

-- The process has ended, and no operation and no object is left.
pub record Wound (s : System Process Pc) : Type 0 where
  pub main_returned : get_elem? s.threads 0 ≡ some stopped
  pub server_returned : get_elem? s.threads 1 ≡ some ended
  pub none_pending : s.shared.world.pending ≡ []
  pub all_deleted : (k : ℕ) → live_at k s.shared.world.heap ≡ 0

module _ (lib : Library) where
  module _ (request : Incoming) where
    abbrev joined : Bool → Process → Process × Pc
    joined b q = if b then (q, joining) else (q, if q.server_ended then stopped else joining)

    abbrev joins : Process → Process × Pc
    joins q = joined q.aborted q

    abbrev WindsUp : ℕ → Process × Pc → Type 0
    WindsUp n (p, b) = Wound (run (move lib) (three p joining b) (winding_up request n))

    WindsUp-empty :
        (p : Process)
        → p.queue_shut ≡ true
        → p.world.pending ≡ []
        → Good p.world
        → p.aborted ≡ false
        → WindsUp 0 (p, polling)
    unfolding run step move
    WindsUp-empty p shut empty good alive =
        let polled : poll p p.world.pending ≡ (record p { server_ended = true }, ended) =
          ap (poll p) empty
          ∙ ap (λ b. if b then (record p { server_ended = true }, ended) else (p, polling)) shut in
        subst
          (λ z.
            Wound (record { shared = (joins z.0).0; threads = (joins z.0).1 ∷ z.1 ∷ outside ∷ [] }))
          (sym polled)
          (subst
            (λ b. Wound (record {
              shared = (joined b (record p { server_ended = true })).0;
              threads = (joined b (record p { server_ended = true })).1 ∷ ended ∷ outside ∷ [];
            }))
            (sym alive)
            (record {
              main_returned = refl;
              server_returned = refl;
              none_pending = empty;
              all_deleted = λ k. sym (good.owned k) ∙ ap (count k) empty;
            }))

    WindsUp-after :
        (n : ℕ) (p : Process) (o : Outcome)
        → p.queue_shut ≡ true
        → Shrinks lib request n o
        → IsSafe lib o
        → p.aborted ≡ false
        → ((q : Process)
            → q.queue_shut ≡ true
            → length q.world.pending ≡ n
            → Good q.world
            → q.aborted ≡ false
            → WindsUp n (q, polling))
        → WindsUp n (proceeded p (failing request) o)
    WindsUp-after n p threw shut fewer safe alive more = absurd fewer
    WindsUp-after n p dangling shut fewer safe alive more = absurd fewer
    WindsUp-after n p (returned w) shut fewer safe alive more =
        more (proceeded p (failing request) (returned w)).0 shut fewer safe alive

    some_pending :
        (tags : List ℕ) (n : ℕ) → length tags ≡ suc n → (tag : ℕ) × (get_elem? tags 0 ≡ some tag)
    some_pending [] n h = ground arith
    some_pending (tag ∷ tags) n h = (tag, refl)

    none_pending_left : (tags : List ℕ) → length tags ≡ 0 → tags ≡ []
    none_pending_left [] h = refl
    none_pending_left (tag ∷ tags) h = ground arith

    winds_up :
        (n : ℕ) (p : Process)
        → p.queue_shut ≡ true
        → length p.world.pending ≡ n
        → Good p.world
        → p.aborted ≡ false
        → WindsUp n (p, polling)
    unfolding run step move
    winds_up zero p shut few good alive =
        unfold run step move in
        WindsUp-empty p shut (none_pending_left p.world.pending few) good alive
    winds_up (suc n) p shut few good alive =
        let c = failing request in
        let o = CqServer.handle_rpc lib p.world c in
        let effect = handle_rpc-Effect lib p.world c good.sound good.owned in
        let (tag, at) = some_pending p.world.pending n few in
        subst (λ z. WindsUp n (move lib p z steps)) (ap (λ t. taken_by t c) (sym at))
          (WindsUp-after n p o shut (Effect-Shrinks lib request p.world n few effect)
            (Effect-IsSafe lib p.world c good effect) alive (λ q. winds_up n q))

  -- Once `Shutdown` has found a queue and shut it down, and while the server's thread is at `Next`:
  -- if what is under way completes with `ok` false, as many rounds as there are operations let `Run`
  -- and then `main` return, and no operation and no call object is left.
  pub main_program-Wound :
      (xs : List (ℕ × Event)) (request : Incoming)
      → get_elem? (main_program lib xs).threads 0 ≡ some joining
      → get_elem? (main_program lib xs).threads 1 ≡ some polling
      → (main_program lib xs).shared.queue_shut ≡ true
      → Wound (
          main_program lib
            (xs ++ winding_up request (length (main_program lib xs).shared.world.pending)))
  main_program-Wound xs request main_joins server_polls shut =
      let (q, a, b, same, h) =
        run-Stands lib launched awaiting adding xs
          (record { mains = tt; fine = refl; alive = refl }) in
      let main_at : a ≡ joining =
        some-injective a joining (sym (ap (λ s. get_elem? s.threads 0) same) ∙ main_joins) in
      let polls : b ≡ polling =
        some-injective b polling (sym (ap (λ s. get_elem? s.threads 1) same) ∙ server_polls) in
      let here : main_program lib xs ≡ three q joining polling =
        same ∙ ap (λ z. three q z b) main_at ∙ ap (three q joining) polls in
      let queue_shut : q.queue_shut ≡ true = sym (ap (λ s. s.shared.queue_shut) same) ∙ shut in
      let good : Good q.world = subst (λ z. Fine z q.world) polls h.fine in
      let alive : q.aborted ≡ false = subst (λ z. Alive z q) polls h.alive in
      subst Wound
        (sym (
          run-append (move lib) _ xs _
          ∙ ap (λ s. run (move lib) s (winding_up request (length s.shared.world.pending))) here))
        (winds_up request (length q.world.pending) q queue_shut refl good alive)
