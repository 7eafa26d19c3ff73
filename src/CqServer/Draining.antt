-- ===== src/CqServer/Draining.antt =====
-- The end of the server: the queue is shut down, and what is under way completes with `ok` false.
use cpp_grpc_db.Prelude.{
  ℕ, zero, suc, false, List, [], ◌∷◌, none, get_elem?, remove_at, length, replicate, count, ◌≡◌,
  refl, sym, ap, ◌∙◌, arith, subst,
}
use cpp_grpc_db.CallData.{Incoming, Library, World, Outcome, returned, threw, dangling}
use cpp_grpc_db.CqServer
use cpp_grpc_db.CqServer.{Completion, go_on, handle_rpcs, run}
use cpp_grpc_db.CqServer.Heap.{live_at}
use cpp_grpc_db.CqServer.Effects.{
  Effect, idle, received, crashed, sent, refused, cancelled, handle_rpc-Effect,
}
use cpp_grpc_db.CqServer.Safety.{Good, IsSafe, Effect-IsSafe, run-IsSafe}

abbrev pub failing : Incoming → Completion
failing request = record { place = 0; ok = false; request = request }

length-rest : (xs : List ℕ) (n : ℕ) → length xs ≡ suc n → length (remove_at xs 0) ≡ n
length-rest [] n h = ground arith
length-rest (x ∷ xs) n h = ground arith

module _ (lib : Library) (request : Incoming) where
  abbrev pub Shrinks : ℕ → Outcome → Type 0
  Shrinks n (returned v) = length v.pending ≡ n
  Shrinks n o = ⊥

  pub Effect-Shrinks :
      (w : World) (n : ℕ) {o : Outcome}
      → length w.pending ≡ suc n
      → Effect lib w (failing request) o
      → Shrinks n o
  Effect-Shrinks w n h (idle gone) = absurd (not_empty w.pending h gone)
    where
      not_empty : (xs : List ℕ) → length xs ≡ suc n → get_elem? xs 0 ≡ none → ⊥
      not_empty [] h gone = ground arith
      not_empty (x ∷ xs) h gone = cc
  Effect-Shrinks w n h (received k s reply at there good e) = cc
  Effect-Shrinks w n h (crashed k s at there good e) = cc
  Effect-Shrinks w n h (sent k s at there good) = cc
  Effect-Shrinks w n h (refused k s at there bad) = length-rest w.pending n h
  Effect-Shrinks w n h (cancelled k s at there bad) = length-rest w.pending n h

  abbrev Drained : ℕ → World → Type 0
  Drained n w =
      (v : World) × (handle_rpcs lib w (replicate n (failing request)) ≡ returned v)
      × (v.pending ≡ [])
      × Good v

  next_round :
      (w : World) (n : ℕ) (o : Outcome)
      → CqServer.handle_rpc lib w (failing request) ≡ o
      → Shrinks n o
      → IsSafe lib o
      → ((v : World) → length v.pending ≡ n → Good v → Drained n v)
      → Drained (suc n) w
  unfolding handle_rpcs
  next_round w n threw e a g more = absurd a
  next_round w n dangling e a g more = absurd a
  next_round w n (returned v) e a g more = let (u, r, q, g') = more v a g in (u, rw e r, q, g')

  drain-Drained : (n : ℕ) (w : World) → length w.pending ≡ n → Good w → Drained n w
  unfolding handle_rpcs
  drain-Drained zero w h g = (w, refl, empty w.pending h, g)
    where
      empty : (xs : List ℕ) → length xs ≡ 0 → xs ≡ []
      empty [] h = refl
      empty (x ∷ xs) h = ground arith
  drain-Drained (suc n) w h g =
      let e = handle_rpc-Effect lib w (failing request) g.sound g.owned in
      unfold handle_rpcs in
      next_round w n (CqServer.handle_rpc lib w (failing request)) refl (Effect-Shrinks w n h e)
        (Effect-IsSafe lib w (failing request) g e) (λ v k g'. drain-Drained n v k g')

  -- When a run has returned and what is under way then completes with `ok` false, as many rounds
  -- as there are operations under way leave none, and every object has been deleted.
  pub run_drains :
      (cs : List Completion) (w : World)
      → run lib cs ≡ returned w
      → (v : World) × (handle_rpcs lib w (replicate (length w.pending) (failing request))
          ≡ returned v)
        × (v.pending ≡ [])
        × ((k : ℕ) → live_at k v.heap ≡ 0)
  run_drains cs w h =
      let (v, r, q, g) =
        drain-Drained (length w.pending) w refl (subst (IsSafe lib) h (run-IsSafe lib cs)) in
      (v, r, q, λ k. sym (g.owned k) ∙ ap (count k) q)
