-- ===== src/CqServer/Accounts.antt =====
-- What the metrics have counted, and how many handlers wait for a request, after a run.
use cpp_grpc_db.Prelude.{◌≤◌, List, [], ◌∷◌, total, ◌≡◌, refl, arith, subst}
use cpp_grpc_db.CallData.{
  Service, greeter, girl_greeter, Library, ok_request, cancelled_request, total_duration, World,
  Outcome, returned, threw, dangling, get_method_name,
}
use cpp_grpc_db.CqServer.{Completion, empty_world, spawn_handlers, go_on, handle_rpcs, run}
use cpp_grpc_db.CqServer
use cpp_grpc_db.CqServer.Objects.{accepting, answering, unknown}
use cpp_grpc_db.CqServer.Effects.{
  Effect, idle, received, crashed, sent, refused, cancelled, handle_rpc-Effect,
}
use cpp_grpc_db.CqServer.Safety.{IsSafe, Good, Effect-IsSafe, spawn_handlers-Good}
use cpp_grpc_db.CqServer.Metrics.{
  acceptors, Ledger, sent-Adds, refused-Adds, cancelled-Adds, closed-Ledger, opened-Ledger,
}

-- What a run returns, if it returns.
abbrev pub Keeps : Outcome → Type 0
Keeps (returned w) = Good w × Ledger w
Keeps o = Unit

module _ (lib : Library) where
  Effect-Keeps :
      (w : World) (c : Completion) {o : Outcome}
      → Ledger w
      → Effect lib w c o
      → IsSafe lib o
      → Keeps o
  Effect-Keeps w c l (idle gone) g = (g, l)
  Effect-Keeps w c l (received k s reply at there good e) g =
      (g, opened-Ledger lib w c k s reply there l)
  Effect-Keeps w c l (crashed k s at there good e) g = tt
  Effect-Keeps w c l (sent k s at there good) g = (
    g,
    closed-Ledger w c k (answering s)
        (ok_request (get_method_name s) ∷ total_duration (get_method_name s) ∷ []) there
        (sent-Adds s) l,
  )
  Effect-Keeps w c l (refused k s at there bad) g = (
    g,
    closed-Ledger w c k (accepting s) (cancelled_request unknown ∷ []) there (refused-Adds s) l,
  )
  Effect-Keeps w c l (cancelled k s at there bad) g = (
    g,
    closed-Ledger w c k (answering s) (cancelled_request (get_method_name s) ∷ []) there
        (cancelled-Adds s) l,
  )

  go_on-Keeps :
      (o : Outcome) (go : World → Outcome)
      → ((v : World) → Good v × Ledger v → Keeps (go v))
      → Keeps o
      → Keeps (go_on o go)
  go_on-Keeps (returned v) go more h = more v h
  go_on-Keeps threw go more h = tt
  go_on-Keeps dangling go more h = tt

  handle_rpcs-Keeps :
      (w : World) (cs : List Completion) → Good w × Ledger w → Keeps (handle_rpcs lib w cs)
  unfolding handle_rpcs
  handle_rpcs-Keeps w [] h = h
  handle_rpcs-Keeps w (c ∷ cs) (g, l) =
      let e = handle_rpc-Effect lib w c g.sound g.owned in
      go_on-Keeps (CqServer.handle_rpc lib w c) (λ v. handle_rpcs lib v cs)
        (λ v h. handle_rpcs-Keeps v cs h) (Effect-Keeps w c l e (Effect-IsSafe lib w c g e))

one_acceptor : (s : Service) → total (acceptors s) (spawn_handlers empty_world).heap ≤ 1
unfolding spawn_handlers total
one_acceptor greeter = omega arith
one_acceptor girl_greeter = omega arith

spawn_handlers-Ledger : Ledger (spawn_handlers empty_world)
unfolding spawn_handlers total
spawn_handlers-Ledger = record { flow = λ t. refl; at_most = one_acceptor; open_to = refl }

-- Between two completions of any run, the metrics of each method account for its requests: those
-- received are those counted as finished or cancelled and those in flight. At most one object of
-- each service accepts, and both services have one unless a handler was cancelled before it had a
-- request, which the metrics count too.
pub run-Ledger :
    (lib : Library) (cs : List Completion) {w : World} → run lib cs ≡ returned w → Ledger w
unfolding run
run-Ledger lib cs h =
    (subst Keeps h (
      handle_rpcs-Keeps lib (spawn_handlers empty_world) cs
        (spawn_handlers-Good, spawn_handlers-Ledger))).1
