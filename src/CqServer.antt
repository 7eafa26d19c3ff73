-- ===== src/CqServer.antt =====
-- src/complex_async_server_single_cq.cpp: `SingleCqServer`, whose one thread takes the completions
-- of the queue in turn and lets the call object of each proceed. `Next` returns a completion of an
-- operation under way; a completion that names none does not happen. The gauge of the busy worker
-- is left out.
pub mod Heap
pub mod Objects
pub mod Effects
pub mod Safety
pub mod Metrics
pub mod Accounts
pub mod Draining
pub mod Replies
pub mod Lifecycle
use cpp_grpc_db.Prelude.{ℕ, Bool, true, List, [], ◌∷◌, none, some, get_elem?, remove_at}
use cpp_grpc_db.CallData.{
  Service, greeter, girl_greeter, Incoming, Library, World, Outcome, returned, threw, dangling,
  new_call, proceed,
}

-- Which operation completes, the place of its tag among those under way, and what it brings.
pub record Completion : Type 0 where
  pub place : ℕ
  pub ok : Bool
  pub request : Incoming

abbrev pub empty_world : World
empty_world = record { heap = []; pending = []; samples = []; replies = [] }

-- `SpwanHandlers`, with the metrics that `Run` has made.
unfoldable pub spawn_handlers : World → World
unfolding new_call
spawn_handlers w = new_call girl_greeter true (new_call greeter true w)

abbrev pub go_on : Outcome → (World → Outcome) → Outcome
go_on (returned w) k = k w
go_on threw k = threw
go_on dangling k = dangling

module _ (lib : Library) where
  -- The body of the loop.
  unfoldable pub handle_rpc : World → Completion → Outcome
  handle_rpc w c = elim (get_elem? w.pending c.place) [
    | none ↦ returned w
    | some tag ↦ proceed lib tag c.ok c.request (record w { pending = remove_at w.pending c.place })
  ]

  -- `HandleRpcs`.
  unfoldable pub handle_rpcs : World → List Completion → Outcome
  handle_rpcs w [] = returned w
  handle_rpcs w (c ∷ cs) = go_on (handle_rpc w c) (λ v. handle_rpcs v cs)

  -- `Run`.
  unfoldable pub run : List Completion → Outcome
  unfolding handle_rpcs spawn_handlers
  run cs = handle_rpcs (spawn_handlers empty_world) cs
