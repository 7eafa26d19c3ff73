-- ===== src/CqServer/Effects.antt =====
-- One round of the loop as a step relation, which has a case for each kind of completion.
use cpp_grpc_db.Prelude.{
  ℕ, ◌≤◌, Bool, true, false, [], ◌∷◌, Option, none, some, get_elem?, remove_at, All, All-get, count,
  count_pos, ◌≡◌, refl, inl, inr, arith, Option-cases,
}
use cpp_grpc_db.CallData.{
  Service, Reply, Library, CallObject, ok_request, cancelled_request, total_duration, World,
  Outcome, returned, threw, get_method_name, handle_rpc, proceed,
}
use cpp_grpc_db.CqServer.{Completion}
use cpp_grpc_db.CqServer
use cpp_grpc_db.CqServer.Heap.{live_at, live_at-get}
use cpp_grpc_db.CqServer.Objects.{
  IsSound, deleted, accepts, answers, accepting, answering, unknown, closed, opened, opened_or,
  proceed-accepting, proceed-answering, proceed-refused, proceed-cancelled,
}

-- Each live object has one operation under way, and nothing else has: every tag in the queue is
-- the address of a live object.
abbrev pub Owned : World → Type 0
Owned w = (k : ℕ) → count k w.pending ≡ live_at k w.heap

-- The world behind `Next`.
abbrev pub taken : World → Completion → World
taken w c = record w { pending = remove_at w.pending c.place }

module _ (lib : Library) where
  pub data Effect (w : World) (c : Completion) : Outcome → Type 0 where
    idle : get_elem? w.pending c.place ≡ none → Effect w c (returned w)
    received :
        (k : ℕ) (s : Service) (reply : Reply)
        → get_elem? w.pending c.place ≡ some k
        → get_elem? w.heap k ≡ some (some (accepting s))
        → c.ok ≡ true
        → handle_rpc lib s c.request ≡ some reply
        → Effect w c (returned (opened lib k s c.request reply (taken w c)))
    crashed :
        (k : ℕ) (s : Service)
        → get_elem? w.pending c.place ≡ some k
        → get_elem? w.heap k ≡ some (some (accepting s))
        → c.ok ≡ true
        → handle_rpc lib s c.request ≡ none
        → Effect w c threw
    sent :
        (k : ℕ) (s : Service)
        → get_elem? w.pending c.place ≡ some k
        → get_elem? w.heap k ≡ some (some (answering s))
        → c.ok ≡ true
        → Effect w c (
            returned (
              closed k
                (ok_request (get_method_name s) ∷ total_duration (get_method_name s) ∷ [])
                (taken w c)))
    refused :
        (k : ℕ) (s : Service)
        → get_elem? w.pending c.place ≡ some k
        → get_elem? w.heap k ≡ some (some (accepting s))
        → c.ok ≡ false
        → Effect w c (returned (closed k (cancelled_request unknown ∷ []) (taken w c)))
    cancelled :
        (k : ℕ) (s : Service)
        → get_elem? w.pending c.place ≡ some k
        → get_elem? w.heap k ≡ some (some (answering s))
        → c.ok ≡ false
        → Effect w c (returned (closed k (cancelled_request (get_method_name s) ∷ []) (taken w c)))

  received-Effect :
      (w : World) (c : Completion) (k : ℕ) (s : Service) (o : Option Reply)
      → get_elem? w.pending c.place ≡ some k
      → get_elem? w.heap k ≡ some (some (accepting s))
      → c.ok ≡ true
      → handle_rpc lib s c.request ≡ o
      → Effect w c (opened_or lib k s c.request o (taken w c))
  received-Effect w c k s none at there good e = crashed k s at there good e
  received-Effect w c k s (some reply) at there good e = received k s reply at there good e

  proceed-Effect :
      (w : World) (c : Completion) (k : ℕ) (x : Option CallObject) (ok : Bool)
      → IsSound x
      → get_elem? w.pending c.place ≡ some k
      → get_elem? w.heap k ≡ some x
      → c.ok ≡ ok
      → 1 ≤ live_at k w.heap
      → Effect w c (proceed lib k ok c.request (taken w c))
  proceed-Effect w c k x true (accepts s) at there good live =
      rw (proceed-accepting lib k s c.request (taken w c) there)
        (received-Effect w c k s (handle_rpc lib s c.request) at there good refl)
  proceed-Effect w c k x false (accepts s) at there bad live =
      rw (proceed-refused lib k s c.request (taken w c) there) (refused k s at there bad)
  proceed-Effect w c k x true (answers s) at there good live =
      rw (proceed-answering lib k s c.request (taken w c) there) (sent k s at there good)
  proceed-Effect w c k x false (answers s) at there bad live =
      rw (proceed-cancelled lib k s c.request (taken w c) there) (cancelled k s at there bad)
  proceed-Effect w c k x ok deleted at there good live =
      let (o, found) = live_at-get w.heap k live in cc

  -- Where the objects are those that the code makes, and each live one has one operation under way
  -- and nothing else has, every round of the loop is one of these cases: no completion reaches a
  -- deleted object.
  pub handle_rpc-Effect :
      (w : World) (c : Completion)
      → All IsSound w.heap
      → Owned w
      → Effect w c (CqServer.handle_rpc lib w c)
  unfolding CqServer.handle_rpc
  handle_rpc-Effect w c sound owned = elim (Option-cases (get_elem? w.pending c.place)) [
    | inl gone ↦ rw (gone, CqServer.handle_rpc) (idle gone)
    | inr (k, at) ↦
        let live : 1 ≤ live_at k w.heap =
          omega (arith, count_pos w.pending c.place {x = k} at, owned k) in
        let (o, found) = live_at-get w.heap k live in
        rw (at, CqServer.handle_rpc)
          (proceed-Effect w c k (some o) c.ok (All-get IsSound w.heap k sound found) at found refl
            live)
  ]
