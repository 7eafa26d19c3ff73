-- ===== src/CqServer/Replies.antt =====
-- The server against its specification: a reply for each request that was read.
use cpp_grpc_db.Prelude.{
  ℕ, Bool, true, false, List, [], ◌∷◌, ◌++◌, map, append_assoc, append-nil, Option, none, some,
  get_elem?, Bytes, codes, ◌≡◌, refl, sym, ap, ◌∙◌,
}
use mathlib.Core.Option.{some-injective}
use mathlib.Core.List.{map-append}
use cpp_grpc_db.Greeting.{say_hello, say_hello_girl, girl_reply, big5_literal}
use cpp_grpc_db.CallData
use cpp_grpc_db.CallData.{
  Service, greeter, girl_greeter, CallStatus, process, Incoming, Reply, hello_reply, Library,
  CallObject, World, Outcome, returned, threw, dangling, handle_rpc, get_method_name,
}
use cpp_grpc_db.CqServer
use cpp_grpc_db.CqServer.{Completion, empty_world, spawn_handlers, go_on, handle_rpcs, run}
use cpp_grpc_db.CqServer.Objects.{accepting, answering}
use cpp_grpc_db.CqServer.Effects.{
  Effect, idle, received, crashed, sent, refused, cancelled, handle_rpc-Effect,
}
use cpp_grpc_db.CqServer.Safety.{Good, IsSafe, Effect-IsSafe, spawn_handlers-Good}

abbrev read_by : CallStatus → Bool → Service × Incoming → List (Service × Incoming)
read_by process true x = x ∷ []
read_by st ok x = []

abbrev read_at : Option (Option CallObject) → Bool → Incoming → List (Service × Incoming)
read_at (some (some c)) ok request = read_by c.status ok (c.service, request)
read_at x ok request = []

abbrev object_at : Option ℕ → List (Option CallObject) → Option (Option CallObject)
object_at none heap = none
object_at (some k) heap = get_elem? heap k

-- The request that one completion hands to a handler which waits for one.
abbrev pub reading : World → Completion → List (Service × Incoming)
reading w c = read_at (object_at (get_elem? w.pending c.place) w.heap) c.ok c.request

abbrev pub read_on : Outcome → (World → List (Service × Incoming)) → List (Service × Incoming)
read_on (returned v) go = go v
read_on o go = []

-- The requests that are read in a run, the latest first.
unfoldable pub readings : Library → World → List Completion → List (Service × Incoming)
readings lib w [] = []
readings lib w (c ∷ cs) =
    read_on (CqServer.handle_rpc lib w c) (λ v. readings lib v cs) ++ reading w c

-- The reply that a request asks for.
abbrev pub reply_to : Bytes → Service × Incoming → Reply
reply_to big5 (greeter, r) = hello_reply (record { message = codes "Hello " ++ r.hello.name })
reply_to big5 (girl_greeter, r) = CallData.girl_reply (girl_reply r.girl big5)

module _ (lib : Library) (big5 : Bytes) (converts : lib.utf8_to_big5 big5_literal ≡ some big5) where
  handle_rpc_lem :
      (s : Service) (request : Incoming)
      → handle_rpc lib s request ≡ some (reply_to big5 (s, request))
  unfolding handle_rpc say_hello say_hello_girl
  handle_rpc_lem greeter request = refl
  handle_rpc_lem girl_greeter request = rw (converts, handle_rpc) refl

  -- One round adds the replies to what it reads.
  abbrev Answers : World → Completion → Outcome → Type 0
  Answers w c (returned v) = v.replies ≡ map (reply_to big5) (reading w c) ++ w.replies
  Answers w c o = ⊥

  reading_lem :
      (w : World) (c : Completion) (k : ℕ) (o : CallObject) (ok : Bool)
      → get_elem? w.pending c.place ≡ some k
      → get_elem? w.heap k ≡ some (some o)
      → c.ok ≡ ok
      → reading w c ≡ read_by o.status ok (o.service, c.request)
  reading_lem w c k o ok at there e = rw (at, there, e) refl

  Effect-Answers : (w : World) (c : Completion) {o : Outcome} → Effect lib w c o → Answers w c o
  Effect-Answers w c (idle gone) = rw (gone) refl
  Effect-Answers w c (received k s reply at there good e) =
      let e' = handle_rpc_lem s c.request in
      let r = reading_lem w c k (accepting s) true at there good in
      let same : reply ≡ reply_to big5 (s, c.request) = some-injective _ _ (sym e ∙ e') in
      rw (r, same) refl
  Effect-Answers w c (crashed k s at there good e) = let e' = handle_rpc_lem s c.request in cc
  Effect-Answers w c (sent k s at there good) =
      rw (reading_lem w c k (answering s) true at there good) refl
  Effect-Answers w c (refused k s at there bad) =
      rw (reading_lem w c k (accepting s) false at there bad) refl
  Effect-Answers w c (cancelled k s at there bad) =
      rw (reading_lem w c k (answering s) false at there bad) refl

  abbrev Answered : World → List Completion → Type 0
  Answered w cs =
      (v : World) × (handle_rpcs lib w cs ≡ returned v)
      × (v.replies ≡ map (reply_to big5) (readings lib w cs) ++ w.replies)

  first_round :
      (w : World) (c : Completion) (cs : List Completion) (o : Outcome)
      → CqServer.handle_rpc lib w c ≡ o
      → Answers w c o
      → IsSafe lib o
      → ((v : World) → Good v → Answered v cs)
      → Answered w (c ∷ cs)
  unfolding handle_rpcs readings
  first_round w c cs threw e a g more = absurd a
  first_round w c cs dangling e a g more = absurd a
  first_round w c cs (returned v) e a g more =
      let (u, r, q) = more v g in
      (
        u,
        rw e r,
        rw e (
            q
            ∙ ap (λ rest. map (reply_to big5) (readings lib v cs) ++ rest) a
            ∙ sym (
                append_assoc (map (reply_to big5) (readings lib v cs))
                  (map (reply_to big5) (reading w c)) w.replies)
            ∙ ap (λ all. all ++ w.replies)
                (sym (map-append (reply_to big5) (readings lib v cs) (reading w c)))),
      )

  handle_rpcs-Answered : (w : World) (cs : List Completion) → Good w → Answered w cs
  unfolding handle_rpcs readings
  handle_rpcs-Answered w [] g = (w, refl, refl)
  handle_rpcs-Answered w (c ∷ cs) g =
      let e = handle_rpc-Effect lib w c g.sound g.owned in
      unfold handle_rpcs readings in
      first_round w c cs (CqServer.handle_rpc lib w c) refl (Effect-Answers w c e)
        (Effect-IsSafe lib w c g e) (λ v h. handle_rpcs-Answered v cs h)

  -- If the converter accepts the literal, the thread handles every completion, and the replies that
  -- it has sent are those which the requests ask for, one for each request that a waiting handler
  -- read, in their order.
  pub run-replies :
      (cs : List Completion)
      → (v : World) × (run lib cs ≡ returned v)
        × (v.replies ≡ map (reply_to big5) (readings lib (spawn_handlers empty_world) cs))
  unfolding run spawn_handlers
  run-replies cs =
      let (v, r, q) = handle_rpcs-Answered (spawn_handlers empty_world) cs spawn_handlers-Good in
      (v, r, q ∙ append-nil _)
