-- ===== src/CqServer/Safety.antt =====
-- Every completion finds its object, and no object is left behind.
use cpp_grpc_db.Prelude.{
  ℕ, zero, suc, ◌+◌, List, [], ◌∷◌, ◌++◌, none, some, get_elem?, All, All-set, All-append,
  get_elem?-append, count, one_if, count-remove, ◌≡◌, refl, arith,
}
use cpp_grpc_db.CallData.{
  ok_request, cancelled_request, total_duration, get_method_name, greeter, girl_greeter, Service,
  Incoming, Reply, Library, CallObject, Sample, World, Outcome, returned, threw, dangling,
  handle_rpc,
}
use cpp_grpc_db.Greeting.{big5_literal, say_hello_girl}
use cpp_grpc_db.CqServer.{Completion, empty_world, spawn_handlers, go_on, handle_rpcs, run}
use cpp_grpc_db.CqServer
use cpp_grpc_db.CqServer.Objects.{
  IsSound, deleted, accepts, answers, accepting, answering, unknown, closed, opened,
}
use cpp_grpc_db.CqServer.Heap.{
  live_at, live_at-set, live_at-append, live_at-length, live_at-one, get_elem?-lt,
}
use cpp_grpc_db.CqServer.Effects.{
  Owned, taken, Effect, idle, received, crashed, sent, refused, cancelled, handle_rpc-Effect,
}

-- Between two rounds of the loop.
pub record Good (w : World) : Type 0 where
  pub sound : All IsSound w.heap
  pub owned : Owned w

-- What a run may come to: it does not use a deleted object, what it returns is good, and it throws
-- only if the converter refuses the literal.
abbrev pub IsSafe : Library → Outcome → Type 0
IsSafe lib (returned w) = Good w
IsSafe lib threw = lib.utf8_to_big5 big5_literal ≡ none
IsSafe lib dangling = ⊥

count-taken :
    (w : World) (c : Completion) (k j : ℕ)
    → Owned w
    → get_elem? w.pending c.place ≡ some k
    → count j (taken w c).pending + one_if j k ≡ live_at j w.heap
count-taken w c k j owned at = omega (arith, count-remove j w.pending c.place {x = k} at, owned j)

closed-Good :
    (w : World) (c : Completion) (k : ℕ) (o : CallObject) (xs : List Sample)
    → Good w
    → get_elem? w.pending c.place ≡ some k
    → get_elem? w.heap k ≡ some (some o)
    → Good (closed k xs (taken w c))
closed-Good w c k o xs g at there = record {
  sound = All-set IsSound w.heap k none g.sound deleted;
  owned = λ j. ground (
    arith,
    count-taken w c k j g.owned at,
    live_at-one w.heap k o there,
    live_at-set w.heap k none (some o) j there,
  );
}

opened-Good :
    (lib : Library) (w : World) (c : Completion) (k : ℕ) (s : Service) (o : CallObject)
    (reply : Reply)
    → Good w
    → get_elem? w.pending c.place ≡ some k
    → get_elem? w.heap k ≡ some (some o)
    → Good (opened lib k s c.request reply (taken w c))
opened-Good lib w c k s o reply g at there =
    let grown = w.heap ++ some (accepting s) ∷ [] in
    record {
      sound =
          All-set IsSound grown k (some (answering s))
            (All-append IsSound w.heap (some (accepting s) ∷ []) g.sound (accepts s, tt))
            (answers s);
      owned = λ j. ground (
        arith,
        count-taken w c k j g.owned at,
        live_at-set grown k (some (answering s)) (some o) j
            (get_elem?-append w.heap (some (accepting s) ∷ []) k {x = some o} there),
        live_at-append w.heap (accepting s) j,
        live_at-length w.heap,
        live_at-one w.heap k o there,
        get_elem?-lt w.heap k (some o) there,
      );
    }

module _ (lib : Library) where
  handle_rpc-none :
      (s : Service) (request : Incoming)
      → handle_rpc lib s request ≡ none
      → lib.utf8_to_big5 big5_literal ≡ none
  unfolding handle_rpc say_hello_girl
  handle_rpc-none greeter request h = cc
  handle_rpc-none girl_greeter request h = ground arith

  pub Effect-IsSafe :
      (w : World) (c : Completion) {o : Outcome} → Good w → Effect lib w c o → IsSafe lib o
  Effect-IsSafe w c g (idle gone) = g
  Effect-IsSafe w c g (received k s reply at there good e) =
      opened-Good lib w c k s (accepting s) reply g at there
  Effect-IsSafe w c g (crashed k s at there good e) = handle_rpc-none s c.request e
  Effect-IsSafe w c g (sent k s at there good) =
      closed-Good w c k (answering s)
        (ok_request (get_method_name s) ∷ total_duration (get_method_name s) ∷ []) g at there
  Effect-IsSafe w c g (refused k s at there bad) =
      closed-Good w c k (accepting s) (cancelled_request unknown ∷ []) g at there
  Effect-IsSafe w c g (cancelled k s at there bad) =
      closed-Good w c k (answering s) (cancelled_request (get_method_name s) ∷ []) g at there

  go_on-IsSafe :
      (o : Outcome) (go : World → Outcome)
      → ((v : World) → Good v → IsSafe lib (go v))
      → IsSafe lib o
      → IsSafe lib (go_on o go)
  go_on-IsSafe (returned v) go more h = more v h
  go_on-IsSafe threw go more h = h
  go_on-IsSafe dangling go more h = h

  handle_rpcs-IsSafe :
      (w : World) (cs : List Completion) → Good w → IsSafe lib (handle_rpcs lib w cs)
  unfolding handle_rpcs
  handle_rpcs-IsSafe w [] g = g
  handle_rpcs-IsSafe w (c ∷ cs) g =
      go_on-IsSafe (CqServer.handle_rpc lib w c) (λ v. handle_rpcs lib v cs)
        (λ v h. handle_rpcs-IsSafe v cs h)
        (Effect-IsSafe w c g (handle_rpc-Effect lib w c g.sound g.owned))

spawn_handlers-Owned : Owned (spawn_handlers empty_world)
unfolding spawn_handlers
spawn_handlers-Owned zero = refl
spawn_handlers-Owned (suc zero) = refl
spawn_handlers-Owned (suc (suc k)) = ground arith

pub spawn_handlers-Good : Good (spawn_handlers empty_world)
unfolding spawn_handlers
spawn_handlers-Good = record {
  sound = (accepts greeter, (accepts girl_greeter, tt));
  owned = unfold spawn_handlers in spawn_handlers-Owned;
}

-- Whatever completes, in whatever order, `Proceed` is never called on a deleted object, and between
-- two completions each live object has exactly one operation under way and nothing else has one.
-- The thread ends by an exception only if the converter refuses the literal.
pub run-IsSafe : (lib : Library) (cs : List Completion) → IsSafe lib (run lib cs)
unfolding run
run-IsSafe lib cs = handle_rpcs-IsSafe lib (spawn_handlers empty_world) cs spawn_handlers-Good
