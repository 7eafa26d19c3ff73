-- ===== src/Tests/Services.antt =====
-- The servers behind their interceptors.
use mathlib.Core.List.{map-append}
use cpp_grpc_db.Prelude.{
  get_elem?, ◌++◌, ◌-◌, ◌^◌, decimal, map, if◌then◌else◌, ◌==◌, arith, ◌∙◌, ℕ, ◌≤◌, List, [], ◌∷◌,
  total, Option, some, Bytes, codes, ◌≡◌, refl, sym, ap,
}
use mathlib.Core.Option.{some-injective}
use cpp_grpc_db.Greeting.{HelloReply, HelloGirlRequest, big5_literal, girl_reply}
use cpp_grpc_db.Callbacks.{Verdict, rejects, Made, null, made}
use cpp_grpc_db.ResourcePool.{Pool, blocking, Event, calls, locks, makes}
use cpp_grpc_db.ResourcePool.Creation.{ok}
use cpp_grpc_db.ResourcePool.Ledger.{share, after}
use cpp_grpc_db.ResourcePool.Ownership.{owners, births}
use cpp_grpc_db.Service.Pooling.{db2_pool, db2_pool_lem}
use cpp_grpc_db.Interleaving.{run, step}
use cpp_grpc_db.Service.{Status, ok_status, girl_server, client_say_hello}
use cpp_grpc_db.Service.Clients.{printed_int32}
use cpp_grpc_db.Service.Clients.Callback
use cpp_grpc_db.Service.EndToEnd.{Converters, girl_server-round_trip}

-- A converter that swaps two bytes above 127, and is its own inverse.
abbrev swapped : ℕ → ℕ
swapped c = if c == 0xe5 then 0xa4 else if c == 0xa4 then 0xe5 else c

abbrev swap : Bytes → Option Bytes
swap s = some (map swapped s)

map-swapped : (s : Bytes) → map swapped (map swapped s) ≡ s
map-swapped [] = refl
map-swapped (c ∷ s) =
    let back : swapped (swapped c) ≡ c = ground arith in rw (back, map-swapped s) refl

swap-Converters : Converters swap swap
swap-Converters = record {
  back = λ s t e.
      ap (λ u. some (map swapped u)) (sym (some-injective (map swapped s) t e))
      ∙ ap some (map-swapped s);
  joins = λ s t u v e f. ap some (
      map-append swapped s t
      ∙ cc (some-injective (map swapped s) u e, some-injective (map swapped t) v f));
  hello_kept = refl;
  married_kept = refl;
}

abbrev swapped_literal : Bytes
swapped_literal = map swapped big5_literal

abbrev ann_and_bob : HelloGirlRequest
ann_and_bob = record {
  name = 0xe5 ∷ [];
  spouse = codes "bob";
  first_round = 38;
  secret_note = codes "note";
}

girl_server-round_trip_example :
    girl_server swap swap ann_and_bob ≡ some (ok_status, girl_reply ann_and_bob swapped_literal)
girl_server-round_trip_example =
    girl_server-round_trip swap swap ann_and_bob (0xa4 ∷ []) (codes "bob") swapped_literal
      swap-Converters refl refl refl

-- The first call has connection 3 made, and the second one connection 4.
abbrev two_calls : List (ℕ × Event)
two_calls =
    (0, calls blocking)
    ∷ (1, calls blocking)
    ∷ (0, locks)
    ∷ (1, locks)
    ∷ (0, makes (made 3))
    ∷ (1, makes (made 4))
    ∷ []

abbrev no_trials : ℕ → Made × Verdict
no_trials i = (null, rejects)

two_calls-share_pool :
    (p : Pool) × (db2_pool no_trials ≡ ok p)
    × (total share (after p 2 two_calls).threads ≤ 8)
    × ((r : ℕ) → owners r (after p 2 two_calls) ≤ births r two_calls)
two_calls-share_pool = db2_pool_lem no_trials 2 two_calls

the_reply : printed_int32 39 ≡ codes "39"
unfolding printed_int32 decimal
the_reply = refl

minus_one : printed_int32 (2 ^ 32 - 1) ≡ codes "-1"
unfolding printed_int32 decimal
minus_one = refl

abbrev greeted : Status × HelloReply
greeted = (ok_status, record { message = codes "Hello Rou" })

-- The caller waits, and the callback comes.
abbrev waiting_first : List (ℕ × Callback.Event)
waiting_first = (0, Callback.locks) ∷ (1, Callback.completes) ∷ (1, Callback.locks) ∷ []

callback_client-returns_example :
    get_elem?
      (Callback.called_back greeted
        (waiting_first ++ (0, Callback.locks) ∷ (0, Callback.wakes) ∷ [])).threads
      0
    ≡ some (Callback.returned (client_say_hello (λ request. greeted) (codes "Rou")))
unfolding run step Callback.move
callback_client-returns_example =
    Callback.callback_client-returns greeted (codes "Rou") waiting_first refl
