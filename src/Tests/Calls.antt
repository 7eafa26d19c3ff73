-- ===== src/Tests/Calls.antt =====
-- The asynchronous server on a few completions, and a request id.
use cpp_grpc_db.Prelude.{
  ℕ, Bool, true, false, List, [], ◌∷◌, some, codes, length, get_or, map, replicate, ◌≡◌, refl,
  arith,
}
use cpp_grpc_db.Greeting.{big5_literal}
use cpp_grpc_db.ByteLogging.{hex_digit}
use cpp_grpc_db.StringUtil.{ok, sanitize_uuid}
use cpp_grpc_db.StringUtil.Uuid.{IsUuid}
use cpp_grpc_db.CqServer
use cpp_grpc_db.CallData.{Incoming, Library, World, Outcome, returned, proceed}
use cpp_grpc_db.CallData.Uuid.{generate_uuid, generate_uuid_lem}
use cpp_grpc_db.CqServer.{Completion, empty_world, spawn_handlers, handle_rpcs, run}
use cpp_grpc_db.CqServer.Effects.{Effect, handle_rpc-Effect}
use cpp_grpc_db.CqServer.Safety.{IsSafe, run-IsSafe, spawn_handlers-Good}
use cpp_grpc_db.CqServer.Metrics.{Ledger}
use cpp_grpc_db.CqServer.Accounts.{run-Ledger}
use cpp_grpc_db.CqServer.Replies.{reply_to, readings, run-replies}
use cpp_grpc_db.CqServer.Heap.{live_at}
use cpp_grpc_db.CqServer.Draining.{failing, run_drains}

-- A converter that leaves each text as it is, and sizes that are the lengths of the names.
abbrev plain_library : Library
plain_library = record {
  utf8_to_big5 = some;
  hello_request_size = λ r. length r.name;
  girl_request_size = λ r. length r.name;
  reply_size = λ r. 7;
}

abbrev ann : Incoming
ann = record {
  hello = record { name = codes "ann" };
  girl = record { name = codes "ann"; spouse = codes "bob"; first_round = 3; secret_note = [] };
}

abbrev completes : ℕ → Bool → Completion
completes i good = record { place = i; ok = good; request = ann }

-- A request for each service, the first of them answered, and then a failing completion.
abbrev busy : List Completion
busy = completes 0 true ∷ completes 2 true ∷ completes 1 true ∷ completes 0 false ∷ []

abbrev started : World
started = spawn_handlers empty_world

abbrev world_of : Outcome → World
world_of (returned w) = w
world_of o = empty_world

abbrev after_busy : World
after_busy = world_of (run plain_library busy)

busy_returns : run plain_library busy ≡ returned after_busy
unfolding run handle_rpcs spawn_handlers CqServer.handle_rpc proceed
busy_returns = refl

run-IsSafe_example : IsSafe plain_library (run plain_library busy)
run-IsSafe_example = run-IsSafe plain_library busy

handle_rpc-Effect_example :
    Effect plain_library started
      (completes 1 true)
      (CqServer.handle_rpc plain_library started (completes 1 true))
handle_rpc-Effect_example =
    handle_rpc-Effect plain_library started (completes 1 true) spawn_handlers-Good.sound
      spawn_handlers-Good.owned

run-Ledger_example : Ledger after_busy
run-Ledger_example = run-Ledger plain_library busy {w = after_busy} busy_returns

run-replies_example :
    (v : World) × (run plain_library busy ≡ returned v)
    × (v.replies
        ≡ map (reply_to big5_literal) (readings plain_library (spawn_handlers empty_world) busy))
run-replies_example = run-replies plain_library big5_literal refl busy

run_drains_example :
    (v : World) × (handle_rpcs plain_library after_busy
        (replicate (length after_busy.pending) (failing ann))
      ≡ returned v)
    × (v.pending ≡ [])
    × ((k : ℕ) → live_at k v.heap ≡ 0)
run_drains_example = run_drains plain_library ann busy after_busy busy_returns

abbrev tens : ℕ → ℕ
tens i = 10

nine_and_tens-IsUuid :
    IsUuid (generate_uuid tens 9)
    × (get_or (generate_uuid tens 9) 14 0 ≡ b'4')
    × (get_or (generate_uuid tens 9) 19 0 ≡ hex_digit 9)
    × (sanitize_uuid (generate_uuid tens 9) ≡ ok (generate_uuid tens 9))
nine_and_tens-IsUuid = generate_uuid_lem tens 9 (λ i. omega arith) (omega arith) (omega arith)
