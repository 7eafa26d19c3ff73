-- ===== src/Tests/Startup.antt =====
-- The arguments of the servers.
use cpp_grpc_db.Prelude.{
  ◌++◌, ℕ, List, [], ◌∷◌, some, none, true, codes, is_digit, decimal, ◌≡◌, refl, arith,
}
use cpp_grpc_db.Startup.Port.{is_space, scan, stoi, port_of, server_address}
use cpp_grpc_db.Startup.Port.Reading.{server_address-decimal}
use cpp_grpc_db.Interleaving.{step, run}
use cpp_grpc_db.Startup.Watcher.{Event, steps, signals, calls_in, act, move, run_server}
use cpp_grpc_db.Startup.Watcher.Ending.{Over, farewell, run_server-Over, run_server_returned}

no_argument : server_address none ≡ some (codes "0.0.0.0:50051")
unfolding server_address port_of decimal
no_argument = refl

text_behind_number : server_address (some (codes " 8080x")) ≡ some (codes "0.0.0.0:8080")
unfolding server_address port_of stoi scan is_space is_digit decimal
text_behind_number = refl

-- `main` takes -1 for the port 65535.
negative_port : server_address (some (codes "-1")) ≡ some (codes "0.0.0.0:65535")
unfolding server_address port_of stoi scan is_space is_digit decimal
negative_port = refl

not_a_number : server_address (some (codes "port")) ≡ none
unfolding server_address port_of stoi scan is_space is_digit
not_a_number = refl

server_address-decimal_example :
    server_address (some (decimal 10 70000)) ≡ some (codes "0.0.0.0:" ++ decimal 5 4464)
server_address-decimal_example = server_address-decimal 70000 (omega arith)

-- The server is up, serves two calls, and a signal has come already.
abbrev busy : List (ℕ × Event)
busy =
    (0, steps)
    ∷ (0, steps)
    ∷ (2, calls_in)
    ∷ (2, calls_in)
    ∷ (2, signals)
    ∷ (0, steps)
    ∷ (1, steps)
    ∷ (1, steps)
    ∷ (1, steps)
    ∷ []

run_server-Over_example : Over (run_server (busy ++ farewell 2))
unfolding run step act move
run_server-Over_example = run_server-Over busy refl

busy_server_ended : Over (run_server (busy ++ farewell 2))
unfolding run step act move
busy_server_ended = run_server_returned (busy ++ farewell 2) refl

-- A signal that comes before `pthread_sigmask` ends the process.
signal_before_mask : (run_server ((2, signals) ∷ (0, steps) ∷ [])).shared.killed ≡ true
unfolding run step act move
signal_before_mask = refl
