-- ===== src/Startup/Watcher.antt =====
-- src/greeter_callback_server_no_db2.cpp: the end of the server. `RunServer` is the main thread, its
-- watcher runs `signal_waiter`, and outside are the callers and whoever sends a signal.
-- As gRPC documents them, `Shutdown` takes no new calls and returns when the others have ended, by
-- themselves or cancelled at the deadline, and `Wait` returns when the server is shut down.
pub mod Standing
pub mod Progress
pub mod Ending
use cpp_grpc_db.Prelude.{
  ℕ, ◌+◌, ◌-◌, Bool, true, false, not, ◌&&◌, ◌==◌, List, [], ◌∷◌, if◌then◌else◌,
}
use cpp_grpc_db.Interleaving.{System, run}

-- `masked`: SIGINT and SIGTERM are blocked. `pending`: one of them has been sent since, and is not
-- taken. `down`: `server->Shutdown` has returned. `calls` counts the calls that are served.
pub record Server : Type 0 where
  pub masked : Bool
  pub built : Bool
  pub watched : Bool
  pub pending : Bool
  pub shut : Bool
  pub down : Bool
  pub watcher_ended : Bool
  pub killed : Bool
  pub calls : ℕ

pub data Pc : Type 0 where
  -- `RunServer`: about to block the signals, to start the server, to make the watcher; in `Wait`; in
  -- `join`; returned
  masking building watching waiting joining returned : Pc
  -- the watcher: not made yet; in `sigwait`; about to shut the server down; in `Shutdown`, behind it;
  -- returned
  unborn awaiting stopping draining leaving ended : Pc
  outside : Pc

pub data Event : Type 0 where
  steps signals calls_in call_ends : Event

-- A signal that is not blocked ends the process.
abbrev pub signalled : Server → Server
signalled p = if p.masked then record p { pending = true } else record p { killed = true }

abbrev pub called : Server → Server
called p = if p.built && not p.shut then record p { calls = p.calls + 1 } else p

abbrev pub sigwait : Server → Server × Pc
sigwait p = if p.pending then (record p { pending = false }, stopping) else (p, awaiting)

abbrev pub shutdown_returns : Server → Server × Pc
shutdown_returns p = if p.calls == 0 then (record p { down = true }, leaving) else (p, draining)

-- What a thread of a process that lives does next. `Wait` goes on when the server is shut down.
unfoldable pub act : Server → Pc → Event → Server × Pc
act p masking steps = (record p { masked = true }, building)
act p building steps = (record p { built = true }, watching)
act p watching steps = (record p { watched = true }, waiting)
act p waiting steps = (p, if p.down then joining else waiting)
act p joining steps = (p, if p.watcher_ended then returned else joining)
act p unborn steps = (p, if p.watched then awaiting else unborn)
act p awaiting steps = sigwait p
act p stopping steps = (record p { shut = true }, draining)
act p draining steps = shutdown_returns p
act p leaving steps = (record p { watcher_ended = true }, ended)
act p outside signals = (signalled p, outside)
act p outside calls_in = (called p, outside)
act p outside call_ends = (record p { calls = p.calls - 1 }, outside)
act p pc e = (p, pc)

unfoldable pub move : Server → Pc → Event → Server × Pc
move p pc e = let next = act p pc e in if p.killed then (p, pc) else next

abbrev pub launched : Server
launched = record {
  masked = false;
  built = false;
  watched = false;
  pending = false;
  shut = false;
  down = false;
  watcher_ended = false;
  killed = false;
  calls = 0;
}

abbrev pub run_server : List (ℕ × Event) → System Server Pc
run_server xs =
    run move (record { shared = launched; threads = masking ∷ unborn ∷ outside ∷ [] }) xs
