-- ===== src/CqServer/Lifecycle.antt =====
-- src/complex_async_server_single_cq.cpp: `main`, `Run` and `Shutdown` as threads of one process: the
-- main thread, which has blocked the signals, the thread of the server, and whoever sends a signal.
-- What `server_->Shutdown` waits for is left to the schedule. A completion stays under way until its
-- object proceeds.
pub mod Early
pub mod Standing
pub mod Stopping
pub mod Late
use cpp_grpc_db.Prelude.{
  ℕ, remove_at, ◌+◌, ◌-◌, Bool, true, false, ◌&&◌, List, [], ◌∷◌, Option, none, some, if◌then◌else◌,
  length, get_elem?,
}
use cpp_grpc_db.CallData.{Library, World, Outcome, returned, threw, dangling}
use cpp_grpc_db.Interleaving.{System, run}
use cpp_grpc_db.CqServer.{Completion, empty_world, spawn_handlers}
use cpp_grpc_db.CqServer

-- `has_queue` and `has_server`: `cq_` and `server_` are set. `late` counts the operations that were
-- started on the queue behind its `Shutdown`. `aborted`: an exception has left the thread of the
-- server, and `std::terminate` has ended the process.
pub record Process : Type 0 where
  pub world : World
  pub has_queue : Bool
  pub has_server : Bool
  pub server_shut : Bool
  pub queue_shut : Bool
  pub signalled : Bool
  pub server_ended : Bool
  pub aborted : Bool
  pub late : ℕ

pub data Pc : Type 0 where
  -- the main thread: in `sigwait`; about to shut the server down, and the queue; in `join`; returned
  awaiting stopping closing joining stopped : Pc
  -- the thread of the server: about to add the queue, to start the server, to spawn the handlers; at
  -- `Next`; about to let an object proceed; behind `Run`; ended by an exception
  adding starting spawning polling : Pc
  proceeding : Completion → Pc
  ended crashed : Pc
  -- whoever sends the signal
  outside : Pc

pub data Event : Type 0 where
  steps : Event
  completes : Completion → Event
  signals : Event

-- `Next` returns false when the queue is shut down and holds no operation.
abbrev pub poll : Process → List ℕ → Process × Pc
poll p [] = if p.queue_shut then (record p { server_ended = true }, ended) else (p, polling)
poll p (tag ∷ pending) = (p, polling)

abbrev pub taken_by : Option ℕ → Completion → Pc
taken_by none c = polling
taken_by (some tag) c = proceeding c

-- The operations that `Proceed` has started, once the one that completed is gone.
abbrev pub started : World → Completion → World → ℕ
started w c v = length v.pending - length (remove_at w.pending c.place)

abbrev pub proceeded : Process → Completion → Outcome → Process × Pc
proceeded p c (returned w) =
    let more = if p.queue_shut then started p.world c w else 0 in
    (record p { world = w; late = p.late + more }, polling)
proceeded p c threw = (record p { aborted = true }, crashed)
proceeded p c dangling = (record p { aborted = true }, crashed)

-- The process once `main` has made the server's thread.
abbrev pub launched : Process
launched = record {
  world = empty_world;
  has_queue = false;
  has_server = false;
  server_shut = false;
  queue_shut = false;
  signalled = false;
  server_ended = false;
  aborted = false;
  late = 0;
}

-- What `main` does next, in a process that was not ended. The thread of the server needs no such test,
-- since it is the one that ends the process.
abbrev main_goes_on : Process → Pc → Process × Pc → Process × Pc
main_goes_on p pc next = if p.aborted then (p, pc) else next

module _ (lib : Library) where
  -- One move of one thread; an event that does not fit its program point changes nothing.
  unfoldable pub move : Process → Pc → Event → Process × Pc
  move p awaiting steps = main_goes_on p awaiting (p, if p.signalled then stopping else awaiting)
  move p stopping steps = main_goes_on p stopping (record p { server_shut = p.has_server }, closing)
  move p closing steps = main_goes_on p closing (record p { queue_shut = p.has_queue }, joining)
  move p joining steps = main_goes_on p joining (p, if p.server_ended then stopped else joining)
  move p adding steps = (record p { has_queue = true }, starting)
  move p starting steps = (record p { has_server = true }, spawning)
  move p spawning steps = (record p { world = spawn_handlers p.world }, polling)
  move p polling steps = poll p p.world.pending
  move p polling (completes c) = (p, taken_by (get_elem? p.world.pending c.place) c)
  move p (proceeding c) steps = proceeded p c (CqServer.handle_rpc lib p.world c)
  move p outside signals = (record p { signalled = true }, outside)
  move p pc e = (p, pc)

  abbrev pub main_program : List (ℕ × Event) → System Process Pc
  main_program xs =
      run move (record { shared = launched; threads = awaiting ∷ adding ∷ outside ∷ [] }) xs
