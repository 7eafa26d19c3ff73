-- ===== src/WorkerPool/Wakeups.antt =====
-- `task_cv_` and `space_cv_`: what the moves notify, and that no wake-up is lost on either. The
-- workers wait on the first for a task, the producers on the second for space in the queue; each is
-- looked at on its own. `shutdown` notifies all of both once it has had the mutex. The `stop_callback`
-- of a worker notifies all once more, when `shutdown` requests the stop; it is left out.
pub mod Tasks
pub mod Space
use cpp_grpc_db.Prelude.{
  ℕ, ◌+◌, ◌-◌, ◌≤◌, ◌<◌, Bool, true, false, not, List, [], ◌∷◌, length, length-append, replicate,
  ◌==◌, if◌then◌else◌, total, ◌≡◌, refl, arith, map, total-append, total-map, total-replicate,
}
use cpp_grpc_db.Interleaving.{System, run}
use cpp_grpc_db.Interleaving.Waits
use cpp_grpc_db.Interleaving.Waits.{Signal, silent, one, all, ones, alls, Monitor, Thread, Act}
use cpp_grpc_db.Interleaving.Waits.Discipline.{Discipline}
use cpp_grpc_db.Interleaving.Waits.Wakeups.{sleepers}
use cpp_grpc_db.WorkerPool.{
  Options, Pool, Kind, try_posting, posting, submitting, Pc, away, ended, entering, waiting_space,
  closing, joining, fetching, waiting_task, carrying, Event, calls, shuts_down, locks, wakes,
  passes, joins, acquires, move, start, new_pool,
}

abbrev pub waits_task : Pc → Bool
waits_task waiting_task = true
waits_task pc = false

abbrev pub waits_space : Pc → Bool
waits_space (waiting_space k t) = true
waits_space pc = false

abbrev pub is_wake : Bool → Pc → Event → Bool
is_wake noticed pc wakes = true
is_wake noticed (waiting_space k t) passes = true
is_wake noticed pc e = false

-- `task_cv_.notify_one()` behind a task that was put into the queue.
abbrev pub put : Pc → Signal
put (ended k true) = one
put pc = silent

unfoldable pub task_signal : Pool → Pc → Event → Signal
unfolding move
task_signal p (entering k t) locks = put (move p (entering k t) locks).1
task_signal p (entering k t) passes = put (move p (entering k t) passes).1
task_signal p (waiting_space k t) wakes = put (move p (waiting_space k t) wakes).1
task_signal p (waiting_space k t) passes = put (move p (waiting_space k t) passes).1
task_signal p (closing drain) locks = all
task_signal p pc e = silent

-- `space_cv_.notify_one()` behind a task that was taken out of a bounded queue.
abbrev pub taken : Pool → List ℕ → Signal
taken p [] = silent
taken p (t ∷ rest) = if not (p.max_queue == 0) then one else silent

unfoldable pub space_signal : Pool → Pc → Event → Signal
space_signal p fetching locks = taken p p.queue
space_signal p waiting_task wakes = taken p p.queue
space_signal p (closing drain) locks = all
space_signal p pc e = silent

abbrev pub tasks : Pool → ℕ
tasks p = length p.queue

abbrev pub space : Pool → ℕ
space p = p.max_queue - length p.queue

abbrev pub is_closed : Pool → Bool
is_closed p = p.is_stopping

-- The thread that has set the flag is about to notify all.
abbrev pub is_closing : Pc → ℕ
is_closing (closing drain) = 1
is_closing pc = 0

abbrev pub AnyPool : Pool → Type 0
AnyPool p = Unit

pub move-stays_closed :
    (p : Pool) (pc : Pc) (e : Event) → is_closed (move p pc e).0 ≡ false → is_closed p ≡ false
unfolding move
move-stays_closed p _ _ h = ground arith

-- The thread that sets the flag is on its way to notify all.
pub move-begins_closing :
    (p : Pool) (pc : Pc) (e : Event)
    → is_closing pc ≡ 0
    → 1 ≤ is_closing (move p pc e).1
    → is_closed (move p pc e).0 ≡ true
unfolding move
move-begins_closing p _ _ h o = ground arith

abbrev pub awake : Pc → Thread Pc
awake pc = record { pc = pc; owes = silent }

-- The threads of a pool with one of its condition variables.
abbrev pub start_awake : Options → ℕ → System (Monitor Pool) (Thread Pc)
start_awake opts clients = record {
  shared = record { object = (start opts clients).shared; asleep = 0; notified = 0 };
  threads = map awake (start opts clients).threads;
}

abbrev pub owes : Thread Pc → ℕ
owes t = is_closing t.pc + (ones t.owes + alls t.owes)

pub is_closing-start :
    (opts : Options) (clients : ℕ)
    → total (λ (t : Thread Pc). is_closing t.pc) (start_awake opts clients).threads ≡ 0
is_closing-start opts clients = omega (
  arith,
  total-map (λ (t : Thread Pc). is_closing t.pc) awake (start opts clients).threads,
  total-append is_closing (replicate (new_pool opts).thread_count fetching)
      (replicate clients away),
  total-replicate is_closing (new_pool opts).thread_count fetching refl,
  total-replicate is_closing clients away refl,
)
