-- ===== src/WorkerPool/Wakeups/Tasks.antt =====
-- src/worker/WorkerPool.h: `task_cv_`, on which the workers wait for a task.
use cpp_grpc_db.Prelude.{
  ℕ, ◌+◌, ◌-◌, ◌≤◌, ◌<◌, Bool, true, false, List, [], ◌∷◌, length-append, total, ◌≡◌, refl, arith,
}
use cpp_grpc_db.Interleaving.{System, run}
use cpp_grpc_db.Interleaving.Waits
use cpp_grpc_db.Interleaving.Waits.{
  used, used_le, Signal, silent, one, all, ones, alls, Monitor, Thread, Act,
}
use cpp_grpc_db.Interleaving.Waits.Discipline.{Discipline}
use cpp_grpc_db.Interleaving.Waits.Wakeups.{sleepers}
use cpp_grpc_db.WorkerPool.{
  passes, Options, Pool, try_posting, posting, submitting, Pc, entering, waiting_space, Event,
  locks, wakes, move,
}
use cpp_grpc_db.WorkerPool.Wakeups.{
  waits_task, is_wake, task_signal, tasks, is_closed, is_closing, AnyPool, move-stays_closed,
  move-begins_closing, start_awake, owes, is_closing-start,
}

task-sleeps :
    (noticed : Bool) (p : Pool) (pc : Pc) (e : Event)
    → (waits_task pc ≡ true → is_wake noticed pc e ≡ true)
    → waits_task (move p pc e).1 ≡ true
    → (tasks (move p pc e).0 ≡ 0) × (is_closed (move p pc e).0 ≡ false)
unfolding move
task-sleeps noticed p _ _ h s = ground arith

task-gains :
    (p : Pool) (pc : Pc) (e : Event)
    → AnyPool p
    → (1 ≤ is_closing pc → is_closed p ≡ true)
    → waits_task pc ≡ false
    → is_closed (move p pc e).0 ≡ false
    → tasks (move p pc e).0 ≤ tasks p + ones (task_signal p pc e)
unfolding move task_signal
task-gains p (entering try_posting t) locks any c h o =
    ground (arith, length-append p.queue (t ∷ []))
task-gains p (entering posting t) locks any c h o = ground (arith, length-append p.queue (t ∷ []))
task-gains p (entering submitting t) locks any c h o =
    ground (arith, length-append p.queue (t ∷ []))
task-gains p (entering try_posting t) passes any c h o =
    ground (arith, length-append p.queue (t ∷ []))
task-gains p (entering posting t) passes any c h o = ground (arith, length-append p.queue (t ∷ []))
task-gains p (entering submitting t) passes any c h o =
    ground (arith, length-append p.queue (t ∷ []))
task-gains p (waiting_space k t) passes any c h o = ground (arith, length-append p.queue (t ∷ []))
task-gains p (waiting_space k t) wakes any c h o = ground (arith, length-append p.queue (t ∷ []))
task-gains p _ _ any c h o = ground arith

task-takes :
    (noticed : Bool) (p : Pool) (pc : Pc) (e : Event)
    → AnyPool p
    → waits_task pc ≡ true
    → is_wake noticed pc e ≡ true
    → waits_task (move p pc e).1 ≡ false
    → is_closed (move p pc e).0 ≡ false
    → tasks (move p pc e).0 ≤ tasks p - used noticed
unfolding move
task-takes noticed p _ _ any h f s o = ground (arith, used_le noticed)

task-closes :
    (p : Pool) (pc : Pc) (e : Event)
    → is_closed p ≡ false
    → is_closed (move p pc e).0 ≡ true
    → 1 ≤ is_closing (move p pc e).1 + alls (task_signal p pc e)
unfolding move task_signal
task-closes p _ _ h o = ground arith

task-goes_on :
    (p : Pool) (pc : Pc) (e : Event)
    → is_closing pc ≤ is_closing (move p pc e).1 + alls (task_signal p pc e)
unfolding move task_signal
task-goes_on p _ _ = ground arith

pub task-Discipline :
    Discipline move waits_task is_wake task_signal AnyPool tasks is_closed is_closing
task-Discipline = record {
  stays_fine = λ p pc e any. tt;
  sleeps = task-sleeps;
  gains = task-gains;
  takes = task-takes;
  reopens_never = move-stays_closed;
  closes = task-closes;
  goes_on_closing = task-goes_on;
  begins_closing = move-begins_closing;
}

abbrev pub after_tasks : Options → ℕ → List (ℕ × Act Event) → System (Monitor Pool) (Thread Pc)
after_tasks opts clients xs =
    run (Waits.move move waits_task is_wake task_signal) (start_awake opts clients) xs

no_tasks : (p : Pool) → tasks p ≡ 0 → p.queue ≡ []
no_tasks p h = ground arith

-- No wake-up of a worker is lost: when no thread has a notification of `task_cv_` to make and none
-- that was notified has yet to go on, a worker that sleeps for a task has an empty queue in front
-- of it, of a pool that is not stopping.
pub sleeping_worker-has_nothing :
    (opts : Options) (clients : ℕ) (xs : List (ℕ × Act Event))
    → 0 < (after_tasks opts clients xs).shared.asleep
    → (after_tasks opts clients xs).shared.notified ≡ 0
    → total owes (after_tasks opts clients xs).threads ≡ 0
    → ((after_tasks opts clients xs).shared.object.queue ≡ [])
      × ((after_tasks opts clients xs).shared.object.is_stopping ≡ false)
sleeping_worker-has_nothing opts clients xs some_asleep none_notified paid =
    let (nothing, still_open) =
      sleepers move waits_task is_wake task_signal AnyPool tasks is_closed is_closing
        task-Discipline (start_awake opts clients) xs tt (is_closing-start opts clients) refl
        some_asleep none_notified paid in
    (no_tasks (after_tasks opts clients xs).shared.object nothing, still_open)
