-- ===== src/Tests/Workers.antt =====
-- The worker pool.
use cpp_grpc_db.Prelude.{
  get_elem?, codes, decimal, some, ℕ, ◌+◌, ◌≤◌, List, [], ◌∷◌, ◌++◌, true, false, ◌≡◌, ◌≢◌, refl,
  arith, length, total,
}
use cpp_grpc_db.Interleaving.{System, run, step, Follows}
use cpp_grpc_db.Interleaving.Waits
use cpp_grpc_db.Interleaving.Waits.{Act, acts}
use cpp_grpc_db.WorkerPool.{
  passes, fetching, closing, joining, passed_over, Options, Pool, Pc, stopped, exited, ended,
  try_posting, posting, Event, calls, shuts_down, locks, acquires, starts, finishes, releases,
  joins, move, new_pool, start,
}
use cpp_grpc_db.WorkerPool.Wakeups.{task_signal, space_signal}
use cpp_grpc_db.WorkerPool.Wakeups.Tasks.{after_tasks, sleeping_worker-has_nothing}
use cpp_grpc_db.WorkerPool.Wakeups.Space.{after_space, sleeping_producer-has_no_space}
use cpp_grpc_db.WorkerPool.Limits.{after, runs, run_limits}
use cpp_grpc_db.WorkerPool.Fifo.{Drains, accepted, taken, seen_step, history, run_fifo}
use cpp_grpc_db.WorkerPool.Outcomes.{accepts, ends, drops, seen_at, times, run_settled}
use cpp_grpc_db.WorkerPool.Joining.{left, Returns, shutdown-Returns}
use cpp_grpc_db.WorkerPool.Names.{thread_name}
use cpp_grpc_db.WorkerPool.Shutdown.{works, run_stopped, run_drained}
use cpp_grpc_db.WorkerPool.Refusal.{run_refuses}

-- One worker, and a queue for two tasks.
abbrev options : Options
options = record { thread_count = 1; parallelism = 0; max_queue = 2; drain_on_shutdown = true }

-- Thread 1 posts 5, and thread 2 shuts the pool down; the worker, thread 0, runs the task.
abbrev working : List (ℕ × Event)
working =
    (1, calls posting 5)
    ∷ (1, locks)
    ∷ (2, shuts_down true)
    ∷ (1, calls try_posting 6)
    ∷ (2, locks)
    ∷ (0, locks)
    ∷ (0, acquires)
    ∷ (0, starts)
    ∷ (0, finishes)
    ∷ (0, releases)
    ∷ (0, locks)
    ∷ (2, joins)
    ∷ []

working_runs : (after options 2 working).threads ≡ exited ∷ ended try_posting false ∷ stopped ∷ []
unfolding run step move new_pool
working_runs = refl

run_limits_example :
    let s = after options 2 working in
    (total runs s.threads ≤ 1)
    × (s.shared.active ≡ total runs s.threads)
    × (◌≢◌ {A = ℕ} 2 0 → length s.shared.queue ≤ 2)
unfolding new_pool
run_limits_example = run_limits options 2 working (omega arith)

-- The first three events.
abbrev posted : List (ℕ × Event)
posted = (1, calls posting 5) ∷ (1, locks) ∷ (0, locks) ∷ []

posted-Follows : Follows move Drains (start options 2) posted
unfolding step move new_pool
posted-Follows = (λ pc at. ground arith, (λ pc at. ground arith, (λ pc at. ground arith, tt)))

run_fifo_example :
    [] ++ history accepted (start options 2) posted
    ≡ history taken (start options 2) posted ++ (run move (start options 2) posted).shared.queue
unfolding new_pool
run_fifo_example = run_fifo (start options 2) posted posted-Follows

run_stopped_example :
    let s = after options 2 working in
    (total works s.threads ≡ 0) × (total runs s.threads ≡ 0) × (s.shared.queue ≡ [])
unfolding run step move new_pool
run_stopped_example = run_stopped options 2 working 2 refl

-- Thread 1 has locked the mutex and tested the flag when thread 2 sets it.
abbrev stopped_inside : List (ℕ × Event)
stopped_inside = (1, calls posting 5) ∷ (2, shuts_down true) ∷ []

abbrev goes_on : List (ℕ × Event)
goes_on = (1, passes) ∷ (2, locks) ∷ (0, locks) ∷ []

accepted_late : history accepted (after options 2 stopped_inside) goes_on ≡ 5 ∷ []
unfolding run seen_step step move new_pool
accepted_late = refl

run_refuses_example :
    let s = after options 2 stopped_inside in
    ((run move s goes_on).shared.is_stopping ≡ true)
    × (length (history accepted s goes_on) ≤ 1)
    × ((i : ℕ) → get_elem? s.threads i ≡ some joining → history accepted s goes_on ≡ [])
unfolding run step move new_pool
run_refuses_example = run_refuses options 2 stopped_inside goes_on refl

-- The second call of `shutdown` returns at once, while the worker is in its loop.
abbrev both_stop : System Pool Pc
both_stop = after options 2 ((1, shuts_down true) ∷ (2, shuts_down true) ∷ [])

second_call_returns :
    (both_stop.threads ≡ fetching ∷ closing true ∷ passed_over ∷ [])
    × (total works both_stop.threads ≡ 1)
unfolding run step move new_pool total
second_call_returns = (refl, refl)

working-Follows : Follows move Drains (start options 2) working
unfolding step move new_pool
working-Follows = (
  λ pc at. ground arith,
  (
    λ pc at. ground arith,
    (
      λ pc at. ground arith,
      (
        λ pc at. ground arith,
        (
          λ pc at. ground arith,
          (
            λ pc at. ground arith,
            (
              λ pc at. ground arith,
              (
                λ pc at. ground arith,
                (
                  λ pc at. ground arith,
                  (λ pc at. ground arith, (λ pc at. ground arith, (λ pc at. ground arith, tt))),
                ),
              ),
            ),
          ),
        ),
      ),
    ),
  ),
)

-- Thread 1 posts 5 and 7, and thread 2 drops the queue; the worker has 5 by then.
abbrev dropping : List (ℕ × Event)
dropping =
    (1, calls posting 5)
    ∷ (1, locks)
    ∷ (1, calls posting 7)
    ∷ (1, locks)
    ∷ (0, locks)
    ∷ (2, shuts_down false)
    ∷ (2, locks)
    ∷ (0, acquires)
    ∷ (0, starts)
    ∷ (0, finishes)
    ∷ (0, releases)
    ∷ (0, locks)
    ∷ (2, joins)
    ∷ []

dropped_once : times (drops 7) (start options 2) dropping ≡ 1
unfolding seen_at step move new_pool
dropped_once = refl

-- The worker has 5, 7 is queued, and thread 2 joins.
abbrev joined_by_two : List (ℕ × Event)
joined_by_two =
    (1, calls posting 5)
    ∷ (1, locks)
    ∷ (1, calls posting 7)
    ∷ (1, locks)
    ∷ (0, locks)
    ∷ (2, shuts_down true)
    ∷ (2, locks)
    ∷ []

shutdown-Returns_example :
    Returns 2 (after options 2 joined_by_two) (left (after options 2 joined_by_two))
unfolding run step move new_pool
shutdown-Returns_example = shutdown-Returns options 2 joined_by_two 2 refl

run_settled_example :
    times (accepts 7) (start options 2) dropping
    ≡ times (ends 7) (start options 2) dropping + times (drops 7) (start options 2) dropping
unfolding run step move new_pool
run_settled_example = run_settled 7 options 2 dropping 2 refl

run_drained_example :
    history accepted (start options 2) working ≡ history taken (start options 2) working
unfolding run step move new_pool
run_drained_example = run_drained options 2 working 2 refl working-Follows

-- The worker waits for a task.
abbrev idle_worker : List (ℕ × Act Event)
idle_worker = (0, acts false locks) ∷ []

sleeping_worker-has_nothing_example :
    ((after_tasks options 2 idle_worker).shared.object.queue ≡ [])
    × ((after_tasks options 2 idle_worker).shared.object.is_stopping ≡ false)
unfolding run step Waits.move move new_pool task_signal total
sleeping_worker-has_nothing_example =
    sleeping_worker-has_nothing options 2 idle_worker (omega arith) refl refl

-- Thread 1 posts two tasks, and thread 2 waits with a third.
abbrev full_queue : List (ℕ × Act Event)
full_queue =
    (1, acts false (calls posting 5))
    ∷ (1, acts false locks)
    ∷ (1, acts false (calls posting 6))
    ∷ (1, acts false locks)
    ∷ (2, acts false (calls posting 7))
    ∷ (2, acts false locks)
    ∷ []

sleeping_producer-has_no_space_example :
    ((after_space options 2 full_queue).shared.object.max_queue
      ≤ length (after_space options 2 full_queue).shared.object.queue)
    × ((after_space options 2 full_queue).shared.object.is_stopping ≡ false)
unfolding run step Waits.move move new_pool space_signal total
sleeping_producer-has_no_space_example =
    sleeping_producer-has_no_space options 2 full_queue (omega arith) refl refl

thread_three : thread_name (codes "server-pool") 3 ≡ some (codes "server-pool-3")
unfolding thread_name decimal
thread_three = refl

-- The number is cut off.
long_names : thread_name (codes "background-jobs") 0 ≡ thread_name (codes "background-jobs") 1
unfolding thread_name decimal
long_names = refl
