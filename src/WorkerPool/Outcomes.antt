-- ===== src/WorkerPool/Outcomes.antt =====
-- What becomes of the tasks, whether the pool is shut down draining or not.
use cpp_grpc_db.Prelude.{
  ℕ, ◌+◌, ◌≤◌, false, List, [], ◌∷◌, none, some, get_elem?, total, total-set, le-total, count,
  count-append, one_if, ◌≡◌, refl, ap, arith, Option-cases, inl, inr, total-append, total-replicate,
  total-le, replicate,
}
use cpp_grpc_db.Interleaving.{System, step, run}
use cpp_grpc_db.WorkerPool.{
  Options, Pool, try_posting, posting, submitting, Pc, away, entering, waiting_space, closing,
  stopped, fetching, carrying, permitted, running, Event, calls, locks, wakes, acquires, passes,
  finishes, move, new_pool, start,
}
use cpp_grpc_db.WorkerPool.Fifo.{accepted}
use cpp_grpc_db.WorkerPool.Limits.{after}
use cpp_grpc_db.WorkerPool.Shutdown.{works, run_stopped}

module _ (task : ℕ) where
  -- How often a worker has the task.
  abbrev pub holds : Pc → ℕ
  holds (carrying t) = one_if task t
  holds (permitted t) = one_if task t
  holds (running t) = one_if task t
  holds pc = 0

  -- How often a move accepts the task, ends its run, or drops it from the queue.
  abbrev pub accepts : Pool → Pc → Event → ℕ
  accepts p pc e = count task (accepted pc (move p pc e).1)

  abbrev pub ends : Pool → Pc → Event → ℕ
  ends p (running t) finishes = one_if task t
  ends p pc e = 0

  abbrev pub drops : Pool → Pc → Event → ℕ
  drops p (closing false) locks = count task p.queue
  drops p pc e = 0

  move_settles :
      (pc : Pc) (e : Event) (p : Pool)
      → count task p.queue + holds pc + accepts p pc e
        ≡ ends p pc e + drops p pc e + count task (move p pc e).0.queue + holds (move p pc e).1
  unfolding move
  move_settles away (calls k t) p = ground arith
  move_settles (entering try_posting t) locks p = ground (arith, count-append task p.queue (t ∷ []))
  move_settles (entering posting t) locks p = ground (arith, count-append task p.queue (t ∷ []))
  move_settles (entering submitting t) locks p = ground (arith, count-append task p.queue (t ∷ []))
  move_settles (entering try_posting t) passes p =
      ground (arith, count-append task p.queue (t ∷ []))
  move_settles (entering posting t) passes p = ground (arith, count-append task p.queue (t ∷ []))
  move_settles (entering submitting t) passes p = ground (arith, count-append task p.queue (t ∷ []))
  move_settles (waiting_space k t) passes p = ground (arith, count-append task p.queue (t ∷ []))
  move_settles (waiting_space k t) wakes p = ground (arith, count-append task p.queue (t ∷ []))
  move_settles (carrying t) acquires p = ground arith
  move_settles _ _ p = ground arith

-- How often a schedule does something to a task.
module _ (seen : Pool → Pc → Event → ℕ) where
  unfoldable pub seen_at : System Pool Pc → ℕ → Event → ℕ
  seen_at s i e = elim (get_elem? s.threads i) [ none ↦ 0 | some pc ↦ seen s.shared pc e ]

  abbrev pub times : System Pool Pc → List (ℕ × Event) → ℕ
  times s [] = 0
  times s ((i, e) ∷ xs) = seen_at s i e + times (step move s (i, e)) xs

module _ (task : ℕ) where
  -- How often the task is queued or with a worker.
  abbrev under_way : System Pool Pc → ℕ
  under_way s = count task s.shared.queue + total (holds task) s.threads

  step_settles :
      (s : System Pool Pc) (i : ℕ) (e : Event)
      → under_way s + seen_at (accepts task) s i e
        ≡ seen_at (ends task) s i e + seen_at (drops task) s i e + under_way (step move s (i, e))
  unfolding step seen_at
  step_settles s i e = elim (Option-cases (get_elem? s.threads i)) [
    | inl gone ↦ rw (gone, seen_at, step) (omega arith)
    | inr (pc, at) ↦
        let one = move_settles task pc e s.shared in
        let heavy = le-total (holds task) s.threads i {x = pc} at in
        let others = total-set (holds task) s.threads i (move s.shared pc e).1 {x = pc} at in
        rw (at, seen_at, step) (omega (arith, one, heavy, others))
  ]

  run_settles :
      (s : System Pool Pc) (xs : List (ℕ × Event))
      → under_way s + times (accepts task) s xs
        ≡ times (ends task) s xs + times (drops task) s xs + under_way (run move s xs)
  unfolding run
  run_settles s [] = omega arith
  run_settles s ((i, e) ∷ xs) =
      omega (arith, step_settles s i e, run_settles (step move s (i, e)) xs)

  holds-works : (pc : Pc) → holds task pc ≤ works pc
  holds-works (carrying t) = ground arith
  holds-works (permitted t) = ground arith
  holds-works (running t) = ground arith
  holds-works _ = omega arith

  -- In every schedule of a new pool: when the call of `shutdown` that set the flag has returned,
  -- draining or not, a task has been run to its end or dropped from the queue exactly as often as a
  -- call accepted it.
  pub run_settled :
      (opts : Options) (clients : ℕ) (xs : List (ℕ × Event)) (i : ℕ)
      → get_elem? (after opts clients xs).threads i ≡ some stopped
      → times (accepts task) (start opts clients) xs
        ≡ times (ends task) (start opts clients) xs + times (drops task) (start opts clients) xs
  unfolding new_pool
  run_settled opts clients xs i at =
      let s0 = start opts clients in
      let s = after opts clients xs in
      let (idle, quiet, empty) = run_stopped opts clients xs i at in
      let none_held = total-le (holds task) works holds-works s.threads in
      let none_queued : count task s.shared.queue ≡ 0 = ap (count task) empty in
      let none_first : total (holds task) s0.threads ≡ 0 = omega (
        arith,
        total-append (holds task) (replicate (new_pool opts).thread_count fetching)
            (replicate clients away),
        total-replicate (holds task) (new_pool opts).thread_count fetching refl,
        total-replicate (holds task) clients away refl,
      ) in
      omega (arith, run_settles s0 xs, none_held, none_queued, none_first, idle)
