-- ===== src/WorkerPool/Fifo.antt =====
-- The order in which tasks leave the queue.
use cpp_grpc_db.Prelude.{
  ℕ, true, false, List, [], ◌∷◌, ◌++◌, none, some, get_elem?, ◌≡◌, sym, ap, ◌∙◌, arith,
  append_assoc, append-nil, Option-cases, inl, inr,
}
use cpp_grpc_db.Interleaving.{System, step, run, Follows}
use cpp_grpc_db.WorkerPool.{
  Pool, try_posting, posting, submitting, Pc, away, ended, entering, waiting_space, closing,
  fetching, waiting_task, carrying, Event, calls, locks, acquires, move,
}

-- The task that a move puts into the queue: the call ends with `true`.
abbrev pub accepted : Pc → Pc → List ℕ
accepted (entering k t) (ended k' true) = t ∷ []
accepted (waiting_space k t) (ended k' true) = t ∷ []
accepted pc pc' = []

-- The task that a move takes out of it: a worker has it.
abbrev pub taken : Pc → Pc → List ℕ
taken fetching (carrying t) = t ∷ []
taken waiting_task (carrying t) = t ∷ []
taken pc pc' = []

-- No thread drops the queue.
abbrev pub Drains : Pool → Pc → Event → Type 0
Drains p (closing false) e = ⊥
Drains p pc e = Unit

move_fifo :
    (pc : Pc) (e : Event) (p : Pool)
    → Drains p pc e
    → p.queue ++ accepted pc (move p pc e).1 ≡ taken pc (move p pc e).1 ++ (move p pc e).0.queue
unfolding move
move_fifo away (calls k t) p d = ground (arith, append-nil p.queue)
move_fifo (entering try_posting t) locks p d = ground (arith, append-nil p.queue)
move_fifo (entering posting t) locks p d = ground (arith, append-nil p.queue)
move_fifo (entering submitting t) locks p d = ground (arith, append-nil p.queue)
move_fifo (carrying t) acquires p d = ground (arith, append-nil p.queue)
move_fifo (closing false) e p d = absurd d
move_fifo (closing true) e p d = ground (arith, append-nil p.queue)
move_fifo _ _ p d = ground (arith, append-nil p.queue)

-- What a schedule puts into the queue and takes out of it, in order.
module _ (seen : Pc → Pc → List ℕ) where
  unfoldable pub seen_step : System Pool Pc → ℕ → Event → List ℕ
  seen_step s i e = elim (get_elem? s.threads i) [
    | none ↦ []
    | some pc ↦ seen pc (move s.shared pc e).1
  ]

  abbrev pub history : System Pool Pc → List (ℕ × Event) → List ℕ
  history s [] = []
  history s ((i, e) ∷ xs) = seen_step s i e ++ history (step move s (i, e)) xs

step_fifo :
    (s : System Pool Pc) (i : ℕ) (e : Event)
    → ((pc : Pc) → get_elem? s.threads i ≡ some pc → Drains s.shared pc e)
    → s.shared.queue ++ seen_step accepted s i e
      ≡ seen_step taken s i e ++ (step move s (i, e)).shared.queue
unfolding step seen_step
step_fifo s i e d = elim (Option-cases (get_elem? s.threads i)) [
  | inl gone ↦ rw (gone, seen_step, step) (append-nil s.shared.queue)
  | inr (pc, at) ↦ rw (at, seen_step, step) (move_fifo pc e s.shared (d pc at))
]

-- As long as no thread shuts the pool down without draining, the workers take the tasks in the
-- order in which `try_post`, `post` and `submit` accepted them, each once: what was queued and
-- accepted is what was taken and is queued.
pub run_fifo :
    (s : System Pool Pc) (xs : List (ℕ × Event))
    → Follows move Drains s xs
    → s.shared.queue ++ history accepted s xs ≡ history taken s xs ++ (run move s xs).shared.queue
unfolding run
run_fifo s [] f = append-nil s.shared.queue
run_fifo s ((i, e) ∷ xs) f =
    let t = step move s (i, e) in
    let one = step_fifo s i e f.0 in
    let rest = run_fifo t xs f.1 in
    let ins = history accepted t xs in
    sym (append_assoc s.shared.queue (seen_step accepted s i e) ins)
    ∙ ap (λ q. q ++ ins) one
    ∙ append_assoc (seen_step taken s i e) t.shared.queue ins
    ∙ ap (◌++◌ (seen_step taken s i e)) rest
    ∙ sym (append_assoc (seen_step taken s i e) (history taken t xs) (run move t xs).shared.queue)
