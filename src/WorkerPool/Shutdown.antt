-- ===== src/WorkerPool/Shutdown.antt =====
-- What holds once `shutdown` has set the flag, and once it has returned.
use cpp_grpc_db.Prelude.{
  ℕ, ◌+◌, ◌*◌, false, total-add, append-nil, ◌≤◌, ◌<◌, true, List, [], ◌++◌, some, get_elem?, ◌≡◌,
  refl, ◌∙◌, ap, arith, total, total-le, le-total, total-append, total-mul, total-replicate,
  replicate,
}
use cpp_grpc_db.Interleaving.{run-Balanced, Keeps, Follows}
use cpp_grpc_db.WorkerPool.{
  Options, Pool, try_posting, posting, submitting, Pc, away, entering, waiting_space, stopped,
  fetching, waiting_task, carrying, permitted, running, releasing, exited, Event, calls, locks,
  wakes, acquires, move, normalize, new_pool, start,
}
use cpp_grpc_db.WorkerPool.Limits.{after, runs}
use cpp_grpc_db.WorkerPool.Fifo.{accepted, taken, Drains, history, run_fifo}

-- A worker that is out of its loop; one that is still in it; a `shutdown` that has returned.
abbrev pub gone : Pc → ℕ
gone exited = 1
gone pc = 0

abbrev pub works : Pc → ℕ
works fetching = 1
works waiting_task = 1
works (carrying t) = 1
works (permitted t) = 1
works (running t) = 1
works releasing = 1
works pc = 0

abbrev pub returned : Pc → ℕ
returned stopped = 1
returned pc = 0

-- A worker leaves its loop only when the pool stops and the queue is empty, and it stays empty: no
-- producer is under the mutex any more that has found the flag unset.
abbrev Emptied : Pool → ℕ → Type 0
Emptied p n = 0 < n → (p.is_stopping ≡ true) × (p.queue ≡ []) × (p.late ≡ false)

abbrev pub Counted : Pool → ℕ → Type 0
Counted p n = p.alive ≡ n

abbrev Joined : Pool → ℕ → Type 0
Joined p n = 0 < n → p.alive ≡ 0

move-Emptied : (pc : Pc) (e : Event) → Keeps move gone Emptied pc e
unfolding move
move-Emptied away (calls k t) p n b = ground arith
move-Emptied (entering try_posting t) locks p n b = ground arith
move-Emptied (entering posting t) locks p n b = ground arith
move-Emptied (entering submitting t) locks p n b = ground arith
move-Emptied (waiting_space k t) wakes p n b = ground arith
move-Emptied (carrying t) acquires p n b = ground arith
move-Emptied _ _ p n b = ground arith

pub move-Counted : (pc : Pc) (e : Event) → Keeps move works Counted pc e
unfolding move
move-Counted away (calls k t) p n b = ground arith
move-Counted (entering try_posting t) locks p n b = ground arith
move-Counted (entering posting t) locks p n b = ground arith
move-Counted (entering submitting t) locks p n b = ground arith
move-Counted (waiting_space k t) wakes p n b = ground arith
move-Counted (carrying t) acquires p n b = ground arith
move-Counted _ _ p n b = ground arith

move-Joined : (pc : Pc) (e : Event) → Keeps move returned Joined pc e
unfolding move
move-Joined away (calls k t) p n b = ground arith
move-Joined (entering try_posting t) locks p n b = ground arith
move-Joined (entering posting t) locks p n b = ground arith
move-Joined (entering submitting t) locks p n b = ground arith
move-Joined (waiting_space k t) wakes p n b = ground arith
move-Joined (carrying t) acquires p n b = ground arith
move-Joined _ _ p n b = ground arith

-- Every worker is in its loop or out of it.
abbrev hired : Pc → ℕ
hired pc = gone pc + works pc

abbrev Staffed : ℕ → Pool → ℕ → Type 0
Staffed k p n = n ≡ k

move-Staffed : (k : ℕ) (pc : Pc) (e : Event) → Keeps move hired (Staffed k) pc e
unfolding move
move-Staffed k away (calls x t) p n b = ground arith
move-Staffed k (entering try_posting t) locks p n b = ground arith
move-Staffed k (entering posting t) locks p n b = ground arith
move-Staffed k (entering submitting t) locks p n b = ground arith
move-Staffed k (waiting_space x t) wakes p n b = ground arith
move-Staffed k (carrying t) acquires p n b = ground arith
move-Staffed k _ _ p n b = ground arith

runs-le : (pc : Pc) → runs pc ≤ works pc
runs-le (running t) = omega arith
runs-le _ = omega arith

pub total_start :
    (w : Pc → ℕ) (opts : Options) (clients k : ℕ)
    → w fetching ≡ k
    → w away ≡ 0
    → total w (start opts clients).threads ≡ k * (new_pool opts).thread_count
total_start w opts clients k f a = omega (
  arith,
  total-append w (replicate (new_pool opts).thread_count fetching) (replicate clients away),
  total-mul w (new_pool opts).thread_count k fetching f,
  total-replicate w clients away a,
)

thread_count-pos : (opts : Options) → 0 < (new_pool opts).thread_count
unfolding new_pool normalize
thread_count-pos opts = ground arith

-- Once the call of `shutdown` that set the flag has returned, every worker has left its loop, so no
-- task runs, and the queue is empty.
pub run_stopped :
    (opts : Options) (clients : ℕ) (xs : List (ℕ × Event)) (i : ℕ)
    → let s = after opts clients xs in
      get_elem? s.threads i ≡ some stopped
      → (total works s.threads ≡ 0) × (total runs s.threads ≡ 0) × (s.shared.queue ≡ [])
run_stopped opts clients xs i at =
    let s0 = start opts clients in
    let s = after opts clients xs in
    let k = (new_pool opts).thread_count in
    let zero = total_start gone opts clients 0 refl refl in
    let ret = total_start returned opts clients 0 refl refl in
    let all = total_start works opts clients 1 refl refl in
    let hire = total_start hired opts clients 1 refl refl in
    let counted : s.shared.alive ≡ total works s.threads =
      run-Balanced move works Counted move-Counted s0 xs (unfold new_pool in omega arith) in
    let joined : 0 < total returned s.threads → s.shared.alive ≡ 0 =
      run-Balanced move returned Joined move-Joined s0 xs (λ h. absurd (omega arith)) in
    let emptied : Emptied s.shared (total gone s.threads) =
      run-Balanced move gone Emptied move-Emptied s0 xs (λ h. absurd (omega arith)) in
    let staffed : total hired s.threads ≡ k =
      run-Balanced move hired (Staffed k) (move-Staffed k) s0 xs (omega arith) in
    let here = le-total returned s.threads i {x = stopped} at in
    let apart = total-add gone works s.threads in
    let idle_now : total works s.threads ≡ 0 = omega arith in
    let none_runs = total-le runs works runs-le s.threads in
    (idle_now, omega arith, (emptied (omega (arith, thread_count-pos opts))).1)

-- When the call of `shutdown` that set the flag has returned and did not ask for the queue to be
-- dropped, the workers have taken every task that the pool accepted, in the order of acceptance.
pub run_drained :
    (opts : Options) (clients : ℕ) (xs : List (ℕ × Event)) (i : ℕ)
    → get_elem? (after opts clients xs).threads i ≡ some stopped
    → Follows move Drains (start opts clients) xs
    → history accepted (start opts clients) xs ≡ history taken (start opts clients) xs
unfolding new_pool
run_drained opts clients xs i at f =
    run_fifo (start opts clients) xs f
    ∙ ap (◌++◌ (history taken (start opts clients) xs)) (run_stopped opts clients xs i at).2
    ∙ append-nil (history taken (start opts clients) xs)
