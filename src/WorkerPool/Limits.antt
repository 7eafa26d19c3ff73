-- ===== src/WorkerPool/Limits.antt =====
-- The semaphore, the counter of running tasks and the bound of the queue.
use cpp_grpc_db.Prelude.{
  ℕ, ◌+◌, ◌%◌, ◌≤◌, ◌<◌, List, [], ◌∷◌, length, length-append, ◌≡◌, ◌≢◌, ap, subst, refl, arith,
  size_mod, total, total-le, total-append, total-replicate, replicate,
}
use cpp_grpc_db.Interleaving.{System, run, run-Balanced, Keeps}
use cpp_grpc_db.WorkerPool.{
  Options, Pool, try_posting, posting, submitting, Pc, away, entering, waiting_space, fetching,
  carrying, permitted, running, releasing, Event, calls, locks, wakes, acquires, passes, move,
  normalize, new_pool, start,
}

-- A permit of the semaphore is with the thread.
abbrev pub holds : Pc → ℕ
holds (permitted t) = 1
holds (running t) = 1
holds releasing = 1
holds pc = 0

-- A task of the client's runs.
abbrev pub runs : Pc → ℕ
runs (running t) = 1
runs pc = 0

abbrev pub Permits : Pool → ℕ → Type 0
Permits p n = (p.permits + n ≡ p.parallelism)

pub move-Permits : (pc : Pc) (e : Event) → Keeps move holds Permits pc e
unfolding move
move-Permits away (calls k t) p n b = ground arith
move-Permits (entering try_posting t) locks p n b = ground arith
move-Permits (entering posting t) locks p n b = ground arith
move-Permits (entering submitting t) locks p n b = ground arith
move-Permits (carrying t) acquires p n b = ground arith
move-Permits _ _ p n b = ground arith

abbrev Active : Pool → ℕ → Type 0
Active p n = p.active ≡ n % size_mod

move-Active : (pc : Pc) (e : Event) → Keeps move runs Active pc e
unfolding move
move-Active away (calls k t) p n b = ground arith
move-Active (entering try_posting t) locks p n b = ground arith
move-Active (entering posting t) locks p n b = ground arith
move-Active (entering submitting t) locks p n b = ground arith
move-Active (carrying t) acquires p n b = ground arith
move-Active _ _ p n b = ground arith

abbrev Bounded : Pool → ℕ → Type 0
Bounded p n = p.max_queue ≢ 0 → length p.queue ≤ p.max_queue

move-Bounded : (pc : Pc) (e : Event) → Keeps move runs Bounded pc e
unfolding move
move-Bounded away (calls k t) p n b = ground arith
move-Bounded (entering try_posting t) locks p n b = ground (arith, length-append p.queue (t ∷ []))
move-Bounded (entering posting t) locks p n b = ground (arith, length-append p.queue (t ∷ []))
move-Bounded (entering submitting t) locks p n b = ground (arith, length-append p.queue (t ∷ []))
move-Bounded (entering try_posting t) passes p n b = ground (arith, length-append p.queue (t ∷ []))
move-Bounded (entering posting t) passes p n b = ground (arith, length-append p.queue (t ∷ []))
move-Bounded (entering submitting t) passes p n b = ground (arith, length-append p.queue (t ∷ []))
move-Bounded (waiting_space k t) passes p n b = ground (arith, length-append p.queue (t ∷ []))
move-Bounded (waiting_space k t) wakes p n b = ground (arith, length-append p.queue (t ∷ []))
move-Bounded (carrying t) acquires p n b = ground arith
move-Bounded _ _ p n b = ground arith

-- The options never change.
abbrev pub Configured : Options → Pool → ℕ → Type 0
Configured o p n = p.options ≡ o

pub move-Configured : (o : Options) (pc : Pc) (e : Event) → Keeps move runs (Configured o) pc e
unfolding move
move-Configured o away (calls k t) p n b = ground arith
move-Configured o (entering try_posting t) locks p n b = ground arith
move-Configured o (entering posting t) locks p n b = ground arith
move-Configured o (entering submitting t) locks p n b = ground arith
move-Configured o (carrying t) acquires p n b = ground arith
move-Configured o _ _ p n b = ground arith

abbrev pub after : Options → ℕ → List (ℕ × Event) → System Pool Pc
after opts clients xs = run move (start opts clients) xs

total_start :
    (w : Pc → ℕ) (opts : Options) (clients : ℕ)
    → w fetching ≡ 0
    → w away ≡ 0
    → total w (start opts clients).threads ≡ 0
total_start w opts clients f a = omega (
  arith,
  total-append w (replicate (new_pool opts).thread_count fetching) (replicate clients away),
  total-replicate w (new_pool opts).thread_count fetching f,
  total-replicate w clients away a,
)

runs-le : (pc : Pc) → runs pc ≤ holds pc
runs-le (running t) = omega arith
runs-le _ = omega arith

-- In every schedule no more than `parallelism` tasks run at the same time, `active()` is their
-- number, and a bounded queue never holds more than `max_queue` tasks.
pub run_limits :
    (opts : Options) (clients : ℕ) (xs : List (ℕ × Event))
    → let o = (new_pool opts).options in
      let s = after opts clients xs in
      o.parallelism < size_mod
      → (total runs s.threads ≤ o.parallelism)
        × (s.shared.active ≡ total runs s.threads)
        × (o.max_queue ≢ 0 → length s.shared.queue ≤ o.max_queue)
run_limits opts clients xs small =
    let s0 = start opts clients in
    let s = after opts clients xs in
    let zero_runs = total_start runs opts clients refl refl in
    let same : s.shared.options ≡ (new_pool opts).options =
      run-Balanced move runs (Configured (new_pool opts).options)
        (move-Configured (new_pool opts).options) s0 xs refl in
    let permits : s.shared.permits + total holds s.threads ≡ s.shared.parallelism =
      run-Balanced move holds Permits move-Permits s0 xs
        (rw (total_start holds opts clients refl refl) (unfold new_pool in omega arith)) in
    let active : s.shared.active ≡ total runs s.threads % size_mod =
      run-Balanced move runs Active move-Active s0 xs (rw zero_runs (unfold new_pool in refl)) in
    let bounded : s.shared.max_queue ≢ 0 → length s.shared.queue ≤ s.shared.max_queue =
      run-Balanced move runs Bounded move-Bounded s0 xs (unfold new_pool in λ h. omega arith) in
    let fewer = total-le runs holds runs-le s.threads in
    let limit : s.shared.parallelism ≡ (new_pool opts).parallelism = ap (λ o. o.parallelism) same in
    let room : s.shared.max_queue ≡ (new_pool opts).max_queue = ap (λ o. o.max_queue) same in
    (omega arith, omega arith, subst (λ m. m ≢ 0 → length s.shared.queue ≤ m) room bounded)

-- Whatever the options say, the pool has a thread and lets a task run; what was given and is not 0
-- stays, and options that are normal already stay as they are.
pub normalize_lem :
    (o : Options)
    → (0 < (normalize o).thread_count)
      × (0 < (normalize o).parallelism)
      × (0 < o.thread_count → (normalize o).thread_count ≡ o.thread_count)
      × (0 < o.parallelism → (normalize o).parallelism ≡ o.parallelism)
      × (normalize (normalize o) ≡ normalize o)
unfolding normalize
normalize_lem o = ground arith
