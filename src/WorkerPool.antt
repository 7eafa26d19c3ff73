-- ===== src/WorkerPool.antt =====
-- src/worker/WorkerPool.h: `worker::WorkerPool`. The worker threads, the producers and the thread
-- that shuts the pool down share one pool; what a thread does under `mutex_` is one move, and so
-- is each operation on an atomic or on the semaphore. But `is_stopping_` is set without the mutex,
-- also while a producer holds it that has found the flag unset: this producer goes on and puts its
-- task into the queue behind the flag, by `passes`, and `late` says that this may still happen. It
-- is over once a thread locks the mutex, since the producer has left it then. A task is named by a
-- number; what it throws is caught, and leaves no trace. Notifications let a waiting
-- thread test its predicate again; which of them are made is said in Wakeups.
pub mod Limits
pub mod Fifo
pub mod Shutdown
pub mod Refusal
pub mod Outcomes
pub mod Joining
pub mod Names
pub mod Wakeups
use cpp_grpc_db.Prelude.{
  ℕ, zero, suc, ◌+◌, ◌-◌, Bool, true, false, not, ◌&&◌, ◌||◌, List, [], ◌∷◌, ◌++◌, ltb, leb, ◌==◌,
  if◌then◌else◌, length, replicate, inc64, dec64,
}
use cpp_grpc_db.Interleaving.{System}

pub record Options : Type 0 where
  pub thread_count : ℕ
  pub parallelism : ℕ
  pub max_queue : ℕ
  pub drain_on_shutdown : Bool

unfoldable pub normalize : Options → Options
normalize o =
    let threads = if o.thread_count == 0 then 1 else o.thread_count in
    let limit = if o.parallelism == 0 then threads else o.parallelism in
    record o { thread_count = threads; parallelism = if limit == 0 then 1 else limit }

-- The head of `queue` is `queue_.front()`; `alive` is the number of threads in `threads_` that
-- have not ended.
pub record Pool : Type 0 where
  pub options : Options
  pub open options use {thread_count, parallelism, max_queue}
  pub queue : List ℕ
  pub permits : ℕ
  pub active : ℕ
  pub is_stopping : Bool
  pub drain : Bool
  pub alive : ℕ
  pub late : Bool

-- `try_post`, `post`, `submit`.
pub data Kind : Type 0 where
  try_posting posting submitting : Kind

pub data Pc : Type 0 where
  -- a client outside the pool; a call has ended, with the task enqueued or not (`submit` throws)
  away : Pc
  ended : Kind → Bool → Pc
  -- a producer about to lock, or that has locked and tested; in `space_cv_.wait`, or behind it
  entering waiting_space : Kind → ℕ → Pc
  -- in `shutdown`: about to lock; joining the workers; returned; returned without waiting, since
  -- another call had set the flag
  closing : Bool → Pc
  joining stopped passed_over : Pc
  -- a worker about to lock; in `task_cv_.wait`; with a task, before and behind the semaphore, and
  -- running it; about to release the semaphore; out of its loop
  fetching waiting_task : Pc
  carrying permitted running : ℕ → Pc
  releasing exited : Pc

pub data Event : Type 0 where
  calls : Kind → ℕ → Event
  shuts_down : Bool → Event
  locks wakes passes : Event
  -- the steps of a worker, and the join of the thread that shuts down
  acquires starts finishes releases joins : Event

-- `queue_.emplace_back(std::move(t)); task_cv_.notify_one(); return true;`
emplace : Pool → Kind → ℕ → Pool × Pc
emplace p k t = (record p { queue = p.queue ++ t ∷ [] }, ended k true)

-- `try_enqueue`.
try_enqueue : Pool → ℕ → Pool × Pc
try_enqueue p t =
    if p.is_stopping
    then (p, ended try_posting false)
    else if not (p.max_queue == 0) && leb p.max_queue (length p.queue)
    then (p, ended try_posting false)
    else emplace p try_posting t

-- The wait of `enqueue_blocking`, and what follows it.
wait_space : Pool → Kind → ℕ → Pool × Pc
wait_space p k t =
    if p.is_stopping
    then (p, ended k false)
    else if ltb (length p.queue) p.max_queue
    then emplace p k t
    else (p, waiting_space k t)

enqueue_blocking : Pool → Kind → ℕ → Pool × Pc
enqueue_blocking p k t =
    if p.is_stopping
    then (p, ended k false)
    else if not (p.max_queue == 0)
    then wait_space p k t
    else emplace p k t

enqueue : Pool → Kind → ℕ → Pool × Pc
enqueue p try_posting t = try_enqueue p t
enqueue p k t = enqueue_blocking p k t

-- `try_post`, `post` and `submit` up to the lock.
call : Pool → Kind → ℕ → Pool × Pc
call p k t = if p.is_stopping then (p, ended k false) else (p, entering k t)

-- A thread gets the mutex.
locked : Pool → Pool
locked p = record p { late = false }

-- A producer that held the mutex and had tested the flag when it was set: the rest of `try_enqueue`
-- and of `enqueue_blocking`. Where the queue is full, the first returns false, and the wait of the
-- second sees the flag.
pass : Pool → Kind → ℕ → Pool × Pc
pass p k t =
    if not (p.max_queue == 0) && leb p.max_queue (length p.queue)
    then (locked p, ended k false)
    else emplace (locked p) k t

-- `shutdown`: the exchange, which a second call loses; what is done under the mutex; the join.
request_stop : Pool → Bool → Pool × Pc
request_stop p drain =
    if p.is_stopping
    then (p, passed_over)
    else (record p { is_stopping = true; late = true }, closing drain)

close : Pool → Bool → Pool × Pc
close p drain = (record p { drain = drain; queue = if not drain then [] else p.queue }, joining)

-- One round of `worker_loop` under the mutex, the predicate of the wait included.
fetch : Pool → List ℕ → Pool × Pc
fetch p [] = if p.is_stopping then (record p { alive = p.alive - 1 }, exited) else (p, waiting_task)
fetch p (t ∷ rest) = (record p { queue = rest }, carrying t)

-- `permits_.acquire()` blocks at 0.
acquire_permit : Pool → ℕ → ℕ → Pool × Pc
acquire_permit p zero t = (p, carrying t)
acquire_permit p (suc permits) t = (record p { permits = permits }, permitted t)

-- One move of one thread; an event that does not fit its program point changes nothing.
unfoldable pub move : Pool → Pc → Event → Pool × Pc
unfolding emplace try_enqueue wait_space enqueue_blocking enqueue call locked pass request_stop
    close fetch acquire_permit
move p away (calls k t) = call p k t
move p away (shuts_down drain) = request_stop p drain
move p (ended k b) (calls k' t) = call p k' t
move p (ended k b) (shuts_down drain) = request_stop p drain
move p passed_over (calls k t) = call p k t
move p passed_over (shuts_down drain) = request_stop p drain
move p (entering k t) locks = enqueue (locked p) k t
move p (entering k t) passes = if p.late then pass p k t else enqueue (locked p) k t
move p (waiting_space k t) wakes = wait_space (locked p) k t
move p (waiting_space k t) passes = if p.late then pass p k t else wait_space (locked p) k t
move p (closing drain) locks = close (locked p) drain
move p joining joins = if p.alive == 0 then (p, stopped) else (p, joining)
move p fetching locks = fetch (locked p) p.queue
move p waiting_task wakes = fetch (locked p) p.queue
move p (carrying t) acquires = acquire_permit p p.permits t
move p (permitted t) starts = (record p { active = inc64 p.active }, running t)
move p (running t) finishes = (record p { active = dec64 p.active }, releasing)
move p releasing releases = (record p { permits = p.permits + 1 }, fetching)
move p pc e = (p, pc)

-- The constructor with `start_threads`.
unfoldable pub new_pool : Options → Pool
unfolding normalize
new_pool opts =
    let o = normalize opts in
    record {
      options = o;
      queue = [];
      permits = o.parallelism;
      active = 0;
      is_stopping = false;
      drain = o.drain_on_shutdown;
      alive = o.thread_count;
      late = false;
    }

-- The workers of a new pool, and its clients.
abbrev pub start : Options → ℕ → System Pool Pc
start opts clients = record {
  shared = new_pool opts;
  threads = replicate (new_pool opts).thread_count fetching ++ replicate clients away;
}
