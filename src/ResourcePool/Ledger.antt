-- ===== src/ResourcePool/Ledger.antt =====
-- The counter `total_`: idle resources and those that threads own or make, never more than
-- `max_size_`.
use cpp_grpc_db.Prelude.{
  ℕ, total-replicate, sub64, replicate, ◌+◌, ◌≤◌, ◌<◌, true, false, List, [], length, ◌≡◌, refl,
  arith, size_mod, total,
}
use cpp_grpc_db.Interleaving.{System, run, run-Balanced}
use cpp_grpc_db.ResourcePool.{
  Pool, Mode, blocking, timed, trying, Pc, away, entering, waiting, validating, creating, checking,
  rolling_back, holding, returning, storing, shutdown, Event, calls, locks, wakes, move,
}

-- What a thread's program point adds to `total_`.
abbrev pub share : Pc → ℕ
share (validating m r) = 1
share (creating m) = 1
share (checking m r) = 1
share (rolling_back m e) = 1
share (holding r) = 1
share (returning r) = 1
share (storing r v) = 1
share pc = 0

-- `n` is the sum of the threads' shares.
pub record Books (p : Pool) (n : ℕ) : Type 0 where
  pub counted : p.shutting_down ≡ false → p.total ≡ length p.idle + n
  pub covered : length p.idle + n ≤ p.total
  pub bounded : p.total ≤ p.max_size
  pub some_room : 1 ≤ p.max_size
  pub word : p.max_size < size_mod
  pub closed : p.shutting_down ≡ true → p.idle ≡ []

move-Books :
    (pc : Pc) (e : Event) (p : Pool) (n : ℕ)
    → Books p (n + share pc)
    → Books (move p pc e).0 (n + share (move p pc e).1)
unfolding move shutdown
move-Books away (calls m) p n b = ground arith
move-Books (entering blocking) locks p n b = ground arith
move-Books (entering timed) locks p n b = ground arith
move-Books (entering trying) locks p n b = ground arith
move-Books _ _ p n b = ground arith

-- Every schedule keeps the books of a pool that no thread uses yet.
abbrev pub start : Pool → ℕ → System Pool Pc
start p threads = record { shared = p; threads = replicate threads away }

abbrev pub after : Pool → ℕ → List (ℕ × Event) → System Pool Pc
after p threads xs = run move (start p threads) xs

-- Whatever the threads do, in whatever order, the idle resources and those that threads own or
-- make stay within `total_`, are exactly `total_` until a shutdown, and never exceed `max_size_`,
-- so that no update of the counter wraps.
pub run-Books :
    (p : Pool) (threads : ℕ) (xs : List (ℕ × Event))
    → Books p 0
    → Books (after p threads xs).shared (total share (after p threads xs).threads)
run-Books p threads xs b =
    run-Balanced move share Books (λ pc e p n. move-Books pc e p n) (start p threads) xs
      (rw (total-replicate share threads away refl) b)

-- The observers, under the mutex.
unfoldable pub in_use : Pool → ℕ
in_use p = sub64 p.total (length p.idle)

-- Until a shutdown `in_use()` is the number of resources that threads own or make.
pub in_use-run :
    (p : Pool) (threads : ℕ) (xs : List (ℕ × Event))
    → Books p 0
    → let s = after p threads xs in
      s.shared.shutting_down ≡ false → in_use s.shared ≡ total share s.threads
unfolding in_use
in_use-run p threads xs b open_yet = ground (arith, run-Books p threads xs b)

-- `shutdown` destroys the idle resources and leaves them in `total_`: from then on `in_use()`
-- counts them as lent.
pub in_use-shutdown :
    (p : Pool) (n : ℕ)
    → Books p n
    → p.shutting_down ≡ false
    → in_use (shutdown p) ≡ in_use p + length p.idle
unfolding in_use shutdown
in_use-shutdown p n b o = ground arith

-- A thread waits on only while every resource that the pool may have is with some thread.
pub waiting_is_full :
    (p : Pool) (threads : ℕ) (xs : List (ℕ × Event)) (m : Mode)
    → Books p 0
    → let s = after p threads xs in
      (move s.shared (waiting m) wakes).1 ≡ waiting m
      → (total share s.threads ≡ s.shared.max_size) × (1 ≤ total share s.threads)
unfolding move
waiting_is_full p threads xs m b w = ground (arith, run-Books p threads xs b)
