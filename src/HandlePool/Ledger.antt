-- ===== src/HandlePool/Ledger.antt =====
-- The counter `total_created_`, in schedules where `acquire` meets no rejection of a new resource.
use cpp_grpc_db.Prelude.{
  ℕ, replicate, total-replicate, ◌+◌, ◌≤◌, ◌<◌, Bool, true, false, not, List, length, ◌≡◌, refl,
  arith, size_mod, total,
}
use cpp_grpc_db.Callbacks.{is_ok, threw, null, made}
use cpp_grpc_db.Interleaving.{System, run, Follows, Follows-Ledger, run-Balanced_following, Keeps}
use cpp_grpc_db.HandlePool.{
  Pool, acquiring, trying, Pc, away, entering, validating, creating, checking, rolling_back,
  rolling_back_twice, holding, returning, storing, draining, Event, calls, locks, wakes, times_out,
  validates, makes, shutdown, move,
}

-- What a thread's program point adds to `total_created_`.
abbrev pub share : Pc → ℕ
share (validating m r) = 1
share (creating m) = 1
share (checking m r) = 1
share (rolling_back o) = 1
share rolling_back_twice = 2
share (holding r) = 1
share (returning r) = 1
share (storing r v) = 1
share pc = 0

-- `acquire` hears that the resource which it has just made is invalid.
abbrev pub rejects_new : Pc → Event → Bool
rejects_new (checking acquiring r) (validates v) = not (is_ok v)
rejects_new pc e = false

pub record Books (p : Pool) (n : ℕ) : Type 0 where
  pub counted : p.is_shutdown ≡ false → p.total_created ≡ length p.available + n
  pub covered : length p.available + n ≤ p.total_created
  pub bounded : p.total_created ≤ p.max_size
  pub word : p.max_size < size_mod

-- The threads in the wait of `shutdownAndWait`.
abbrev drains : Pc → ℕ
drains draining = 1
drains pc = 0

abbrev DrainsDown : Pool → ℕ → Type 0
DrainsDown p n = 0 < n → p.is_shutdown ≡ true

move-DrainsDown : (pc : Pc) (e : Event) → Keeps move drains DrainsDown pc e
unfolding move shutdown
move-DrainsDown away (calls m) p n b = b
move-DrainsDown (entering acquiring) locks p n b = ground arith
move-DrainsDown (entering trying) locks p n b = ground arith
move-DrainsDown (validating acquiring r) (validates v) p n b = ground arith
move-DrainsDown (validating trying r) (validates v) p n b = ground arith
move-DrainsDown (creating acquiring) (makes threw) p n b = ground arith
move-DrainsDown (creating acquiring) (makes null) p n b = ground arith
move-DrainsDown (creating acquiring) (makes (made r)) p n b = ground arith
move-DrainsDown (creating trying) (makes threw) p n b = ground arith
move-DrainsDown (creating trying) (makes null) p n b = ground arith
move-DrainsDown (creating trying) (makes (made r)) p n b = ground arith
move-DrainsDown (checking acquiring r) (validates v) p n b = ground arith
move-DrainsDown (checking trying r) (validates v) p n b = ground arith
move-DrainsDown _ _ p n b = ground arith

abbrev pub Accepted : Pool → Pc → Event → Type 0
Accepted p pc e = rejects_new pc e ≡ false

abbrev Fits : Pool → Pc → Event → Type 0
Fits p pc e = Accepted p pc e × ((n : ℕ) × DrainsDown p (n + drains pc))

move-Books :
    (pc : Pc) (e : Event) (p : Pool) (n : ℕ)
    → Fits p pc e
    → Books p (n + share pc)
    → Books (move p pc e).0 (n + share (move p pc e).1)
unfolding move shutdown
move-Books away (calls m) p n (g, (k, d)) b = ground arith
move-Books (entering acquiring) locks p n (g, (k, d)) b = ground arith
move-Books (entering trying) locks p n (g, (k, d)) b = ground arith
move-Books (validating acquiring r) (validates v) p n (g, (k, d)) b = ground arith
move-Books (validating trying r) (validates v) p n (g, (k, d)) b = ground arith
move-Books (checking acquiring r) (validates v) p n (g, (k, d)) b = ground arith
move-Books (checking trying r) (validates v) p n (g, (k, d)) b = ground arith
move-Books (creating acquiring) (makes threw) p n (g, (k, d)) b = ground arith
move-Books (creating acquiring) (makes null) p n (g, (k, d)) b = ground arith
move-Books (creating acquiring) (makes (made r)) p n (g, (k, d)) b = ground arith
move-Books (creating trying) (makes threw) p n (g, (k, d)) b = ground arith
move-Books (creating trying) (makes null) p n (g, (k, d)) b = ground arith
move-Books (creating trying) (makes (made r)) p n (g, (k, d)) b = ground arith
move-Books draining wakes p n (g, (k, d)) b = let down = d (omega arith) in ground arith
move-Books draining times_out p n (g, (k, d)) b = let down = d (omega arith) in ground arith
move-Books _ _ p n (g, (k, d)) b = ground arith

abbrev pub start : Pool → ℕ → System Pool Pc
start p threads = record { shared = p; threads = replicate threads away }

abbrev pub after : Pool → ℕ → List (ℕ × Event) → System Pool Pc
after p threads xs = run move (start p threads) xs

-- In every schedule in which `acquire` never hears that a resource it has just made is invalid,
-- the idle resources and those that threads own or make stay within `total_created_`, are exactly
-- that number until a shutdown, and never exceed `max_size`.
pub handle_run-Books :
    (p : Pool) (threads : ℕ) (xs : List (ℕ × Event))
    → Books p 0
    → Follows move Accepted (start p threads) xs
    → Books (after p threads xs).shared (total share (after p threads xs).threads)
handle_run-Books p threads xs b a =
    run-Balanced_following move share Books Fits move-Books (start p threads) xs
      (Follows-Ledger move drains DrainsDown Accepted move-DrainsDown (start p threads) xs
        (λ h. absurd (omega (arith, total-replicate drains threads away refl))) a)
      (rw (total-replicate share threads away refl) b)
