-- ===== src/ResourcePool/Ownership.antt =====
-- Who owns a resource: `idle_`, or one thread.
use cpp_grpc_db.Prelude.{ℕ, ◌+◌, ◌≤◌, List, refl, arith, total-replicate, count, one_if}
use cpp_grpc_db.Callbacks.{threw, null, made}
use cpp_grpc_db.Interleaving.{System}
use cpp_grpc_db.Interleaving.Ownership
use cpp_grpc_db.ResourcePool.{
  Pool, blocking, timed, trying, Pc, away, entering, validating, creating, checking, holding,
  returning, storing, shutdown, Event, calls, locks, makes, move,
}
use cpp_grpc_db.ResourcePool.Ledger.{start, after}

-- How often a program point owns `r`.
abbrev pub owns : ℕ → Pc → ℕ
owns r (validating m x) = one_if r x
owns r (checking m x) = one_if r x
owns r (holding x) = one_if r x
owns r (returning x) = one_if r x
owns r (storing x v) = one_if r x
owns r pc = 0

-- The factory hands out `r`.
abbrev pub born : ℕ → Event → ℕ
born r (makes (made x)) = one_if r x
born r e = 0

abbrev pub owners : ℕ → System Pool Pc → ℕ
owners r = Ownership.owners move (λ p. count r p.idle) (owns r) (born r)

abbrev pub births : ℕ → List (ℕ × Event) → ℕ
births r = Ownership.births move (λ p. count r p.idle) (owns r) (born r)

move-owns :
    (r : ℕ) (pc : Pc) (e : Event) (p : Pool)
    → count r (move p pc e).0.idle + owns r (move p pc e).1 ≤ count r p.idle + owns r pc + born r e
unfolding move shutdown
move-owns r away (calls m) p = ground arith
move-owns r (entering blocking) locks p = ground arith
move-owns r (entering timed) locks p = ground arith
move-owns r (entering trying) locks p = ground arith
move-owns r (creating m) (makes threw) p = ground arith
move-owns r (creating m) (makes null) p = ground arith
move-owns r (creating m) (makes (made x)) p = ground arith
move-owns r _ _ p = ground arith

-- A resource has never more owners than the factory handed it out and `idle_` held it at the
-- start: with a factory that makes each object once, it is idle or with one thread, and no two
-- callers ever share it.
pub owners-run :
    (r : ℕ) (p : Pool) (threads : ℕ) (xs : List (ℕ × Event))
    → owners r (after p threads xs) ≤ count r p.idle + births r xs
owners-run r p threads xs = omega (
  arith,
  Ownership.run-owners move (λ p. count r p.idle) (owns r) (born r) (λ pc e p. move-owns r pc e p)
      (start p threads) xs,
  total-replicate (owns r) threads away refl,
)
