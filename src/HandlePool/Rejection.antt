-- ===== src/HandlePool/Rejection.antt =====
-- The schedules that HandlePool/Ledger leaves out, and the count behind `shutdownAndWait`.
use cpp_grpc_db.Prelude.{
  ℕ, suc, ◌-◌, ◌<◌, true, false, List, [], ◌∷◌, ◌≡◌, ◌≢◌, refl, arith, size_mod, total, replicate,
  total-replicate, total-cons,
}
use cpp_grpc_db.Callbacks.{rejects, made}
use cpp_grpc_db.Interleaving.{System, step, run, run-Balanced, Keeps}
use cpp_grpc_db.HandlePool.{
  Pool, acquiring, trying, waited, throws, validator_rejected, Pc, away, ended, entering,
  validating, creating, checking, rolling_back, rolling_back_twice, holding, returning, storing,
  Event, calls, locks, validates, makes, shuts_down, shuts_down_and_waits, shutdown, move,
}
use cpp_grpc_db.HandlePool.Ledger.{share, Books, start}

-- Nothing is idle, and the counter stands at its largest value.
record IsDead (p : Pool) (n : ℕ) : Type 0 where
  none_idle : p.available ≡ []
  none_owned : n ≡ 0
  wrapped : p.total_created ≡ size_mod - 1
  word : p.max_size < size_mod

move-IsDead : (pc : Pc) (e : Event) → Keeps move share IsDead pc e
unfolding move shutdown
move-IsDead away (calls m) p n d = ground arith
move-IsDead (entering acquiring) locks p n d = ground arith
move-IsDead (entering trying) locks p n d = ground arith
move-IsDead (validating m r) e p n d = absurd (omega (arith, d.none_owned))
move-IsDead (creating m) e p n d = absurd (omega (arith, d.none_owned))
move-IsDead (checking m r) e p n d = absurd (omega (arith, d.none_owned))
move-IsDead (rolling_back o) e p n d = absurd (omega (arith, d.none_owned))
move-IsDead rolling_back_twice e p n d = absurd (omega (arith, d.none_owned))
move-IsDead (holding r) e p n d = absurd (omega (arith, d.none_owned))
move-IsDead (returning r) e p n d = absurd (omega (arith, d.none_owned))
move-IsDead (storing r v) e p n d = absurd (omega (arith, d.none_owned))
move-IsDead _ _ p n d = ground arith

-- One thread calls `acquire`, the factory makes `r`, and the validator rejects it.
abbrev pub rejection : ℕ → List (ℕ × Event)
rejection r =
    (0, calls acquiring)
    ∷ (0, locks)
    ∷ (0, makes (made r))
    ∷ (0, validates rejects)
    ∷ (0, locks)
    ∷ (0, locks)
    ∷ []

abbrev pub rejected : Pool → ℕ → ℕ → System Pool Pc
rejected p threads r = run move (start p (suc threads)) (rejection r)

rejected_lem :
    (p : Pool) (threads r : ℕ)
    → p.is_shutdown ≡ false
    → p.has_validator ≡ true
    → p.available ≡ []
    → p.total_created ≡ 0
    → 0 < p.max_size
    → rejected p threads r ≡ record {
      shared = record p { total_created = size_mod - 1 };
      threads = ended (throws validator_rejected) ∷ replicate threads away;
    }
unfolding run step move
rejected_lem p threads r open_yet v none_idle zero_total room = ground arith

-- When a pool that has no resource hears from its validator that the first one which `acquire`
-- makes is invalid, the reservation is rolled back twice, `total_created_` wraps to 2^64 - 1, and
-- whatever happens afterwards no thread ever owns or makes a resource again.
pub rejected_dead :
    (p : Pool) (threads r : ℕ) (xs : List (ℕ × Event))
    → p.is_shutdown ≡ false
    → p.has_validator ≡ true
    → p.available ≡ []
    → p.total_created ≡ 0
    → 0 < p.max_size
    → p.max_size < size_mod
    → ((rejected p threads r).shared.total_created ≡ size_mod - 1)
      × (total share (run move (rejected p threads r) xs).threads ≡ 0)
rejected_dead p threads r xs open_yet v none_idle zero_total room word =
    rw (rejected_lem p threads r open_yet v none_idle zero_total room) (refl, dead.none_owned)
  where
    s : System Pool Pc
    s = record {
      shared = record p { total_created = size_mod - 1 };
      threads = ended (throws validator_rejected) ∷ replicate threads away;
    }

    dead : IsDead (run move s xs).shared (total share (run move s xs).threads)
    dead = run-Balanced move share IsDead move-IsDead s xs (record {
      none_idle = none_idle;
      none_owned = omega (
        arith,
        total-cons share (ended (throws validator_rejected)) (replicate threads away),
        total-replicate share threads away refl,
      );
      wrapped = refl;
      word = word;
    })

-- `shutdown` destroys the idle resources and leaves them in `total_created_`: if there were any,
-- a `shutdownAndWait` behind it reports resources that were not returned, with none of them lent.
pub waits_in_vain :
    (p : Pool)
    → Books p 0
    → p.is_shutdown ≡ false
    → p.available ≢ []
    → (run move (start p 1) ((0, shuts_down) ∷ (0, shuts_down_and_waits) ∷ [])).threads
      ≡ ended (waited false) ∷ []
unfolding run step move shutdown
waits_in_vain p b open_yet some_idle = ground arith
