-- ===== src/Tests/Pools.antt =====
-- The two resource pools.
use cpp_grpc_db.Prelude.{
  ℕ, ◌<◌, map, ◌≤◌, ◌-◌, List, [], ◌∷◌, some, get_elem?, true, false, ◌≡◌, refl, arith, size_mod,
  total, All,
}
use cpp_grpc_db.Callbacks.{accepts, made}
use cpp_grpc_db.Interleaving.{System, run, step, Follows}
use cpp_grpc_db.Interleaving.Waits
use cpp_grpc_db.Interleaving.Waits.{Act, acts}
use cpp_grpc_db.ResourcePool
use cpp_grpc_db.ResourcePool.{
  blocking, timed, trying, calls, locks, wakes, validates, makes, drops, shuts_down, entering,
  waiting, validating, holding, away, Pc,
}
use cpp_grpc_db.ResourcePool.Ledger
use cpp_grpc_db.ResourcePool.Ownership.{owners, owners-run}
use cpp_grpc_db.ResourcePool.Calls.{EndsWell, IsOutside, run-EndsWell, run-IsOutside}
use cpp_grpc_db.HandlePool
use cpp_grpc_db.HandlePool.Ownership
use cpp_grpc_db.HandlePool.Handles.{
  Command, acquires, makes_empty, moves_from, assigns, releases, destroys, no_handles, perform_all,
}
use cpp_grpc_db.HandlePool.Handles.Accounts.{Kept, lends, perform_all-Kept}

-- Two idle resources, and room for one more.
abbrev lending : ResourcePool.Pool
lending = record {
  max_size = 3;
  has_validator = true;
  idle = 8 ∷ 7 ∷ [];
  total = 2;
  shutting_down = false;
}

-- An event of a thread that no notification woke.
abbrev acted : {Event : Type 0} → ℕ × Event → ℕ × Act Event
acted (i, e) = (i, acts false e)

lending-Books : ResourcePool.Ledger.Books lending 0
lending-Books = ground arith

-- Thread 0 takes 8, thread 1 takes 7 and drops it; thread 2 has 9 made.
abbrev traffic : List (ℕ × ResourcePool.Event)
traffic =
    (0, calls blocking)
    ∷ (1, calls trying)
    ∷ (2, calls timed)
    ∷ (0, locks)
    ∷ (1, locks)
    ∷ (2, locks)
    ∷ (0, validates accepts)
    ∷ (2, makes (made 9))
    ∷ (1, validates accepts)
    ∷ (2, validates accepts)
    ∷ (1, drops)
    ∷ (1, validates accepts)
    ∷ (1, locks)
    ∷ []

traffic_runs :
    (ResourcePool.Ledger.after lending 4 traffic).threads ≡ holding 8 ∷ away ∷ holding 9 ∷ away ∷ []
unfolding run step ResourcePool.move
traffic_runs = refl

run-Books_example :
    let s = ResourcePool.Ledger.after lending 4 traffic in
    ResourcePool.Ledger.Books s.shared (total ResourcePool.Ledger.share s.threads)
run-Books_example = ResourcePool.Ledger.run-Books lending 4 traffic lending-Books

owners-run_example : owners 9 (ResourcePool.Ledger.after lending 4 traffic) ≤ 1
owners-run_example = owners-run 9 lending 4 traffic

calls_end_well : All EndsWell (ResourcePool.Ledger.after lending 4 traffic).threads
calls_end_well = run-EndsWell lending 4 traffic

-- All three resources are lent, and thread 3 waits.
abbrev crowded : List (ℕ × ResourcePool.Event)
crowded =
    (0, calls blocking)
    ∷ (1, calls blocking)
    ∷ (2, calls blocking)
    ∷ (3, calls blocking)
    ∷ (0, locks)
    ∷ (1, locks)
    ∷ (2, locks)
    ∷ (3, locks)
    ∷ []

lending-IsWord : ResourcePool.Wakeups.IsWord lending
lending-IsWord = record { max_word = omega arith; total_word = omega arith }

sleeper-is_full_example :
    let p = (ResourcePool.Wakeups.after_waits lending 4 (map acted crowded)).shared.object in
    (p.idle ≡ []) × (p.max_size ≤ p.total) × (p.shutting_down ≡ false)
unfolding run step Waits.move ResourcePool.move ResourcePool.Wakeups.signal total
sleeper-is_full_example =
    ResourcePool.Wakeups.sleeper-is_full lending 4 (map acted crowded) lending-IsWord (omega arith)
      refl refl

abbrev closed : System ResourcePool.Pool Pc
closed = record {
  shared = record lending { shutting_down = true; idle = [] };
  threads = waiting blocking ∷ holding 8 ∷ [];
}

closed_lends_nothing :
    (q : Pc) × (get_elem? (run ResourcePool.move closed ((1, drops) ∷ (0, wakes) ∷ [])).threads 0
      ≡ some q)
    × IsOutside q
closed_lends_nothing =
    run-IsOutside closed ((1, drops) ∷ (0, wakes) ∷ []) 0 (waiting blocking) refl refl tt

abbrev config : HandlePool.PoolConfig
config = record {
  initial_size = 1;
  max_size = 2;
  validate_on_acquire = true;
  validate_on_return = false;
}

abbrev handles : HandlePool.Pool
handles = record {
  config = config;
  has_validator = true;
  available = 7 ∷ [];
  total_created = 1;
  is_shutdown = false;
}

handles-Books : HandlePool.Ledger.Books handles 0
handles-Books = ground arith

-- The thread takes 7 and returns it.
abbrev borrowing : List (ℕ × HandlePool.Event)
borrowing =
    (0, HandlePool.Event.calls HandlePool.Mode.acquiring)
    ∷ (0, HandlePool.Event.locks)
    ∷ (0, HandlePool.Event.validates accepts)
    ∷ (0, HandlePool.Event.drops)
    ∷ (0, HandlePool.Event.locks)
    ∷ []

borrowing-Follows :
    Follows HandlePool.move HandlePool.Ledger.Accepted (HandlePool.Ledger.start handles 1) borrowing
unfolding step HandlePool.move
borrowing-Follows = (
  λ pc at. ground arith,
  (
    λ pc at. ground arith,
    (λ pc at. ground arith, (λ pc at. ground arith, (λ pc at. ground arith, tt))),
  ),
)

handle_run-Books_example :
    let s = HandlePool.Ledger.after handles 1 borrowing in
    HandlePool.Ledger.Books s.shared (total HandlePool.Ledger.share s.threads)
handle_run-Books_example =
    HandlePool.Ledger.handle_run-Books handles 1 borrowing handles-Books borrowing-Follows

handle_owners-run_example :
    HandlePool.Ownership.owners 7
      (run HandlePool.move (HandlePool.Ledger.start handles 1) borrowing)
    ≤ 1
handle_owners-run_example = HandlePool.Ownership.handle_owners-run 7 handles 1 borrowing

abbrev empty_handles : HandlePool.Pool
empty_handles = record handles { available = []; total_created = 0 }

rejected_dead_example :
    let s = HandlePool.Rejection.rejected empty_handles 1 7 in
    (s.shared.total_created ≡ size_mod - 1)
    × (total HandlePool.Ledger.share
          (run HandlePool.move s
            ((1, HandlePool.Event.calls HandlePool.Mode.acquiring) ∷ [])).threads
        ≡ 0)
rejected_dead_example =
    HandlePool.Rejection.rejected_dead empty_handles 1 7
      ((1, HandlePool.Event.calls HandlePool.Mode.acquiring) ∷ []) refl refl refl refl (omega arith)
      (omega arith)

-- Two lendings; the second handle is assigned over the first, and what is left is moved and destroyed.
abbrev juggling : List Command
juggling =
    acquires 4
    ∷ acquires 5
    ∷ assigns 1 0
    ∷ makes_empty
    ∷ assigns 0 0
    ∷ moves_from 0
    ∷ releases 1
    ∷ destroys 3
    ∷ []

juggling_returns : (perform_all no_handles juggling).returned ≡ 5 ∷ 4 ∷ []
unfolding perform_all
juggling_returns = refl

perform_all-Kept_example : Kept (λ r. total (lends r) juggling) (perform_all no_handles juggling)
perform_all-Kept_example = perform_all-Kept juggling

-- Thread 0 has the only resource, and thread 1 waits for it.
abbrev lined_up : List (ℕ × HandlePool.Event)
lined_up =
    (0, HandlePool.Event.calls HandlePool.Mode.acquiring)
    ∷ (1, HandlePool.Event.calls HandlePool.Mode.acquiring)
    ∷ (0, HandlePool.Event.locks)
    ∷ (1, HandlePool.Event.locks)
    ∷ []

abbrev single : HandlePool.Pool
single = HandlePool.Wakeups.Deadline.fixed_pool 1 1 1 (7 ∷ [])

acquirer_sleeps-is_full_example :
    let p = (HandlePool.Wakeups.after_waits false single 2 (map acted lined_up)).shared.object in
    (p.available ≡ []) × (p.max_size ≤ p.total_created) × (p.is_shutdown ≡ false)
unfolding run step Waits.move HandlePool.move HandlePool.Wakeups.signal total
acquirer_sleeps-is_full_example =
    HandlePool.Wakeups.acquirer_sleeps-is_full single 2 (map acted lined_up)
      (record { max_word = omega arith; total_word = omega arith })
      (record { none_notified = refl; none_owed = refl }) (omega arith)

late_acquirer-strands_example :
    (xs : List (ℕ × Act HandlePool.Event)) × HandlePool.Wakeups.IsSettled
      (HandlePool.Wakeups.after_waits true single 3 xs)
    × (0 < (HandlePool.Wakeups.after_waits true single 3 xs).shared.asleep)
    × ((HandlePool.Wakeups.after_waits true single 3 xs).shared.object ≡ single)
late_acquirer-strands_example =
    HandlePool.Wakeups.Deadline.late_acquirer-strands 1 1 1 7 (omega arith)
