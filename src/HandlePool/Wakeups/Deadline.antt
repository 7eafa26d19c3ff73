-- ===== src/HandlePool/Wakeups/Deadline.antt =====
-- src/resource/resource_handle.h: `acquire` at its deadline. `wait_until` without a predicate tells
-- that the deadline has passed, and not that the thread was notified before.
use cpp_grpc_db.Prelude.{
  ℕ, ◌≤◌, ◌<◌, true, false, List, [], ◌∷◌, total, ◌≡◌, refl, arith, le→ltb_false, ◌++◌, ap, sym,
  subst, ◌∙◌,
}
use cpp_grpc_db.Interleaving.{System, run, run-append, step}
use cpp_grpc_db.Interleaving.Waits
use cpp_grpc_db.Interleaving.Waits.{
  Signal, silent, one, all, ones, alls, used, used_le, Monitor, Thread, Act, notifies, acts,
}
use cpp_grpc_db.HandlePool.{
  Pool, acquiring, Pc, away, ended, waiting, holding, Event, calls, locks, times_out, drops, move,
  throws, timeout,
}
use cpp_grpc_db.HandlePool.Wakeups.{
  waits, resumes, signal, awake, start_awake, after_waits, IsSettled,
}

-- A pool whose resources are `rs`, and that neither validates nor may make another.
abbrev pub fixed_pool : ℕ → ℕ → ℕ → List ℕ → Pool
fixed_pool initial max made_before rs = record {
  config = record {
    initial_size = initial;
    max_size = max;
    validate_on_acquire = false;
    validate_on_return = false;
  };
  has_validator = false;
  available = rs;
  total_created = made_before;
  is_shutdown = false;
}

abbrev late_move : Monitor Pool → Thread Pc → Act Event → Monitor Pool × Thread Pc
late_move = Waits.move move waits (resumes true) signal

-- A call of `acquire` by a thread, up to the first wait.
abbrev acquires : ℕ → List (ℕ × Act Event)
acquires i = (i, acts false (calls acquiring)) ∷ (i, acts false locks) ∷ []

-- Thread 0 gives its resource back and notifies thread 1, which finds its deadline passed.
abbrev too_late : List (ℕ × Act Event)
too_late =
    (0, acts false drops) ∷ (0, acts false locks) ∷ (0, notifies) ∷ (1, acts true times_out) ∷ []

abbrev three : Pool → ℕ → Pc → Pc → Pc → System (Monitor Pool) (Thread Pc)
three p asleep a b c = record {
  shared = record { object = p; asleep = asleep; notified = 0 };
  threads = awake a ∷ awake b ∷ awake c ∷ [];
}

module _ (initial max made_before r : ℕ) (full : max ≤ made_before) where
  abbrev lent : Pool
  lent = fixed_pool initial max made_before []

  one_waits :
      run late_move (three lent 0 (holding r) away away) (acquires 1)
      ≡ three lent 1 (holding r) waiting away
  unfolding run step Waits.move move signal
  one_waits = rw (le→ltb_false made_before max full) refl

  two_wait :
      run late_move (three lent 1 (holding r) waiting away) (acquires 2)
      ≡ three lent 2 (holding r) waiting waiting
  unfolding run step Waits.move move signal
  two_wait = rw (le→ltb_false made_before max full) refl

  abbrev pub idle_again : Pool
  idle_again = fixed_pool initial max made_before (r ∷ [])

  abbrev schedule : List (ℕ × Act Event)
  schedule = acquires 0 ++ acquires 1 ++ acquires 2 ++ too_late

  lends_first :
      run late_move (start_awake idle_again 3) (acquires 0) ≡ three lent 0 (holding r) away away
  unfolding run step Waits.move move signal
  lends_first = refl

  comes_too_late :
      run late_move (three lent 2 (holding r) waiting waiting) too_late
      ≡ three idle_again 1 away (ended (throws timeout)) waiting
  unfolding run step Waits.move move signal
  comes_too_late = refl

  strands :
      run late_move (start_awake idle_again 3) schedule
      ≡ three idle_again 1 away (ended (throws timeout)) waiting
  strands =
      run-append late_move _ (acquires 0) _
      ∙ ap (λ s. run late_move s (acquires 1 ++ acquires 2 ++ too_late)) lends_first
      ∙ run-append late_move _ (acquires 1) _
      ∙ ap (λ s. run late_move s (acquires 2 ++ too_late)) one_waits
      ∙ run-append late_move _ (acquires 2) _
      ∙ ap (λ s. run late_move s too_late) two_wait
      ∙ comes_too_late

  three-IsSettled : (p : Pool) (n : ℕ) (a b c : Pc) → IsSettled (three p n a b c)
  unfolding total
  three-IsSettled p n a b c = record { none_notified = refl; none_owed = refl }

  -- `wait_until` returns `timeout` to a thread whose deadline has passed by the time it has the mutex
  -- again, though it was notified, and `acquire` then throws without a look at the pool: there is a
  -- schedule behind which every notification was made and taken, and a thread sleeps in `acquire`
  -- though the pool is open and its resource `r` idle again.
  pub late_acquirer-strands :
      (xs : List (ℕ × Act Event)) × IsSettled (after_waits true idle_again 3 xs)
      × (0 < (after_waits true idle_again 3 xs).shared.asleep)
      × ((after_waits true idle_again 3 xs).shared.object ≡ idle_again)
  late_acquirer-strands = (
    schedule,
    subst IsSettled (sym strands)
        (three-IsSettled idle_again 1 away (ended (throws timeout)) waiting),
    subst (λ s. 0 < s.shared.asleep) (sym strands) (omega arith),
    subst (λ s. s.shared.object ≡ idle_again) (sym strands) refl,
  )
