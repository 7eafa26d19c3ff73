-- ===== src/HandlePool/Wakeups.antt =====
-- src/resource/resource_handle.h: `cv_`, what the moves notify, and who sleeps on. A notification
-- that is made with the mutex held stands behind its move as the others do. `shutdownAndWait` is not
-- counted among those who sleep: the pool is shut down by then, and its wait tests its predicate.
pub mod Deadline
use cpp_grpc_db.Prelude.{
  ℕ, zero, suc, ◌+◌, ◌-◌, ◌≤◌, ◌<◌, Bool, true, false, not, ◌&&◌, ◌||◌, List, [], ◌∷◌, length,
  replicate, if◌then◌else◌, total, total-replicate, ◌≡◌, refl, arith, size_mod, le→ltb_false, ◌++◌,
  ap, sym, subst, ◌∙◌,
}
use cpp_grpc_db.Callbacks.{Verdict, is_ok, Made, threw, null, made}
use cpp_grpc_db.Interleaving.{System, run, step}
use cpp_grpc_db.Interleaving.Waits
use cpp_grpc_db.Interleaving.Waits.{
  Signal, silent, one, all, ones, alls, used, used_le, Monitor, Thread, Act, notifies, acts,
}
use cpp_grpc_db.Interleaving.Waits.Discipline.{Discipline}
use cpp_grpc_db.Interleaving.Waits.Wakeups.{sleepers}
use cpp_grpc_db.Interleaving.Waits.Closing.{closes}
use cpp_grpc_db.HandlePool.{
  Pool, Mode, acquiring, trying, Pc, away, ended, entering, waiting, validating, creating, checking,
  rolling_back, rolling_back_twice, holding, returning, storing, draining, Event, calls, locks,
  wakes, times_out, validates, makes, drops, shuts_down, shuts_down_and_waits, shutdown, move,
  throws, timeout,
}

abbrev pub waits : Pc → Bool
waits waiting = true
waits pc = false

-- The wait of `acquire` ends when the thread is woken, or at the deadline, where `wait_until` is
-- without a predicate and so does not tell of a notification that came before. `late` says whether
-- a thread that was notified may still find its deadline passed.
abbrev pub resumes : Bool → Bool → Pc → Event → Bool
resumes late noticed waiting wakes = true
resumes late noticed waiting times_out = late || not noticed
resumes late noticed pc e = false

unless_ok : Verdict → Signal
unless_ok v = if is_ok v then silent else one

unless_shut : Pool → Signal
unless_shut p = if p.is_shutdown then silent else all

-- The calls of `notify_one` and `notify_all` of a move.
unfoldable pub signal : Pool → Pc → Event → Signal
unfolding unless_ok unless_shut
signal p (validating m r) (validates v) = unless_ok v
signal p (rolling_back o) locks = one
signal p rolling_back_twice locks = one
signal p (storing r valid) locks = one
signal p away shuts_down = unless_shut p
signal p (ended o) shuts_down = unless_shut p
signal p away shuts_down_and_waits = unless_shut p
signal p (ended o) shuts_down_and_waits = unless_shut p
signal p pc e = silent

-- The resources that can be had: those idle, and those that may still be made.
abbrev pub capacity : Pool → ℕ
capacity p = length p.available + (p.max_size - p.total_created)

pub record IsWord (p : Pool) : Type 0 where
  pub max_word : p.max_size < size_mod
  pub total_word : p.total_created < size_mod

abbrev pub is_closed : Pool → Bool
is_closed p = p.is_shutdown

abbrev pub closing : Pc → ℕ
closing pc = 0

move-IsWord : (p : Pool) (pc : Pc) (e : Event) → IsWord p → IsWord (move p pc e).0
unfolding move
move-IsWord p _ _ h = ground arith

move-sleeps :
    (noticed : Bool) (p : Pool) (pc : Pc) (e : Event)
    → (waits pc ≡ true → resumes false noticed pc e ≡ true)
    → waits (move p pc e).1 ≡ true
    → (capacity (move p pc e).0 ≡ 0) × (is_closed (move p pc e).0 ≡ false)
unfolding move
move-sleeps noticed p _ _ h s = ground arith

move-gains :
    (p : Pool) (pc : Pc) (e : Event)
    → IsWord p
    → (1 ≤ closing pc → is_closed p ≡ true)
    → waits pc ≡ false
    → is_closed (move p pc e).0 ≡ false
    → capacity (move p pc e).0 ≤ capacity p + ones (signal p pc e)
unfolding move signal
move-gains p _ _ w c h o = ground arith

move-takes :
    (noticed : Bool) (p : Pool) (pc : Pc) (e : Event)
    → IsWord p
    → waits pc ≡ true
    → resumes false noticed pc e ≡ true
    → waits (move p pc e).1 ≡ false
    → is_closed (move p pc e).0 ≡ false
    → capacity (move p pc e).0 ≤ capacity p - used noticed
unfolding move
move-takes true p _ _ w h f s o = ground arith
move-takes false p _ _ w h f s o = ground arith

move-opens_never :
    (p : Pool) (pc : Pc) (e : Event) → is_closed (move p pc e).0 ≡ false → is_closed p ≡ false
unfolding move
move-opens_never p _ _ h = ground arith

move-closes :
    (p : Pool) (pc : Pc) (e : Event)
    → is_closed p ≡ false
    → is_closed (move p pc e).0 ≡ true
    → 1 ≤ closing (move p pc e).1 + alls (signal p pc e)
unfolding move signal
move-closes p _ _ h o = ground arith

pub discipline : Discipline move waits (resumes false) signal IsWord capacity is_closed closing
discipline = record {
  stays_fine = move-IsWord;
  sleeps = move-sleeps;
  gains = move-gains;
  takes = move-takes;
  reopens_never = move-opens_never;
  closes = move-closes;
  goes_on_closing = λ p pc e. omega arith;
  begins_closing = λ p pc e none some. absurd (omega (arith, some));
}

-- The threads of a pool with its condition variable, all outside the pool at first.
abbrev pub awake : Pc → Thread Pc
awake pc = record { pc = pc; owes = silent }

abbrev pub start_awake : Pool → ℕ → System (Monitor Pool) (Thread Pc)
start_awake p threads = record {
  shared = record { object = p; asleep = 0; notified = 0 };
  threads = replicate threads (awake away);
}

abbrev pub after_waits : Bool → Pool → ℕ → List (ℕ × Act Event) → System (Monitor Pool) (Thread Pc)
after_waits late p threads xs =
    run (Waits.move move waits (resumes late) signal) (start_awake p threads) xs

abbrev pub owes : Thread Pc → ℕ
owes t = closing t.pc + (ones t.owes + alls t.owes)

-- Every notification was made, and every thread that was notified has gone on.
pub record IsSettled (s : System (Monitor Pool) (Thread Pc)) : Type 0 where
  pub none_notified : s.shared.notified ≡ 0
  pub none_owed : total owes s.threads ≡ 0

nothing_left : (p : Pool) → capacity p ≡ 0 → (p.available ≡ []) × (p.max_size ≤ p.total_created)
nothing_left p h = ground arith

-- If no thread that was notified finds its deadline passed, no wake-up is lost: when every
-- notification was made and taken, a thread that sleeps in `acquire` has a pool in front of it that
-- is open, has nothing available and may make nothing more.
pub acquirer_sleeps-is_full :
    (p : Pool) (threads : ℕ) (xs : List (ℕ × Act Event))
    → IsWord p
    → IsSettled (after_waits false p threads xs)
    → 0 < (after_waits false p threads xs).shared.asleep
    → ((after_waits false p threads xs).shared.object.available ≡ [])
      × ((after_waits false p threads xs).shared.object.max_size
          ≤ (after_waits false p threads xs).shared.object.total_created)
      × ((after_waits false p threads xs).shared.object.is_shutdown ≡ false)
acquirer_sleeps-is_full p threads xs word settled some_asleep =
    let (nothing, still_open) =
      sleepers move waits (resumes false) signal IsWord capacity is_closed closing discipline
        (start_awake p threads) xs word
        (omega (
          arith,
          total-replicate
              (closes move waits (resumes false) signal IsWord capacity is_closed closing
                discipline)
              threads (awake away),
        ))
        refl some_asleep settled.none_notified settled.none_owed in
    let (no_idle, full) = nothing_left (after_waits false p threads xs).shared.object nothing in
    (no_idle, full, still_open)
