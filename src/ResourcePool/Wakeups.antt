-- ===== src/ResourcePool/Wakeups.antt =====
-- `cv_`: what the moves notify, and that no wake-up is lost. Each notification is `notify_one`, once
-- the mutex is released, but that of `shutdown`, which is `notify_all`.
use cpp_grpc_db.Prelude.{
  ℕ, zero, suc, ap, sym, ◌∙◌, ◌∷◌, ◌+◌, ◌-◌, ◌≤◌, ◌<◌, Bool, true, false, List, [], length,
  replicate, if◌then◌else◌, total, total-replicate, ◌≡◌, refl, arith, size_mod,
}
use cpp_grpc_db.Callbacks.{is_ok}
use cpp_grpc_db.Interleaving.{System, run}
use cpp_grpc_db.Interleaving.Waits
use cpp_grpc_db.Interleaving.Waits.{
  used, used_le, Signal, silent, one, all, ones, alls, Monitor, Thread, Act,
}
use cpp_grpc_db.Interleaving.Waits.Discipline.{Discipline}
use cpp_grpc_db.Interleaving.Waits.Wakeups.{sleepers}
use cpp_grpc_db.Interleaving.Waits.Closing.{closes}
use cpp_grpc_db.Interleaving.Waits.Erasure.{pcs, erase, run-erase}
use cpp_grpc_db.ResourcePool.Ledger.{start}
use cpp_grpc_db.ResourcePool.{
  Pool, timed, Pc, away, ended, waiting, validating, rolling_back, storing, Event, locks, wakes,
  times_out, validates, shuts_down, shutdown, move,
}

abbrev pub waits : Pc → Bool
waits (waiting m) = true
waits pc = false

-- A wait ends when the predicate is tested, or at the deadline if there is one.
abbrev pub resumes : Bool → Pc → Event → Bool
resumes noticed (waiting m) wakes = true
resumes noticed (waiting timed) times_out = true
resumes noticed pc e = false

-- The calls of `notify_one` and `notify_all` that follow a move.
unfoldable pub signal : Pool → Pc → Event → Signal
signal p (validating m r) (validates v) =
    if p.shutting_down then one else if is_ok v then silent else one
signal p (rolling_back m e) locks = one
signal p (storing r valid) locks = one
signal p away shuts_down = if p.shutting_down then silent else all
signal p (ended k o) shuts_down = if p.shutting_down then silent else all
signal p pc e = silent

-- The resources that can be had: those idle, and those that may still be made.
abbrev pub capacity : Pool → ℕ
capacity p = length p.idle + (p.max_size - p.total)

-- Both counters are words of 64 bits.
pub record IsWord (p : Pool) : Type 0 where
  pub max_word : p.max_size < size_mod
  pub total_word : p.total < size_mod

abbrev pub is_closed : Pool → Bool
is_closed p = p.shutting_down

abbrev pub closing : Pc → ℕ
closing pc = 0

move-IsWord : (p : Pool) (pc : Pc) (e : Event) → IsWord p → IsWord (move p pc e).0
unfolding move shutdown
move-IsWord p _ _ h = ground arith

move-sleeps :
    (noticed : Bool) (p : Pool) (pc : Pc) (e : Event)
    → (waits pc ≡ true → resumes noticed pc e ≡ true)
    → waits (move p pc e).1 ≡ true
    → (capacity (move p pc e).0 ≡ 0) × (is_closed (move p pc e).0 ≡ false)
unfolding move shutdown
move-sleeps noticed p _ _ h s = ground arith

move-gains :
    (p : Pool) (pc : Pc) (e : Event)
    → IsWord p
    → (1 ≤ closing pc → is_closed p ≡ true)
    → waits pc ≡ false
    → is_closed (move p pc e).0 ≡ false
    → capacity (move p pc e).0 ≤ capacity p + ones (signal p pc e)
unfolding move shutdown signal
move-gains p _ _ w c h o = ground arith

move-takes :
    (noticed : Bool) (p : Pool) (pc : Pc) (e : Event)
    → IsWord p
    → waits pc ≡ true
    → resumes noticed pc e ≡ true
    → waits (move p pc e).1 ≡ false
    → is_closed (move p pc e).0 ≡ false
    → capacity (move p pc e).0 ≤ capacity p - used noticed
unfolding move shutdown
move-takes noticed p _ _ w h f s o = ground (arith, used_le noticed)

move-opens_never :
    (p : Pool) (pc : Pc) (e : Event) → is_closed (move p pc e).0 ≡ false → is_closed p ≡ false
unfolding move shutdown
move-opens_never p _ _ h = ground arith

move-closes :
    (p : Pool) (pc : Pc) (e : Event)
    → is_closed p ≡ false
    → is_closed (move p pc e).0 ≡ true
    → 1 ≤ closing (move p pc e).1 + alls (signal p pc e)
unfolding move shutdown signal
move-closes p _ _ h o = ground arith

pub discipline : Discipline move waits resumes signal IsWord capacity is_closed closing
discipline = record {
  stays_fine = move-IsWord;
  sleeps = move-sleeps;
  gains = move-gains;
  takes = move-takes;
  reopens_never = move-opens_never;
  closes = move-closes;
  goes_on_closing = λ p pc e. omega arith;
  begins_closing = λ p pc e none some. absurd (omega (arith, some));
}

-- The threads of a pool with its condition variable, all outside the pool at first.
abbrev pub awake : Pc → Thread Pc
awake pc = record { pc = pc; owes = silent }

abbrev pub start_awake : Pool → ℕ → System (Monitor Pool) (Thread Pc)
start_awake p threads = record {
  shared = record { object = p; asleep = 0; notified = 0 };
  threads = replicate threads (awake away);
}

abbrev pub after_waits : Pool → ℕ → List (ℕ × Act Event) → System (Monitor Pool) (Thread Pc)
after_waits p threads xs = run (Waits.move move waits resumes signal) (start_awake p threads) xs

abbrev pub owes : Thread Pc → ℕ
owes t = closing t.pc + (ones t.owes + alls t.owes)

nothing_left : (p : Pool) → capacity p ≡ 0 → (p.idle ≡ []) × (p.max_size ≤ p.total)
nothing_left p h = ground arith

-- No wake-up is lost, with `notify_one` made behind the mutex, spurious wake-ups, deadlines that
-- pass, and callers that come between a notification and the thread that it wakes: when no thread
-- has a notification to make and none that was notified has yet to go on, a thread that sleeps in
-- `acquire` has a pool in front of it that is open, has nothing idle and may make nothing more.
pub sleeper-is_full :
    (p : Pool) (threads : ℕ) (xs : List (ℕ × Act Event))
    → IsWord p
    → 0 < (after_waits p threads xs).shared.asleep
    → (after_waits p threads xs).shared.notified ≡ 0
    → total owes (after_waits p threads xs).threads ≡ 0
    → ((after_waits p threads xs).shared.object.idle ≡ [])
      × ((after_waits p threads xs).shared.object.max_size
          ≤ (after_waits p threads xs).shared.object.total)
      × ((after_waits p threads xs).shared.object.shutting_down ≡ false)
sleeper-is_full p threads xs word some_asleep none_notified paid =
    let (nothing, still_open) =
      sleepers move waits resumes signal IsWord capacity is_closed closing discipline
        (start_awake p threads) xs word
        (omega (
          arith,
          total-replicate
              (closes move waits resumes signal IsWord capacity is_closed closing discipline)
              threads (awake away),
        ))
        refl some_asleep none_notified paid in
    let (no_idle, full) = nothing_left (after_waits p threads xs).shared.object nothing in
    (no_idle, full, still_open)

pcs-replicate :
    (n : ℕ) → pcs move waits resumes signal (replicate n (awake away)) ≡ replicate n away
pcs-replicate zero = refl
pcs-replicate (suc n) = ap (◌∷◌ away) (pcs-replicate n)

-- What the threads do with their condition variable is one of the runs of the pool without it: it
-- has the same pool and every thread at the same point, and so what holds after every schedule of
-- the pool holds here.
pub after_waits-run :
    (p : Pool) (threads : ℕ) (xs : List (ℕ × Act Event))
    → (ys : List (ℕ × Event)) × (run move (start p threads) ys
        ≡ erase move waits resumes signal (after_waits p threads xs))
after_waits-run p threads xs =
    let (ys, same) = run-erase move waits resumes signal (start_awake p threads) xs in
    (
      ys,
      ap (λ ts. run move (record { shared = p; threads = ts }) ys) (sym (pcs-replicate threads))
          ∙ same,
    )
