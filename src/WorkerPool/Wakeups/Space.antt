-- ===== src/WorkerPool/Wakeups/Space.antt =====
-- src/worker/WorkerPool.h: `space_cv_`, on which the producers wait for space in the queue.
use cpp_grpc_db.Prelude.{
  ℕ, ◌+◌, ◌-◌, ◌≤◌, ◌<◌, Bool, true, false, List, [], ◌∷◌, length, length-append, total, ◌≡◌, refl,
  arith,
}
use cpp_grpc_db.Interleaving.{System, run}
use cpp_grpc_db.Interleaving.Waits
use cpp_grpc_db.Interleaving.Waits.{
  used, used_le, Signal, silent, one, all, ones, alls, Monitor, Thread, Act,
}
use cpp_grpc_db.Interleaving.Waits.Discipline.{Discipline}
use cpp_grpc_db.Interleaving.Waits.Wakeups.{sleepers}
use cpp_grpc_db.WorkerPool.{
  passes, Options, Pool, try_posting, posting, submitting, Pc, entering, waiting_space, Event,
  locks, wakes, move,
}
use cpp_grpc_db.WorkerPool.Wakeups.{
  waits_space, is_wake, space_signal, space, is_closed, is_closing, AnyPool, move-stays_closed,
  move-begins_closing, start_awake, owes, is_closing-start,
}

space-sleeps :
    (noticed : Bool) (p : Pool) (pc : Pc) (e : Event)
    → (waits_space pc ≡ true → is_wake noticed pc e ≡ true)
    → waits_space (move p pc e).1 ≡ true
    → (space (move p pc e).0 ≡ 0) × (is_closed (move p pc e).0 ≡ false)
unfolding move
space-sleeps noticed p _ _ h s = ground arith

space-gains :
    (p : Pool) (pc : Pc) (e : Event)
    → AnyPool p
    → (1 ≤ is_closing pc → is_closed p ≡ true)
    → waits_space pc ≡ false
    → is_closed (move p pc e).0 ≡ false
    → space (move p pc e).0 ≤ space p + ones (space_signal p pc e)
unfolding move space_signal
space-gains p (entering try_posting t) locks any c h o =
    ground (arith, length-append p.queue (t ∷ []))
space-gains p (entering posting t) locks any c h o = ground (arith, length-append p.queue (t ∷ []))
space-gains p (entering submitting t) locks any c h o =
    ground (arith, length-append p.queue (t ∷ []))
space-gains p (entering try_posting t) passes any c h o =
    ground (arith, length-append p.queue (t ∷ []))
space-gains p (entering posting t) passes any c h o = ground (arith, length-append p.queue (t ∷ []))
space-gains p (entering submitting t) passes any c h o =
    ground (arith, length-append p.queue (t ∷ []))
space-gains p _ _ any c h o = ground arith

space-takes :
    (noticed : Bool) (p : Pool) (pc : Pc) (e : Event)
    → AnyPool p
    → waits_space pc ≡ true
    → is_wake noticed pc e ≡ true
    → waits_space (move p pc e).1 ≡ false
    → is_closed (move p pc e).0 ≡ false
    → space (move p pc e).0 ≤ space p - used noticed
unfolding move
space-takes noticed p (waiting_space k t) passes any h f s o =
    ground (arith, used_le noticed, length-append p.queue (t ∷ []))
space-takes noticed p (waiting_space k t) wakes any h f s o =
    ground (arith, used_le noticed, length-append p.queue (t ∷ []))
space-takes noticed p _ _ any h f s o = ground (arith, used_le noticed)

space-closes :
    (p : Pool) (pc : Pc) (e : Event)
    → is_closed p ≡ false
    → is_closed (move p pc e).0 ≡ true
    → 1 ≤ is_closing (move p pc e).1 + alls (space_signal p pc e)
unfolding move space_signal
space-closes p _ _ h o = ground arith

space-goes_on :
    (p : Pool) (pc : Pc) (e : Event)
    → is_closing pc ≤ is_closing (move p pc e).1 + alls (space_signal p pc e)
unfolding move space_signal
space-goes_on p _ _ = ground arith

pub space-Discipline :
    Discipline move waits_space is_wake space_signal AnyPool space is_closed is_closing
space-Discipline = record {
  stays_fine = λ p pc e any. tt;
  sleeps = space-sleeps;
  gains = space-gains;
  takes = space-takes;
  reopens_never = move-stays_closed;
  closes = space-closes;
  goes_on_closing = space-goes_on;
  begins_closing = move-begins_closing;
}

abbrev pub after_space : Options → ℕ → List (ℕ × Act Event) → System (Monitor Pool) (Thread Pc)
after_space opts clients xs =
    run (Waits.move move waits_space is_wake space_signal) (start_awake opts clients) xs

-- No wake-up of a producer is lost: when no thread has a notification of `space_cv_` to make and
-- none that was notified has yet to go on, a producer that sleeps for space has a full queue in
-- front of it, of a pool that is not stopping.
pub sleeping_producer-has_no_space :
    (opts : Options) (clients : ℕ) (xs : List (ℕ × Act Event))
    → 0 < (after_space opts clients xs).shared.asleep
    → (after_space opts clients xs).shared.notified ≡ 0
    → total owes (after_space opts clients xs).threads ≡ 0
    → ((after_space opts clients xs).shared.object.max_queue
        ≤ length (after_space opts clients xs).shared.object.queue)
      × ((after_space opts clients xs).shared.object.is_stopping ≡ false)
sleeping_producer-has_no_space opts clients xs some_asleep none_notified paid =
    let (nothing, still_open) =
      sleepers move waits_space is_wake space_signal AnyPool space is_closed is_closing
        space-Discipline (start_awake opts clients) xs tt (is_closing-start opts clients) refl
        some_asleep none_notified paid in
    (omega (arith, nothing), still_open)
