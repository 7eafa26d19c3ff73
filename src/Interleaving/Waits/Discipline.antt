-- ===== src/Interleaving/Waits/Discipline.antt =====
-- What an object promises to those who wait for it: a `capacity`, of which each that goes on takes
-- one, or that it is `closed`.
use cpp_grpc_db.Prelude.{ℕ, ◌+◌, ◌-◌, ◌≤◌, Bool, true, false, ◌≡◌}
use cpp_grpc_db.Interleaving.Waits.{Signal, ones, used, alls}

-- What the moves of an object do to its capacity, and when they notify. `closing` is 1 where a
-- thread is on its way to notify all.
pub record Discipline {P Pc Event : Type 0} (base : P → Pc → Event → P × Pc) (waits : Pc → Bool)
    (resumes : Bool → Pc → Event → Bool) (signal : P → Pc → Event → Signal) (fine : P → Type 0)
    (capacity : P → ℕ) (closed : P → Bool) (closing : Pc → ℕ) : Type 0 where
  pub stays_fine : (p : P) (pc : Pc) (e : Event) → fine p → fine (base p pc e).0
  -- a thread falls asleep only if there is nothing to have and the object is open
  pub sleeps :
      (noticed : Bool) (p : P) (pc : Pc) (e : Event)
      → (waits pc ≡ true → resumes noticed pc e ≡ true)
      → waits (base p pc e).1 ≡ true
      → (capacity (base p pc e).0 ≡ 0) × (closed (base p pc e).0 ≡ false)
  -- what comes in is notified
  pub gains :
      (p : P) (pc : Pc) (e : Event)
      → fine p
      → (1 ≤ closing pc → closed p ≡ true)
      → waits pc ≡ false
      → closed (base p pc e).0 ≡ false
      → capacity (base p pc e).0 ≤ capacity p + ones (signal p pc e)
  -- a thread that goes on takes its share, if there is one and if it was notified
  pub takes :
      (noticed : Bool) (p : P) (pc : Pc) (e : Event)
      → fine p
      → waits pc ≡ true
      → resumes noticed pc e ≡ true
      → waits (base p pc e).1 ≡ false
      → closed (base p pc e).0 ≡ false
      → capacity (base p pc e).0 ≤ capacity p - used noticed
  -- an object stays closed, and who closes it notifies all
  pub reopens_never :
      (p : P) (pc : Pc) (e : Event) → closed (base p pc e).0 ≡ false → closed p ≡ false
  pub closes :
      (p : P) (pc : Pc) (e : Event)
      → closed p ≡ false
      → closed (base p pc e).0 ≡ true
      → 1 ≤ closing (base p pc e).1 + alls (signal p pc e)
  pub goes_on_closing :
      (p : P) (pc : Pc) (e : Event) → closing pc ≤ closing (base p pc e).1 + alls (signal p pc e)
  pub begins_closing :
      (p : P) (pc : Pc) (e : Event)
      → closing pc ≡ 0
      → 1 ≤ closing (base p pc e).1
      → closed (base p pc e).0 ≡ true
