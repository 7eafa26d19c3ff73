-- ===== src/Interleaving/Waits.antt =====
-- A condition variable over the threads of a system. A thread whose program point `waits` sleeps
-- until it is notified, or goes on unasked: by a spurious wake-up, or at its deadline. What a move
-- has to notify, the thread owes until it calls `notify_one` or `notify_all`, behind the mutex.
-- Which of the sleeping threads a notification meets shows when that thread goes on, so that the
-- monitor counts the threads asleep and those notified.
pub mod Discipline
pub mod Closing
pub mod Covered
pub mod Announced
pub mod Wakeups
pub mod Erasure
use cpp_grpc_db.Prelude.{
  ℕ, ◌+◌, ◌-◌, ◌≤◌, ◌<◌, Bool, true, false, not, List, ◌==◌, if◌then◌else◌, total, ◌≡◌, arith,
  Bool-cases, inl, inr,
}
use cpp_grpc_db.Interleaving.{System, run, run-Balanced, Keeps}

pub data Signal : Type 0 where
  silent one all : Signal

pub record Monitor (P : Type 0) : Type 0 where
  pub object : P
  pub asleep : ℕ
  pub notified : ℕ

pub record Thread (Pc : Type 0) : Type 0 where
  pub pc : Pc
  pub owes : Signal

-- A thread notifies, or makes a move of its own; the Boolean tells of a sleeping thread that it was
-- notified.
pub data Act (Event : Type 0) : Type 0 where
  notifies : Act Event
  acts : Bool → Event → Act Event

abbrev pub ones : Signal → ℕ
ones one = 1
ones s = 0

abbrev pub alls : Signal → ℕ
alls all = 1
alls s = 0

abbrev pub used : Bool → ℕ
used true = 1
used false = 0

pub used_le : (noticed : Bool) → used noticed ≤ 1
used_le true = omega arith
used_le false = omega arith

abbrev pub is_silent : Signal → Bool
is_silent silent = true
is_silent s = false

module _ {P Pc Event : Type 0} (base : P → Pc → Event → P × Pc) (waits : Pc → Bool)
    (resumes : Bool → Pc → Event → Bool) (signal : P → Pc → Event → Signal) where
  abbrev pub deliver : Signal → Monitor P → Monitor P
  deliver silent m = m
  deliver one m =
      if m.asleep == 0 then m else record m { asleep = m.asleep - 1; notified = m.notified + 1 }
  deliver all m = record m { asleep = 0; notified = m.notified + m.asleep }

  abbrev pub fall_asleep : Pc → Monitor P → Monitor P
  fall_asleep pc m = if waits pc then record m { asleep = m.asleep + 1 } else m

  -- A move of the thread that has the monitor, from `pc`.
  abbrev pub acted : Monitor P → Pc → Event → Monitor P × Thread Pc
  acted m pc e =
      let (p, pc') = base m.object pc e in
      (fall_asleep pc' (record m { object = p }), record { pc = pc'; owes = signal m.object pc e })

  -- A sleeping thread goes on if it has what it names, and the event is one that ends its wait.
  abbrev pub resumed : Bool → Monitor P → Pc → Event → Thread Pc → Monitor P × Thread Pc
  resumed true m pc e t =
      if m.notified == 0 then (m, t) else acted (record m { notified = m.notified - 1 }) pc e
  resumed false m pc e t =
      if m.asleep == 0 then (m, t) else acted (record m { asleep = m.asleep - 1 }) pc e

  unfoldable pub move : Monitor P → Thread Pc → Act Event → Monitor P × Thread Pc
  move m t notifies = (deliver t.owes m, record t { owes = silent })
  move m t (acts noticed e) =
      if not (is_silent t.owes)
      then (m, t)
      else if not (waits t.pc)
      then acted m t.pc e
      else if resumes noticed t.pc e
      then resumed noticed m t.pc e t
      else (m, t)
