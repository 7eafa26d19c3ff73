-- ===== src/WorkerPool/Joining.antt =====
-- The join of `shutdown`: that it comes to its end.
use mathlib.Core.Option.{some-injective}
use cpp_grpc_db.Prelude.{
  ◌∙◌, ℕ, zero, suc, ◌+◌, ◌*◌, ◌≤◌, ◌<◌, ◌⊎◌, true, List, [], ◌∷◌, some, get_elem?,
  get_elem?-set_same, get_elem?-set_other, total, total-set, le-total, total-part, pos-or-zero,
  length, ◌≡◌, ◌≢◌, refl, sym, ap, arith, inl, inr,
}
use cpp_grpc_db.Interleaving.{System, step, run, Keeps, run-Balanced, step-Balanced}
use cpp_grpc_db.WorkerPool.{
  Options, Pool, try_posting, posting, submitting, Pc, away, entering, joining, stopped, fetching,
  waiting_task, carrying, permitted, running, releasing, Event, calls, locks, wakes, acquires,
  starts, finishes, releases, joins, move, normalize, new_pool, start,
}
use cpp_grpc_db.WorkerPool.Limits.{after, holds, Permits, move-Permits}
use cpp_grpc_db.WorkerPool.Shutdown.{works, Counted, move-Counted, total_start}
use cpp_grpc_db.WorkerPool.Refusal.{asks, Asked, move-Asked, step_refuses}

-- What a worker does next, and the moves that it has left but for the tasks that are queued.
abbrev next : Pc → Event
next fetching = locks
next waiting_task = wakes
next (carrying t) = acquires
next (permitted t) = starts
next (running t) = finishes
next releasing = releases
next pc = joins

abbrev moves_left : Pc → ℕ
moves_left (carrying t) = 5
moves_left (permitted t) = 4
moves_left (running t) = 3
moves_left releasing = 2
moves_left fetching = 1
moves_left waiting_task = 1
moves_left pc = 0

abbrev pub left : System Pool Pc → ℕ
left s = 5 * length s.shared.queue + total moves_left s.threads

-- A worker that does not wait at the semaphore gets on.
move-left :
    (pc : Pc) (p : Pool)
    → p.is_stopping ≡ true
    → 0 < works pc
    → (0 < holds pc) ⊎ (0 < p.permits)
    → 5 * length (move p pc (next pc)).0.queue + moves_left (move p pc (next pc)).1
      < 5 * length p.queue + moves_left pc
unfolding move
move-left _ p stops work free = ground arith

abbrev Ample : Pool → ℕ → Type 0
Ample p n = 0 < p.parallelism

move-Ample : (pc : Pc) (e : Event) → Keeps move holds Ample pc e
unfolding move
move-Ample away (calls k t) p n b = ground arith
move-Ample (entering try_posting t) locks p n b = ground arith
move-Ample (entering posting t) locks p n b = ground arith
move-Ample (entering submitting t) locks p n b = ground arith
move-Ample (carrying t) acquires p n b = ground arith
move-Ample _ _ p n b = ground arith

-- Thread `i` has asked the pool to stop, and joins the workers.
record IsJoining (i : ℕ) (s : System Pool Pc) : Type 0 where
  stops : s.shared.is_stopping ≡ true
  counted : s.shared.alive ≡ total works s.threads
  permits : s.shared.permits + total holds s.threads ≡ s.shared.parallelism
  ample : 0 < s.shared.parallelism
  here : get_elem? s.threads i ≡ some joining

worker-joining : (pc : Pc) → 0 < works pc → pc ≢ joining
worker-joining _ work same = ground arith

step-here :
    (s : System Pool Pc) (i j : ℕ) (pc : Pc) (e : Event)
    → get_elem? s.threads j ≡ some pc
    → 0 < works pc
    → get_elem? s.threads i ≡ some joining
    → get_elem? (step move s (j, e)).threads i ≡ some joining
unfolding step
step-here s i j pc e at work here =
    rw (at, step)
      (get_elem?-set_other s.threads j i (move s.shared pc e).1 {x = joining}
        (λ same.
          worker-joining pc work
            (some-injective _ _ (sym at ∙ ap (get_elem? s.threads) same ∙ here)))
        here)

step-left :
    (s : System Pool Pc) (j : ℕ) (pc : Pc)
    → get_elem? s.threads j ≡ some pc
    → s.shared.is_stopping ≡ true
    → 0 < works pc
    → (0 < holds pc) ⊎ (0 < s.shared.permits)
    → left (step move s (j, next pc)) < left s
unfolding step
step-left s j pc at stops work free =
    let one = move-left pc s.shared stops work free in
    let heavy = le-total moves_left s.threads j {x = pc} at in
    let others = total-set moves_left s.threads j (move s.shared pc (next pc)).1 {x = pc} at in
    rw (at, step) (omega (arith, one, heavy, others))

holds-works : (pc : Pc) → 0 < holds pc → 0 < works pc
holds-works _ held = ground arith

-- A worker that gets on: one that has a permit, or any if there are permits.
free_worker :
    (i : ℕ) (s : System Pool Pc)
    → IsJoining i s
    → 0 < total works s.threads
    → (j : ℕ) × (pc : Pc) × (get_elem? s.threads j ≡ some pc)
      × (0 < works pc)
      × ((0 < holds pc) ⊎ (0 < s.shared.permits))
free_worker i s h work = elim (pos-or-zero (total holds s.threads)) [
  | inl held ↦
      let (j, pc, at, holds_here) = total-part holds s.threads held in
      (j, pc, at, holds-works pc holds_here, inl holds_here)
  | inr none_held ↦
      let (j, pc, at, works_here) = total-part works s.threads work in
      (j, pc, at, works_here, inr (omega (arith, h.permits, h.ample)))
]

step-IsJoining :
    (i : ℕ) (s : System Pool Pc) (j : ℕ) (pc : Pc) (e : Event)
    → IsJoining i s
    → get_elem? s.threads j ≡ some pc
    → 0 < works pc
    → IsJoining i (step move s (j, e))
step-IsJoining i s j pc e h at work = record {
  stops = (step_refuses s j e h.stops).0;
  counted = step-Balanced move works Counted move-Counted s (j, e) h.counted;
  permits = step-Balanced move holds Permits move-Permits s (j, e) h.permits;
  ample = step-Balanced move holds Ample move-Ample s (j, e) h.ample;
  here = step-here s i j pc e at work h.here;
}

parallelism-pos : (opts : Options) → 0 < (new_pool opts).parallelism
unfolding new_pool normalize
parallelism-pos opts = ground arith

abbrev pub Returns : ℕ → System Pool Pc → ℕ → Type 0
Returns i s n =
    (ys : List (ℕ × Event)) × (length ys ≤ suc n)
    × (get_elem? (run move s ys).threads i ≡ some stopped)

join_returns : (p : Pool) → p.alive ≡ 0 → (move p joining joins).1 ≡ stopped
unfolding move
join_returns p none_alive = ground arith

all_ended-Returns :
    (i : ℕ) (s : System Pool Pc) (n : ℕ) → IsJoining i s → total works s.threads ≡ 0 → Returns i s n
unfolding run step
all_ended-Returns i s n h none_works = (
  (i, joins) ∷ [],
  omega arith,
  rw (h.here, step)
      (get_elem?-set_same s.threads i (move s.shared joining joins).1 {x = joining} h.here
        ∙ ap some (join_returns s.shared (h.counted ∙ none_works))),
)

gets_on :
    (i : ℕ) (s : System Pool Pc)
    → IsJoining i s
    → 0 < total works s.threads
    → (x : ℕ × Event) × IsJoining i (step move s x) × (left (step move s x) < left s)
gets_on i s h work =
    let (j, pc, at, works_here, free) = free_worker i s h work in
    (
      (j, next pc),
      step-IsJoining i s j pc (next pc) h at works_here,
      step-left s j pc at h.stops works_here free,
    )

joining-Returns : (i n : ℕ) (s : System Pool Pc) → IsJoining i s → left s ≤ n → Returns i s n
unfolding run
joining-Returns i zero s h few = elim (pos-or-zero (total works s.threads)) [
  | inr none_works ↦ all_ended-Returns i s zero h none_works
  | inl work ↦ let (x, still, less) = gets_on i s h work in absurd (omega (arith, few, less))
]
joining-Returns i (suc n) s h few = elim (pos-or-zero (total works s.threads)) [
  | inr none_works ↦ all_ended-Returns i s (suc n) h none_works
  | inl work ↦
      let (x, still, less) = gets_on i s h work in
      let (ys, short, there) =
        joining-Returns i n (step move s x) still (omega (arith, few, less)) in
      (x ∷ ys, omega (arith, short), there)
]

after-IsJoining :
    (opts : Options) (clients : ℕ) (xs : List (ℕ × Event)) (i : ℕ)
    → get_elem? (after opts clients xs).threads i ≡ some joining
    → IsJoining i (after opts clients xs)
after-IsJoining opts clients xs i at =
    let s0 = start opts clients in
    let s = after opts clients xs in
    let none_ask = total_start asks opts clients 0 refl refl in
    let none_hold = total_start holds opts clients 0 refl refl in
    let all_work = total_start works opts clients 1 refl refl in
    let asked : 0 < total asks s.threads → s.shared.is_stopping ≡ true =
      run-Balanced move asks Asked move-Asked s0 xs (λ h. absurd (omega arith)) in
    record {
      stops = asked (omega (arith, le-total asks s.threads i {x = joining} at));
      counted =
          run-Balanced move works Counted move-Counted s0 xs
            (unfold new_pool in omega (arith, all_work));
      permits =
          run-Balanced move holds Permits move-Permits s0 xs
            (unfold new_pool in omega (arith, none_hold));
      ample = run-Balanced move holds Ample move-Ample s0 xs (parallelism-pos opts);
      here = at;
    }

-- In every schedule of a new pool in which a call of `shutdown` has come to joining the workers, no
-- deadlock keeps it there: some further schedule lets it return. That has at most one move more than
-- `left` counts, which is five for each queued task and up to five for each worker.
pub shutdown-Returns :
    (opts : Options) (clients : ℕ) (xs : List (ℕ × Event)) (i : ℕ)
    → get_elem? (after opts clients xs).threads i ≡ some joining
    → Returns i (after opts clients xs) (left (after opts clients xs))
shutdown-Returns opts clients xs i at =
    joining-Returns i (left (after opts clients xs)) (after opts clients xs)
      (after-IsJoining opts clients xs i at) (omega arith)
