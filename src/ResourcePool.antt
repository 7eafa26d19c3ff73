-- ===== src/ResourcePool.antt =====
-- src/resource/resource_pool.hpp: `resource::ResourcePool`, the pool that lends resources as
-- `std::shared_ptr`. What a thread does while it holds `mtx_` is one move; a thread that runs the
-- factory or the validator, or waits on `cv_`, is at a program point of its own, so that the moves
-- of other threads come between. `notify_one` and `notify_all` let a waiting thread test its
-- predicate again; it may also do so unasked. Which of them are made
-- is said in Wakeups.
pub mod Ledger
pub mod Creation
pub mod Ownership
pub mod Size
pub mod Wakeups
pub mod Calls
use cpp_grpc_db.Prelude.{
  ℕ, zero, suc, ◌+◌, Bool, true, false, not, ◌&&◌, ◌||◌, List, [], ◌∷◌, ltb, ◌==◌, if◌then◌else◌,
  inc64, dec64,
}
use cpp_grpc_db.Callbacks.{Verdict, is_ok, Made, threw, null, made}

-- The head of `idle` is the back of the vector `idle_`.
pub record Pool : Type 0 where
  pub max_size : ℕ
  pub has_validator : Bool
  pub idle : List ℕ
  pub total : ℕ
  pub shutting_down : Bool

-- `acquire`; `acquire_for` and `acquire_until` with a deadline; `try_acquire`.
pub data Mode : Type 0 where
  blocking timed trying : Mode

pub data Failure : Type 0 where
  is_shutting_down factory_threw factory_null validator_rejected : Failure

-- How a call ends that yields no resource: an exception, or a null `shared_ptr`.
pub data Outcome : Type 0 where
  throws : Failure → Outcome
  null_ptr : Outcome

-- Where a thread is.
pub data Pc : Type 0 where
  -- outside the pool; a call has ended without a resource
  away : Pc
  ended : Mode → Outcome → Pc
  -- about to lock at the head of the call's loop; in `cv_.wait` or `cv_.wait_until`
  entering waiting : Mode → Pc
  -- in `make_shared_from_idle_locked`: the validator runs on an idle resource; the resource was
  -- discarded, about to lock again
  validating : Mode → ℕ → Pc
  discarded : Mode → Pc
  -- in `make_shared_from_factory`: the factory runs; the validator runs; about to roll back
  creating : Mode → Pc
  checking : Mode → ℕ → Pc
  rolling_back : Mode → Failure → Pc
  -- the caller owns a resource; in `release_raw`: the validator runs; about to lock
  holding returning : ℕ → Pc
  storing : ℕ → Bool → Pc

pub data Event : Type 0 where
  calls : Mode → Event
  -- the mutex is taken, and what is done under it is done
  locks : Event
  -- the wait's predicate is tested, and the deadline has passed or not
  wakes times_out : Event
  validates : Verdict → Event
  makes : Made → Event
  -- the last `shared_ptr` to the resource goes
  drops : Event
  shuts_down : Event

-- `total_` is `std::size_t`.
abbrev pub grow : Pool → Pool
grow p = record p { total = inc64 p.total }

abbrev pub shrink : Pool → Pool
shrink p = record p { total = dec64 p.total }

abbrev pub has_room : Pool → Bool
has_room p = ltb p.total p.max_size

abbrev pub is_empty : List ℕ → Bool
is_empty [] = true
is_empty (r ∷ rest) = false

-- The predicate of both waits.
abbrev pub may_go : Pool → Bool
may_go p = p.shutting_down || not (is_empty p.idle) || has_room p

-- The first half of `make_shared_from_idle_locked`, on `idle_.back()`.
take_idle : Pool → Mode → ℕ → List ℕ → Pool × Pc
take_idle p m r rest =
    (record p { idle = rest }, if p.has_validator then validating m r else holding r)

-- `if (total_ < max_size_) { ++total_; … make_shared_from_factory(); }`, and what is done else.
create_or : Pool → Mode → Pool × Pc → Pool × Pc
create_or p m other = if has_room p then (grow p, creating m) else other

-- `if (!idle_.empty()) …`, and what is done else.
idle_or : List ℕ → Pool → Mode → Pool × Pc → Pool × Pc
idle_or [] p m other = other
idle_or (r ∷ rest) p m other = take_idle p m r rest

-- The head of the loop of `acquire_until`, with the mutex held.
acquire_head : Pool → Mode → Pool × Pc
acquire_head p m =
    if p.shutting_down
    then (p, ended m (throws is_shutting_down))
    else idle_or p.idle p m (create_or p m (p, waiting m))

-- `try_acquire`.
try_head : Pool → Pool × Pc
try_head p =
    if p.shutting_down
    then (p, ended trying null_ptr)
    else idle_or p.idle p trying (create_or p trying (p, ended trying null_ptr))

abbrev head : Pool → Mode → Pool × Pc
head p trying = try_head p
head p m = acquire_head p m

-- A null pointer from `make_shared_from_idle_locked`: `try_acquire` returns it, `acquire_until`
-- goes back to the head of its loop, in `relocked` with the mutex still held.
null_unlocked : Pool → Mode → Pool × Pc
null_unlocked p trying = (p, ended trying null_ptr)
null_unlocked p m = (p, entering m)

null_locked : Pool → Mode → Pool × Pc
null_locked p trying = (p, ended trying null_ptr)
null_locked p m = acquire_head p m

-- The second half, once the validator has run on `r` and the mutex is taken again.
validated : Pool → Mode → ℕ → Bool → Pool × Pc
validated p m r good =
    if p.shutting_down
    then null_unlocked (shrink p) m
    else if good
    then (p, holding r)
    else (shrink p, discarded m)

-- The mutex is taken once more behind a discarded resource.
relocked : Pool → Mode → Pool × Pc
relocked p m = idle_or p.idle p m (create_or p m (null_locked p m))

-- `make_shared_from_factory`.
factory_made : Pool → Mode → Made → Pool × Pc
factory_made p m threw = (p, rolling_back m factory_threw)
factory_made p m null = (p, rolling_back m factory_null)
factory_made p m (made r) = (p, if p.has_validator then checking m r else holding r)

-- The waits. A thread whose predicate fails waits on; behind the deadline it returns null.
woken : Pool → Mode → Pool × Pc
woken p m = if may_go p then acquire_head p m else (p, waiting m)

expired : Pool → Mode → Pool × Pc
expired p timed = if may_go p then acquire_head p timed else (p, ended timed null_ptr)
expired p m = (p, waiting m)

-- `release_raw`, behind the validator.
stored : Pool → ℕ → Bool → Pool × Pc
stored p r valid =
    if p.shutting_down
    then (shrink p, away)
    else if not valid
    then (shrink p, away)
    else (record p { idle = r ∷ p.idle }, away)

unfoldable pub shutdown : Pool → Pool
shutdown p = if p.shutting_down then p else record p { shutting_down = true; idle = [] }

-- One move of one thread; an event that does not fit its program point changes nothing.
unfoldable pub move : Pool → Pc → Event → Pool × Pc
unfolding take_idle create_or idle_or acquire_head try_head null_unlocked null_locked validated
    relocked factory_made woken expired stored shutdown
move p away (calls m) = (p, entering m)
move p away shuts_down = (shutdown p, away)
move p (ended k o) (calls m) = (p, entering m)
move p (ended k o) shuts_down = (shutdown p, ended k o)
move p (entering m) locks = head p m
move p (waiting m) wakes = woken p m
move p (waiting m) times_out = expired p m
move p (validating m r) (validates v) = validated p m r (is_ok v)
move p (discarded m) locks = relocked p m
move p (creating m) (makes x) = factory_made p m x
move p (checking m r) (validates v) =
    (p, if is_ok v then holding r else rolling_back m validator_rejected)
move p (rolling_back m e) locks = (shrink p, ended m (throws e))
move p (holding r) drops = (p, if p.has_validator then returning r else storing r true)
move p (returning r) (validates v) = (p, storing r (is_ok v))
move p (storing r valid) locks = stored p r valid
move p pc e = (p, pc)
