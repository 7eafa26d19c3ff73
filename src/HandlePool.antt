-- ===== src/HandlePool.antt =====
-- src/resource/resource_handle.h: `resource_pool::ResourcePool`, the pool that lends resources as
-- `ResourceHandle`. As in ResourcePool, what a thread does while it holds `mutex_` is one move, and
-- the callbacks and the waits are program points. The destroyer has no effect on the pool.
-- `forceShutdown` calls `available_.pop()`, which `std::vector` does not have, and so has no
-- meaning as soon as it is instantiated; it is left out.
pub mod Ledger
pub mod Stats
pub mod Rejection
pub mod Ownership
pub mod Handles
pub mod Construction
pub mod Wakeups
use cpp_grpc_db.Prelude.{
  ℕ, Bool, true, false, not, ◌&&◌, List, [], ◌∷◌, ltb, ◌==◌, if◌then◌else◌, length, inc64, dec64,
}
use cpp_grpc_db.Callbacks.{Verdict, is_ok, Made, threw, null, made}

pub record PoolConfig : Type 0 where
  pub initial_size : ℕ
  pub max_size : ℕ
  pub validate_on_acquire : Bool
  pub validate_on_return : Bool

-- The head of `available` is the back of the vector `available_`.
pub record Pool : Type 0 where
  pub config : PoolConfig
  pub open config use *
  pub has_validator : Bool
  pub available : List ℕ
  pub total_created : ℕ
  pub is_shutdown : Bool

-- `acquire` and `tryAcquire`.
pub data Mode : Type 0 where
  acquiring trying : Mode

pub data Failure : Type 0 where
  shut_down timeout factory_threw factory_null validator_rejected : Failure

-- How a call ends with no handle: a `PoolException` or the factory's exception; `std::nullopt`;
-- the result of `shutdownAndWait`.
pub data Outcome : Type 0 where
  throws : Failure → Outcome
  nothing : Outcome
  waited : Bool → Outcome

pub data Pc : Type 0 where
  -- outside the pool; a call has ended without a handle
  away : Pc
  ended : Outcome → Pc
  -- about to lock at the head of the call; in `cv_.wait_until`
  entering : Mode → Pc
  waiting : Pc
  -- the validator runs on an idle resource
  validating : Mode → ℕ → Pc
  -- the factory runs; the validator runs on the new resource; about to roll the reservation back
  creating : Mode → Pc
  checking : Mode → ℕ → Pc
  rolling_back : Outcome → Pc
  -- about to roll back for the rejection, and then again in `catch (...)`
  rolling_back_twice : Pc
  -- the caller owns a handle; in `returnResource`: the validator runs; about to lock
  holding returning : ℕ → Pc
  storing : ℕ → Bool → Pc
  -- in the wait of `shutdownAndWait`
  draining : Pc

pub data Event : Type 0 where
  calls : Mode → Event
  locks wakes times_out : Event
  validates : Verdict → Event
  makes : Made → Event
  -- the handle is released or destroyed
  drops : Event
  shuts_down shuts_down_and_waits : Event

abbrev pub grow : Pool → Pool
grow p = record p { total_created = inc64 p.total_created }

abbrev pub shrink : Pool → Pool
shrink p = record p { total_created = dec64 p.total_created }

abbrev pub has_room : Pool → Bool
has_room p = ltb p.total_created p.max_size

-- `available_.back()` is taken, and validated if the pool is configured so.
take_available : Pool → Mode → ℕ → List ℕ → Pool × Pc
take_available p m r rest = (
  record p { available = rest },
  if p.validate_on_acquire && p.has_validator then validating m r else holding r,
)

-- `if (!available_.empty()) … else if (total_created_ < config_.max_size) …`, and what is done else.
available_or : List ℕ → Pool → Mode → Pc → Pool × Pc
available_or [] p m other = if has_room p then (grow p, creating m) else (p, other)
available_or (r ∷ rest) p m other = take_available p m r rest

-- The head of the loop of `acquire`, and `tryAcquire`, with the mutex held.
acquire_head : Pool → Pool × Pc
acquire_head p =
    if p.is_shutdown
    then (p, ended (throws shut_down))
    else available_or p.available p acquiring waiting

try_head : Pool → Pool × Pc
try_head p =
    if p.is_shutdown then (p, ended nothing) else available_or p.available p trying (ended nothing)

-- The validator has run on an idle resource: `acquire` goes on in its loop, `tryAcquire` gives up.
validated : Pool → Mode → ℕ → Bool → Pool × Pc
validated p acquiring r valid = if not valid then acquire_head (shrink p) else (p, holding r)
validated p trying r valid = if not valid then (shrink p, ended nothing) else (p, holding r)

factory_made : Pool → Mode → Made → Pool × Pc
factory_made p acquiring threw = (p, rolling_back (throws factory_threw))
factory_made p acquiring null = (p, rolling_back (throws factory_null))
factory_made p trying threw = (p, rolling_back nothing)
factory_made p trying null = (p, rolling_back nothing)
factory_made p m (made r) = (p, if p.has_validator then checking m r else holding r)

-- The validator has run on a new resource. In `acquire` the rejection rolls back, and throws
-- inside the `try` whose handler rolls back too.
checked : Mode → ℕ → Bool → Pc
checked acquiring r valid = if not valid then rolling_back_twice else holding r
checked trying r valid = if not valid then rolling_back nothing else holding r

-- `returnResource`, behind the validator.
stored : Pool → ℕ → Bool → Pool × Pc
stored p r valid =
    if p.is_shutdown
    then (shrink p, away)
    else if not valid
    then (shrink p, away)
    else (record p { available = r ∷ p.available }, away)

unfoldable pub shutdown : Pool → Pool
shutdown p = if p.is_shutdown then p else record p { is_shutdown = true; available = [] }

-- The predicate of the wait in `shutdownAndWait`.
abbrev pub all_returned : Pool → Bool
all_returned p = length p.available == p.total_created

drained : Pool → Bool → Pool × Pc
drained p returned = (record p { available = [] }, ended (waited returned))

-- The wait tests its predicate before it blocks.
shutdown_and_wait : Pool → Pool × Pc
shutdown_and_wait p =
    if p.is_shutdown
    then (p, ended (waited (all_returned p)))
    else if all_returned p
    then drained (record p { is_shutdown = true }) true
    else (record p { is_shutdown = true }, draining)

-- One move of one thread; an event that does not fit its program point changes nothing.
unfoldable pub move : Pool → Pc → Event → Pool × Pc
unfolding take_available available_or acquire_head try_head validated factory_made checked stored
    shutdown shutdown_and_wait drained
move p away (calls m) = (p, entering m)
move p away shuts_down = (shutdown p, away)
move p away shuts_down_and_waits = shutdown_and_wait p
move p (ended o) (calls m) = (p, entering m)
move p (ended o) shuts_down = (shutdown p, ended o)
move p (ended o) shuts_down_and_waits = shutdown_and_wait p
move p (entering acquiring) locks = acquire_head p
move p (entering trying) locks = try_head p
move p waiting wakes = acquire_head p
move p waiting times_out = (p, ended (throws timeout))
move p (validating m r) (validates v) = validated p m r (is_ok v)
move p (creating m) (makes x) = factory_made p m x
move p (checking m r) (validates v) = (p, checked m r (is_ok v))
move p (rolling_back o) locks = (shrink p, ended o)
move p rolling_back_twice locks = (shrink p, rolling_back (throws validator_rejected))
move p (holding r) drops =
    (p, if p.validate_on_return && p.has_validator then returning r else storing r true)
move p (returning r) (validates v) = (p, storing r (is_ok v))
move p (storing r valid) locks = stored p r valid
move p draining wakes = if all_returned p then drained p true else (p, draining)
move p draining times_out = drained p (all_returned p)
move p pc e = (p, pc)
