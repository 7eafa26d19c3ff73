-- ===== src/HandlePool/Construction.antt =====
-- The constructor of `resource_pool::ResourcePool`. `trials i` is what the factory and the
-- validator do in round `i` of the initial allocation; they throw `std::exception`s only.
use cpp_grpc_db.Prelude.{
  ℕ, zero, suc, ◌+◌, ◌<◌, ◌≤◌, Bool, false, not, ◌&&◌, [], ◌∷◌, ltb, if◌then◌else◌, length,
  size_mod, ◌≡◌, ◌⊎◌, refl, arith, inl, inr, inc64,
}
use cpp_grpc_db.Callbacks.{Verdict, is_ok, Made, threw, null, made}
use cpp_grpc_db.HandlePool.{PoolConfig, Pool}
use cpp_grpc_db.HandlePool.Ledger.{Books}

pub data InitError : Type 0 where
  null_factory initial_exceeds_max : InitError
  -- `Failed to initialize pool: …`
  factory_failed null_resource rejected_resource : InitError

pub data Result (A : Type 0) : Type 0 where
  ok : A → Result A
  err : InitError → Result A

pub empty_pool : PoolConfig → Bool → Pool
empty_pool c v = record {
  config = c;
  has_validator = v;
  available = [];
  total_created = 0;
  is_shutdown = false;
}

-- The body of the loop: `available_.push_back(…); ++total_created_`, or an exception.
allocated : Made × Verdict → Pool → Result Pool
allocated (threw, v) p = err factory_failed
allocated (null, v) p = err null_resource
allocated (made r, v) p =
    if p.has_validator && not (is_ok v)
    then err rejected_resource
    else ok (record p { available = r ∷ p.available; total_created = inc64 p.total_created })

allocate : ℕ → ℕ → (ℕ → Made × Verdict) → Pool → Result Pool
allocate zero i trials p = ok p
allocate (suc rounds) i trials p = elim (allocated (trials i) p) [
  | ok q ↦ allocate rounds (i + 1) trials q
  | err e ↦ err e
]

unfoldable pub construct : Bool → PoolConfig → Bool → (ℕ → Made × Verdict) → Result Pool
unfolding empty_pool allocate allocated
construct has_factory c has_validator trials =
    if not has_factory
    then err null_factory
    else if ltb c.max_size c.initial_size
    then err initial_exceeds_max
    else allocate c.initial_size 0 trials (empty_pool c has_validator)

-- What `rounds` rounds do to a pool.
record Grown (p q : Pool) (rounds : ℕ) : Type 0 where
  sized : length q.available ≡ length p.available + rounds
  counted : q.total_created ≡ p.total_created + rounds
  same_config : q.config ≡ p.config
  same_validator : q.has_validator ≡ p.has_validator
  same_flag : q.is_shutdown ≡ p.is_shutdown

allocated-Grown :
    (t : Made × Verdict) (p q : Pool)
    → p.total_created + 1 < size_mod
    → allocated t p ≡ ok q
    → Grown p q 1
unfolding allocated
allocated-Grown (threw, v) p q small h = cc
allocated-Grown (null, v) p q small h = cc
allocated-Grown (made r, v) p q small h = ground arith

Result-cases : (r : Result Pool) → ((q : Pool) × (r ≡ ok q)) ⊎ ((e : InitError) × (r ≡ err e))
Result-cases (ok q) = inl (q, refl)
Result-cases (err e) = inr (e, refl)

allocate-Grown :
    (rounds i : ℕ) (trials : ℕ → Made × Verdict) (p q : Pool)
    → p.total_created + rounds < size_mod
    → allocate rounds i trials p ≡ ok q
    → Grown p q rounds
unfolding allocate
allocate-Grown zero i trials p q small h = ground arith
allocate-Grown (suc rounds) i trials p q small h = elim (Result-cases (allocated (trials i) p)) [
  | inl (m, e) ↦
      let one = allocated-Grown (trials i) p m (omega arith) e in
      let rest =
        allocate-Grown rounds (i + 1) trials m q (omega (arith, one.counted))
          (rw (e, allocate) at h) in
      ground arith
  | inr (x, e) ↦ let bad : ◌≡◌ {A = Result Pool} (err x) (ok q) = rw (e, allocate) at h in cc
]

-- A pool whose constructor returns holds `initial_size` idle resources, that is no more than
-- `max_size`, is not shut down, and its books are in order with no resource lent.
pub construct-Books :
    (has_factory : Bool) (c : PoolConfig) (has_validator : Bool) (trials : ℕ → Made × Verdict)
    (p : Pool)
    → c.max_size < size_mod
    → construct has_factory c has_validator trials ≡ ok p
    → (length p.available ≡ c.initial_size)
      × (c.initial_size ≤ c.max_size)
      × (p.config ≡ c)
      × (p.is_shutdown ≡ false)
      × Books p 0
unfolding construct
construct-Books has_factory c has_validator trials p word h =
    let grown = allocate-Grown c.initial_size 0 trials (empty_pool c has_validator) p in
    ground (arith, grown)
