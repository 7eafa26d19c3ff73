-- ===== src/ResourcePool/Creation.antt =====
-- `ResourcePool::create`, the constructor and `perform_warmup`. The calls of the factory and of the
-- validator during the warm-up are numbered; `trials i` is the outcome of the two calls of round `i`.
use cpp_grpc_db.Prelude.{
  ℕ, zero, suc, ◌+◌, ◌%◌, ◌<◌, Bool, true, false, not, ◌&&◌, List, [], ◌∷◌, ◌++◌, ◌==◌,
  if◌then◌else◌, length, min, size_mod, subst, ◌⊎◌, ◌≡◌, refl, ap, arith, append-nil, ==_iff,
  Bool-cases, inl, inr, All,
}
use cpp_grpc_db.Callbacks.{Verdict, is_ok, Made, threw, null, made}
use cpp_grpc_db.ResourcePool.{Pool}
use cpp_grpc_db.ResourcePool.Ledger.{Books}

pub data CreateError : Type 0 where
  empty_factory factory_threw warmup_null warmup_rejected : CreateError

pub data Result (A : Type 0) : Type 0 where
  ok : A → Result A
  err : CreateError → Result A

unfoldable pub new_pool : ℕ → Bool → Pool
new_pool max_size has_validator = record {
  max_size = if max_size == 0 then 1 else max_size;
  has_validator = has_validator;
  idle = [];
  total = 0;
  shutting_down = false;
}

-- The checks of one round.
one_trial : Bool → Made × Verdict → Result ℕ
one_trial has_validator (threw, v) = err factory_threw
one_trial has_validator (null, v) = err warmup_null
one_trial has_validator (made r, v) =
    if has_validator && not (is_ok v) then err warmup_rejected else ok r

-- The loop from round `i` on, with the rounds left; the head of `created` is its last element.
warm : ℕ → ℕ → Bool → (ℕ → Made × Verdict) → List ℕ → Result (List ℕ)
warm zero i has_validator trials created = ok created
warm (suc rounds) i has_validator trials created = elim (one_trial has_validator (trials i)) [
  | ok r ↦ warm rounds (i + 1) has_validator trials (r ∷ created)
  | err e ↦ err e
]

-- `perform_warmup`, with what it commits under the mutex.
unfoldable pub perform_warmup : Pool → ℕ → (ℕ → Made × Verdict) → Result Pool
unfolding warm one_trial
perform_warmup p warmup_size trials =
    let target = min warmup_size p.max_size in
    elim (warm target 0 p.has_validator trials []) [
      | ok created ↦
          ok (record p { idle = created ++ p.idle; total = (p.total + target) % size_mod })
      | err e ↦ err e
    ]

unfoldable pub create : Bool → ℕ → Bool → ℕ → (ℕ → Made × Verdict) → Result Pool
unfolding new_pool perform_warmup
create has_factory max_size has_validator warmup_size trials =
    if not has_factory
    then err empty_factory
    else if warmup_size == 0
    then ok (new_pool max_size has_validator)
    else perform_warmup (new_pool max_size has_validator) warmup_size trials

-- A resource that a good round below `n` made.
abbrev pub GoodBelow : Bool → (ℕ → Made × Verdict) → ℕ → ℕ → Type 0
GoodBelow has_validator trials n r =
    (i : ℕ) × (i < n)
    × ((trials i).0 ≡ made r)
    × (has_validator ≡ true → (trials i).1 ≡ Verdict.accepts)

one_trial-Good :
    (has_validator : Bool) (t : Made × Verdict) {r : ℕ}
    → one_trial has_validator t ≡ ok r
    → (t.0 ≡ made r) × (has_validator ≡ true → t.1 ≡ Verdict.accepts)
unfolding one_trial
one_trial-Good has_validator (threw, v) h = cc
one_trial-Good has_validator (null, v) h = cc
one_trial-Good has_validator (made x, v) h = ground arith

GoodBelow-suc :
    (has_validator : Bool) (trials : ℕ → Made × Verdict) (n : ℕ) (rs : List ℕ)
    → All (GoodBelow has_validator trials n) rs
    → All (GoodBelow has_validator trials (n + 1)) rs
GoodBelow-suc has_validator trials n [] h = tt
GoodBelow-suc has_validator trials n (r ∷ rs) ((i, lt, m, v), h) =
    ((i, omega arith, m, v), GoodBelow-suc has_validator trials n rs h)

Result-cases :
    {A : Type 0} (r : Result A) → ((a : A) × (r ≡ ok a)) ⊎ ((e : CreateError) × (r ≡ err e))
Result-cases (ok a) = inl (a, refl)
Result-cases (err e) = inr (e, refl)

ok-injective : {a b : List ℕ} → ok a ≡ ok b → a ≡ b
ok-injective h = ground arith

module _ (has_validator : Bool) (trials : ℕ → Made × Verdict) where
  abbrev Good : ℕ → List ℕ → Type 0
  Good n = All (GoodBelow has_validator trials n)

  warm_lem :
      (rounds i : ℕ) (created : List ℕ) {result : List ℕ}
      → warm rounds i has_validator trials created ≡ ok result
      → Good i created
      → (length result ≡ length created + rounds) × Good (i + rounds) result
  unfolding warm
  warm_lem zero i created h good =
      let same = ok-injective h in
      (
        omega (arith, ap length same),
        subst (Good (i + 0)) same
            (subst (λ n. Good n created) {x = i} {y = i + 0} (omega arith) good),
      )
  warm_lem (suc rounds) i created {result} h good =
      elim (Result-cases (one_trial has_validator (trials i))) [
        | inl (r, e) ↦
            let rest : warm rounds (i + 1) has_validator trials (r ∷ created) ≡ ok result =
              rw (e, warm) at h in
            let now = one_trial-Good has_validator (trials i) {r = r} e in
            let (sized, all) =
              warm_lem rounds (i + 1) (r ∷ created) {result = result} rest (
                (i, omega arith, now.0, now.1),
                GoodBelow-suc has_validator trials i created good,
              ) in
            (
              omega (arith, sized),
              subst (λ n. Good n result) {x = i + 1 + rounds} {y = i + suc rounds} (omega arith)
                  all,
            )
        | inr (x, e) ↦
            let bad : ◌≡◌ {A = Result (List ℕ)} (err x) (ok result) = rw (e, warm) at h in cc
      ]

warm_result :
    (has_validator : Bool) (trials : ℕ → Made × Verdict) (rounds : ℕ) (created : List ℕ)
    → warm rounds 0 has_validator trials [] ≡ ok created
    → (length created ≡ rounds) × All (GoodBelow has_validator trials (length created)) created
warm_result has_validator trials rounds created e =
    let (sized, good) = warm_lem has_validator trials rounds 0 [] {result = created} e tt in
    (
      omega (arith, sized),
      subst (λ n. All (GoodBelow has_validator trials n) created) {x = 0 + rounds}
          {y = length created} (omega (arith, sized)) good,
    )

pool-injective : {p q : Pool} → ok p ≡ ok q → p ≡ q
pool-injective h = ground arith

-- What a caller of `create` gets.
pub record IsCreated (max_size : ℕ) (has_validator : Bool) (warmup_size : ℕ)
    (trials : ℕ → Made × Verdict) (p : Pool) : Type 0 where
  pub capacity : p.max_size ≡ (if max_size == 0 then 1 else max_size)
  pub warmed : length p.idle ≡ min warmup_size p.max_size
  pub checked : All (GoodBelow has_validator trials (length p.idle)) p.idle
  pub opened : p.shutting_down ≡ false
  pub books : Books p 0

module _ (max_size : ℕ) (has_validator : Bool) (warmup_size : ℕ) (trials : ℕ → Made × Verdict) where
  abbrev fresh : Pool
  unfolding new_pool
  fresh = new_pool max_size has_validator

  abbrev target : ℕ
  unfolding new_pool
  target = min warmup_size (new_pool max_size has_validator).max_size

  committed-IsCreated :
      (created : List ℕ)
      → max_size < size_mod
      → warm target 0 has_validator trials [] ≡ ok created
      → IsCreated max_size has_validator warmup_size trials
          (record fresh { idle = created; total = (0 + target) % size_mod })
  unfolding new_pool
  committed-IsCreated created small e =
      let (sized, good) = warm_result has_validator trials target created e in
      record {
        capacity = refl;
        warmed = sized;
        checked = good;
        opened = refl;
        books = ground arith;
      }

  cold-IsCreated :
      max_size < size_mod
      → warmup_size ≡ 0
      → IsCreated max_size has_validator warmup_size trials fresh
  unfolding new_pool
  cold-IsCreated small z = record {
    capacity = refl;
    warmed = omega arith;
    checked = tt;
    opened = refl;
    books = ground arith;
  }

  warmup-IsCreated :
      (p : Pool)
      → max_size < size_mod
      → perform_warmup (new_pool max_size has_validator) warmup_size trials ≡ ok p
      → IsCreated max_size has_validator warmup_size trials p
  unfolding perform_warmup new_pool
  warmup-IsCreated p small h = elim (Result-cases (warm target 0 has_validator trials [])) [
    | inl (created, e) ↦
        let same : record fresh { idle = created ++ []; total = (0 + target) % size_mod } ≡ p =
          pool-injective (rw (e, perform_warmup) at h) in
        subst (IsCreated max_size has_validator warmup_size trials) same
          (rw append-nil (committed-IsCreated created small e))
    | inr (x, e) ↦
        let bad : ◌≡◌ {A = Result Pool} (err x) (ok p) = rw (e, perform_warmup) at h in cc
  ]

  -- A pool that `create` returns has room for `max_size` resources, or for one if that is 0; it
  -- starts with `warmup_size` idle resources, but with no more than it has room for, each of them
  -- made by a round of the warm-up whose validator, if there is one, accepted it; and its books
  -- are in order with no resource lent.
  pub create-IsCreated :
      (has_factory : Bool) (p : Pool)
      → max_size < size_mod
      → create has_factory max_size has_validator warmup_size trials ≡ ok p
      → IsCreated max_size has_validator warmup_size trials p
  unfolding create new_pool
  create-IsCreated has_factory p small h = elim (Bool-cases (not has_factory)) [
    | inl missing ↦
        let bad : ◌≡◌ {A = Result Pool} (err empty_factory) (ok p) = rw (missing, create) at h in cc
    | inr there ↦ elim (Bool-cases (warmup_size == 0)) [
      | inl cold ↦
          subst (IsCreated max_size has_validator warmup_size trials)
            (pool-injective (rw (there, cold, create) at h))
            (cold-IsCreated small ((==_iff _ _).0 cold))
      | inr warm_up ↦ warmup-IsCreated p small (rw (there, warm_up, create) at h)
    ]
  ]
