-- ===== src/Service/Pooling.antt =====
-- The pool of connections that `RunServer` of the callback server makes, under its handlers.
use cpp_grpc_db.Prelude.{ℕ, ◌≤◌, true, false, List, ◌≡◌, refl, total, arith}
use cpp_grpc_db.Callbacks.{Verdict, Made}
use cpp_grpc_db.ResourcePool.{Pool, Event}
use cpp_grpc_db.ResourcePool.Creation.{Result, ok, create, new_pool}
use cpp_grpc_db.ResourcePool.Ledger.{share, start, after, run-Books}
use cpp_grpc_db.ResourcePool.Size.{run-max_size}
use cpp_grpc_db.ResourcePool.Ownership.{owners, births, owners-run}

-- `Db2Pool::create` with a maximal size of 8, no validator and no warm-up.
unfoldable pub db2_pool : (ℕ → Made × Verdict) → Result Pool
unfolding create
db2_pool trials = create true 8 false 0 trials

-- The callback server gets its pool, and however many calls of `SayHello` run at once, at most eight
-- connections are made or lent at a time, and no connection is lent to two calls, provided that
-- each connection made is a new one.
pub db2_pool_lem :
    (trials : ℕ → Made × Verdict) (calls : ℕ) (xs : List (ℕ × Event))
    → (p : Pool) × (db2_pool trials ≡ ok p)
      × (total share (after p calls xs).threads ≤ 8)
      × ((r : ℕ) → owners r (after p calls xs) ≤ births r xs)
unfolding db2_pool new_pool
db2_pool_lem trials calls xs =
    let p = new_pool 8 false in
    let size = run-max_size (start p calls) xs in
    let books = run-Books p calls xs (ground arith) in
    (
      p,
      refl,
      omega (arith, books.covered, books.bounded, size),
      λ r. omega (arith, owners-run r p calls xs),
    )
