-- ===== src/WorkerPool/Names.antt =====
-- The names that `start_threads` gives to the worker threads, on Linux.
use mathlib.Core.Option.{some-injective}
use cpp_grpc_db.Prelude.{
  ℕ, zero, suc, ◌≤◌, ◌<◌, ◌^◌, [], ◌∷◌, ◌++◌, take, length, Option, none, some, Bytes, decimal,
  read, read-decimal, ◌≡◌, refl, sym, ap, ◌∙◌, arith,
}

-- `pthread_setname_np` takes up to 15 bytes. A pool without a name names no thread.
unfoldable pub thread_name : Bytes → ℕ → Option Bytes
thread_name [] i = none
thread_name (c ∷ name) i = some (take 15 ((c ∷ name) ++ (b'-' ∷ decimal 20 i)))

take_all : (n : ℕ) (xs : Bytes) → length xs ≤ n → take n xs ≡ xs
take_all zero [] few = refl
take_all zero (x ∷ xs) few = absurd (omega (arith, few))
take_all (suc n) [] few = refl
take_all (suc n) (x ∷ xs) few = ap (◌∷◌ x) (take_all n xs (omega (arith, few)))

append-cancel : (xs ys zs : Bytes) → xs ++ ys ≡ xs ++ zs → ys ≡ zs
append-cancel [] ys zs same = same
append-cancel (x ∷ xs) ys zs same = append-cancel xs ys zs (cc)

-- Two threads of a named pool have different names if their full names, of the pool's name, `-` and
-- the thread's number, have at most 15 bytes.
pub thread_name_distinct :
    (c : ℕ) (name : Bytes) (i j : ℕ)
    → i < 10 ^ 20
    → j < 10 ^ 20
    → length ((c ∷ name) ++ (b'-' ∷ decimal 20 i)) ≤ 15
    → length ((c ∷ name) ++ (b'-' ∷ decimal 20 j)) ≤ 15
    → thread_name (c ∷ name) i ≡ thread_name (c ∷ name) j
    → i ≡ j
unfolding thread_name
thread_name_distinct c name i j few_i few_j short_i short_j same =
    let full : (c ∷ name) ++ (b'-' ∷ decimal 20 i) ≡ (c ∷ name) ++ (b'-' ∷ decimal 20 j) =
      sym (take_all 15 ((c ∷ name) ++ (b'-' ∷ decimal 20 i)) short_i)
      ∙ some-injective _ _ same
      ∙ take_all 15 ((c ∷ name) ++ (b'-' ∷ decimal 20 j)) short_j in
    let digits : decimal 20 i ≡ decimal 20 j =
      append-cancel (b'-' ∷ []) (decimal 20 i) (decimal 20 j)
        (append-cancel (c ∷ name) (b'-' ∷ decimal 20 i) (b'-' ∷ decimal 20 j) full) in
    sym (read-decimal 20 i few_i) ∙ ap (read 0) digits ∙ read-decimal 20 j few_j
