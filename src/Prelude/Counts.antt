-- ===== src/Prelude/Counts.antt =====
-- How often a number stands in a list.
use Prim.Native.Nat.{ℕ, zero, suc, ◌+◌, ◌≤◌}
use mathlib.Core.Path.{◌≡◌}
use mathlib.Core.List.{List, [], ◌∷◌, ◌++◌}
use mathlib.Core.Option.{some}
use native.Mathlib.Omega.{arith}
use cpp_grpc_db.Prelude.Tests.{◌==◌, if◌then◌else◌}
use cpp_grpc_db.Prelude.Lists.{get_elem?, remove_at}

abbrev pub one_if : ℕ → ℕ → ℕ
one_if r x = if x == r then 1 else 0

abbrev pub count : ℕ → List ℕ → ℕ
count r [] = 0
count r (x ∷ xs) = one_if r x + count r xs

pub count-remove :
    (r : ℕ) (xs : List ℕ) (i : ℕ) {x : ℕ}
    → get_elem? xs i ≡ some x
    → count r (remove_at xs i) + one_if r x ≡ count r xs
count-remove r [] i h = ground arith
count-remove r (y ∷ ys) zero h = ground arith
count-remove r (y ∷ ys) (suc i) {x} h = omega (arith, count-remove r ys i {x = x} h)

pub count_pos : (xs : List ℕ) (i : ℕ) {x : ℕ} → get_elem? xs i ≡ some x → 1 ≤ count x xs
count_pos [] i h = ground arith
count_pos (y ∷ ys) zero h = ground arith
count_pos (y ∷ ys) (suc i) {x} h = omega (arith, count_pos ys i {x = x} h)

pub count-append : (r : ℕ) (xs ys : List ℕ) → count r (xs ++ ys) ≡ count r xs + count r ys
count-append r [] ys = omega arith
count-append r (x ∷ xs) ys = omega (arith, count-append r xs ys)
