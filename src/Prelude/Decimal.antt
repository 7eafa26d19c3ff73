-- ===== src/Prelude/Decimal.antt =====
-- Numbers in decimal digits, as a stream writes them.
use Prim.Native.Nat.{ℕ, zero, suc, ◌+◌, ◌-◌, ◌*◌, ◌/◌, ◌%◌, ◌^◌, ◌<◌}
use mathlib.Core.Path.{◌≡◌, refl}
use mathlib.Core.List.{[], ◌∷◌, ◌++◌}
use native.Mathlib.Omega.{arith}
use mathlib.Core.Logic.{inl, inr}
use cpp_grpc_db.Prelude.Tests.{ltb, if◌then◌else◌, Bool-cases}
use cpp_grpc_db.Prelude.Chars.{Bytes}

-- `operator<<` of a number below `10 ^ fuel`.
unfoldable pub decimal : ℕ → ℕ → Bytes
decimal zero n = []
decimal (suc fuel) n =
    let front = decimal fuel (n / 10) in
    if ltb n 10 then (b'0' + n) ∷ [] else front ++ (b'0' + n % 10) ∷ []

-- The number that a text of digits stands for, behind `n`.
abbrev pub read : ℕ → Bytes → ℕ
read n [] = n
read n (d ∷ ds) = read (10 * n + (d - b'0')) ds

read-append : (n : ℕ) (ds : Bytes) (d : ℕ) → read n (ds ++ d ∷ []) ≡ 10 * read n ds + (d - b'0')
read-append n [] d = refl
read-append n (c ∷ ds) d = read-append (10 * n + (c - b'0')) ds d

pub read-decimal : (fuel n : ℕ) → n < 10 ^ fuel → read 0 (decimal fuel n) ≡ n
unfolding decimal
read-decimal zero n few = ground arith
read-decimal (suc fuel) n few = elim (Bool-cases (ltb n 10)) [
  | inl small ↦ rw small (omega arith)
  | inr big ↦ rw big (
      omega (
        arith,
        read-append 0 (decimal fuel (n / 10)) (b'0' + n % 10),
        read-decimal fuel (n / 10) (omega arith),
      ))
]
