-- ===== src/Prelude/Words.antt =====
-- `std::size_t` on the 64-bit targets of the build: arithmetic wraps.
use Prim.Native.Nat.{ℕ, ◌+◌, ◌-◌, ◌%◌, ◌^◌}

abbrev pub size_mod : ℕ
size_mod = 2 ^ 64

-- `++n`, `--n` and `a - b` on `std::size_t`.
abbrev pub inc64 : ℕ → ℕ
inc64 n = (n + 1) % size_mod

abbrev pub dec64 : ℕ → ℕ
dec64 n = (n + (size_mod - 1)) % size_mod

abbrev pub sub64 : ℕ → ℕ → ℕ
sub64 a b = (a + size_mod - b) % size_mod
