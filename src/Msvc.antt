-- ===== src/Msvc.antt =====
-- src/msvc/msvc.cpp: `stricmp`, `strset` and `strupr`. The bytes from a pointer on are a list, and
-- `none` is a null pointer. `strcasecmp` is the C library's.
pub mod Strings
use cpp_grpc_db.Prelude.{ℕ, ◌%◌, [], ◌∷◌, Option, none, some, ◌==◌, if◌then◌else◌, Bytes, to_upper}

-- An `int` result.
pub data ℤ : Type 0 where
  pos : ℕ → ℤ
  negsuc : ℕ → ℤ

module _ (strcasecmp : Bytes → Bytes → ℤ) where
  unfoldable pub stricmp : Option Bytes → Option Bytes → ℤ
  stricmp none none = pos 0
  stricmp none (some b) = negsuc 0
  stricmp (some a) none = pos 1
  stricmp (some a) (some b) = strcasecmp a b

-- The loop of `strset`. Memory that ends before a NUL is no string, and is left as it is.
unfoldable pub strset_loop : ℕ → Bytes → Bytes
strset_loop fill [] = []
strset_loop fill (b ∷ rest) =
    let filled = fill ∷ strset_loop fill rest in if b == 0 then b ∷ rest else filled

-- The memory after the call; the result is the pointer itself. `c` is the bit pattern of the `int`.
unfoldable pub strset : Option Bytes → ℕ → Option Bytes
strset none c = none
strset (some str) c = let fill_char = c % 256 in some (strset_loop fill_char str)

unfoldable pub strupr_loop : Bytes → Bytes
strupr_loop [] = []
strupr_loop (b ∷ rest) =
    let shouted = to_upper b ∷ strupr_loop rest in if b == 0 then b ∷ rest else shouted

unfoldable pub strupr : Option Bytes → Option Bytes
strupr none = none
strupr (some str) = some (strupr_loop str)
