-- ===== src/Msvc/Strings.antt =====
-- What the string functions do to a string and to the memory behind it.
use cpp_grpc_db.Prelude.{
  ℕ, ◌%◌, Bool, true, false, [], ◌∷◌, ◌++◌, Option, none, some, ◌==◌, if◌then◌else◌, Bytes,
  to_upper, to_lower, map, length, replicate, ◌≡◌, ◌≢◌, ◌↔◌, refl, ap, arith,
}
use cpp_grpc_db.Msvc.{ℤ, pos, negsuc, stricmp, strset_loop, strset, strupr_loop, strupr}

abbrev pub no_nul : Bytes → Bool
no_nul [] = true
no_nul (c ∷ s) = if c == 0 then false else no_nul s

strset_loop_lem :
    (fill : ℕ) (s rest : Bytes)
    → no_nul s ≡ true
    → strset_loop fill (s ++ (0 ∷ rest)) ≡ replicate (length s) fill ++ (0 ∷ rest)
unfolding strset_loop
strset_loop_lem fill [] rest h = refl
strset_loop_lem fill (c ∷ s) rest h = ground (arith, strset_loop_lem fill s rest)

-- Every byte of the string becomes the low byte of `c`; the NUL and what is behind it stay.
pub strset_lem :
    (s rest : Bytes) (c : ℕ)
    → no_nul s ≡ true
    → strset (some (s ++ (0 ∷ rest))) c ≡ some (replicate (length s) (c % 256) ++ (0 ∷ rest))
unfolding strset
strset_lem s rest c h = ap some (strset_loop_lem (c % 256) s rest h)

strupr_loop_lem :
    (s rest : Bytes)
    → no_nul s ≡ true
    → strupr_loop (s ++ (0 ∷ rest)) ≡ map to_upper s ++ (0 ∷ rest)
unfolding strupr_loop
strupr_loop_lem [] rest h = refl
strupr_loop_lem (c ∷ s) rest h = ground (arith, strupr_loop_lem s rest)

-- `strupr` maps the string by `toupper`, and leaves the NUL and what is behind it alone.
pub strupr_lem :
    (s rest : Bytes)
    → no_nul s ≡ true
    → strupr (some (s ++ (0 ∷ rest))) ≡ some (map to_upper s ++ (0 ∷ rest))
unfolding strupr
strupr_lem s rest h = ap some (strupr_loop_lem s rest h)

upper_twice : (c : ℕ) → to_upper (to_upper c) ≡ to_upper c
unfolding to_upper
upper_twice c = ground arith

upper_zero : (c : ℕ) → c ≢ 0 → to_upper c ≢ 0
unfolding to_upper
upper_zero c h = ground arith

strupr_loop_twice : (s : Bytes) → strupr_loop (strupr_loop s) ≡ strupr_loop s
unfolding strupr_loop
strupr_loop_twice [] = refl
strupr_loop_twice (c ∷ s) = ground (arith, strupr_loop_twice s, upper_twice c, upper_zero c)

-- Whatever the memory holds, a second `strupr` changes nothing.
pub strupr_idempotent : (str : Option Bytes) → strupr (strupr str) ≡ strupr str
unfolding strupr
strupr_idempotent none = refl
strupr_idempotent (some str) = ap some (strupr_loop_twice str)

pub data Sign : Type 0 where
  less equal greater : Sign

abbrev pub sign : ℤ → Sign
sign (pos n) = if n == 0 then equal else greater
sign (negsuc n) = less

abbrev pub flipped : Sign → Sign
flipped less = greater
flipped equal = equal
flipped greater = less

abbrev pub folded : Option Bytes → Option Bytes
folded none = none
folded (some s) = some (map to_lower s)

-- With a `strcasecmp` whose sign is 0 exactly on strings that are equal in lower case, and turns
-- round when its arguments are exchanged, `stricmp` has both properties on null pointers too.
pub stricmp_order :
    (strcasecmp : Bytes → Bytes → ℤ)
    → ((a b : Bytes) → (sign (strcasecmp a b) ≡ equal) ↔ (map to_lower a ≡ map to_lower b))
    → ((a b : Bytes) → sign (strcasecmp b a) ≡ flipped (sign (strcasecmp a b)))
    → (a b : Option Bytes)
    → ((sign (stricmp strcasecmp a b) ≡ equal) ↔ (folded a ≡ folded b))
      × (sign (stricmp strcasecmp b a) ≡ flipped (sign (stricmp strcasecmp a b)))
unfolding stricmp
stricmp_order cmp zero turn none none = ground arith
stricmp_order cmp zero turn (some a) none = ground arith
stricmp_order cmp zero turn none (some b) = ground arith
stricmp_order cmp zero turn (some a) (some b) = ground (arith, zero a b, turn a b)
