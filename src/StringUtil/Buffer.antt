-- ===== src/StringUtil/Buffer.antt =====
-- What `CopyStringToBuffer` leaves in memory.
use cpp_grpc_db.Prelude.{
  ℕ, zero, suc, ◌-◌, ◌≤◌, ◌<◌, Bool, true, false, [], ◌∷◌, ◌++◌, some, ◌==◌, if◌then◌else◌, length,
  take, drop, set, min, Bytes, ◌≡◌, refl, ap, ◌∙◌, arith, length-append, length-take, length-drop,
}
use cpp_grpc_db.StringUtil.{memcpy, copy_string_to_buffer}

memcpy_lem :
    (out input : Bytes) (n : ℕ)
    → n < length out
    → n ≤ length input
    → set (memcpy out input n) n 0 ≡ take n input ++ (0 ∷ drop (suc n) out)
unfolding memcpy
memcpy_lem [] input n h k = elim h [ ]
memcpy_lem (o ∷ out) input zero h k = refl
memcpy_lem (o ∷ out) [] (suc n) h k = absurd (omega arith)
memcpy_lem (o ∷ out) (c ∷ input) (suc n) h k =
    ap (◌∷◌ c) (memcpy_lem out input n (omega arith) (omega arith))

-- The bytes up to the first NUL, which is what a reader of the buffer sees.
abbrev pub c_str : Bytes → Bytes
c_str [] = []
c_str (c ∷ s) = if c == 0 then [] else c ∷ c_str s

abbrev pub no_nul : Bytes → Bool
no_nul [] = true
no_nul (c ∷ s) = if c == 0 then false else no_nul s

-- With room for at least one byte, in a buffer that is as large as the caller says, the call
-- writes the longest prefix of the input that fits with a NUL behind it, leaves every byte
-- behind the NUL alone, and returns the length of the prefix.
pub copy_string_to_buffer_lem :
    (out input : Bytes) (size : ℕ)
    → 0 < size
    → size ≤ length out
    → let n = min (length input) (size - 1) in
      copy_string_to_buffer (some out) input size
      ≡ (some (take n input ++ (0 ∷ drop (suc n) out)), n)
unfolding copy_string_to_buffer
copy_string_to_buffer_lem out input size h k =
    ground (arith, memcpy_lem out input (min (length input) (size - 1)))

c_str-append : (s rest : Bytes) → no_nul s ≡ true → c_str (s ++ (0 ∷ rest)) ≡ s
c_str-append [] rest h = refl
c_str-append (c ∷ s) rest h = ground (arith, c_str-append s rest)

no_nul-take : (n : ℕ) (s : Bytes) → no_nul s ≡ true → no_nul (take n s) ≡ true
no_nul-take zero s h = refl
no_nul-take (suc n) [] h = refl
no_nul-take (suc n) (c ∷ s) h = ground (arith, no_nul-take n s)

take_all : (n : ℕ) (s : Bytes) → length s ≤ n → take n s ≡ s
take_all zero [] h = refl
take_all zero (c ∷ s) h = absurd (omega arith)
take_all (suc n) [] h = refl
take_all (suc n) (c ∷ s) h = ap (◌∷◌ c) (take_all n s (omega arith))

take_clip : (s : Bytes) (m k : ℕ) → k ≡ min (length s) m → take k s ≡ take m s
take_clip [] zero zero h = refl
take_clip [] (suc m) zero h = refl
take_clip [] m (suc k) h = absurd (omega arith)
take_clip (c ∷ s) zero zero h = refl
take_clip (c ∷ s) zero (suc k) h = absurd (omega arith)
take_clip (c ∷ s) (suc m) zero h = absurd (omega arith)
take_clip (c ∷ s) (suc m) (suc k) h = ap (◌∷◌ c) (take_clip s m k (omega arith))

-- A reader of the buffer gets the longest prefix of the input that fits, and the whole input if
-- it is shorter than the buffer, as long as the input holds no NUL itself.
pub copy-c_str :
    (out input : Bytes) (size : ℕ)
    → 0 < size
    → size ≤ length out
    → no_nul input ≡ true
    → (out' : Bytes) × (n : ℕ) × (copy_string_to_buffer (some out) input size ≡ (some out', n))
      × (c_str out' ≡ take (size - 1) input)
      × (length out' ≡ length out)
      × (length input < size → c_str out' ≡ input)
copy-c_str out input size h k z =
    let n = min (length input) (size - 1) in
    let rest = drop (suc n) out in
    let read = c_str-append (take n input) rest (no_nul-take n input z) in
    let same : take n input ≡ take (size - 1) input = take_clip input (size - 1) n refl in
    (
      take n input ++ (0 ∷ rest),
      n,
      copy_string_to_buffer_lem out input size h k,
      read ∙ same,
      omega (
        arith,
        length-append (take n input) (0 ∷ rest),
        length-take n input,
        length-drop (suc n) out,
      ),
      λ q. read ∙ same ∙ take_all (size - 1) input (omega arith),
    )
