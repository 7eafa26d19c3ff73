-- ===== src/Startup/Port/Reading.antt =====
-- src/greeter_callback_server_no_db2.cpp, src/complex_async_server_single_cq.cpp: a number as argument.
use cpp_grpc_db.Prelude.{
  ℕ, zero, suc, ◌+◌, ◌-◌, ◌*◌, ◌/◌, ◌%◌, ◌^◌, ◌<◌, [], ◌∷◌, ◌++◌, none, some, ltb, ◌==◌, true,
  false, if◌then◌else◌, Bytes, codes, is_digit, decimal, read, read-decimal, All, All-append, ◌≡◌,
  refl, sym, ap, subst, arith, Bool-cases, inl, inr,
}
use cpp_grpc_db.Startup.Port.{
  is_space, scan, positive, stoi, port_read, port_of, address_at, server_address,
}

abbrev IsDigit : ℕ → Type 0
IsDigit d = is_digit d ≡ true

digit : (n : ℕ) → n < 10 → IsDigit (b'0' + n)
unfolding is_digit
digit n few = ground arith

decimal-IsDigit : (fuel n : ℕ) → All IsDigit (decimal fuel n)
unfolding decimal
decimal-IsDigit zero n = tt
decimal-IsDigit (suc fuel) n = elim (Bool-cases (ltb n 10)) [
  | inl small ↦ rw small (digit n (ground arith), tt)
  | inr big ↦ rw big (
      All-append IsDigit (decimal fuel (n / 10)) ((b'0' + n % 10) ∷ [])
        (decimal-IsDigit fuel (n / 10)) (digit (n % 10) (omega arith), tt))
]

abbrev Starts : Bytes → Type 0
Starts s = (d : ℕ) × (ds : Bytes) × (s ≡ d ∷ ds)

append-Starts : (s : Bytes) (d : ℕ) → Starts (s ++ d ∷ [])
append-Starts [] d = (d, [], refl)
append-Starts (c ∷ s) d = (c, s ++ d ∷ [], refl)

decimal-Starts : (fuel n : ℕ) → Starts (decimal (suc fuel) n)
unfolding decimal
decimal-Starts fuel n = elim (Bool-cases (ltb n 10)) [
  | inl small ↦ rw small (b'0' + n, [], refl)
  | inr big ↦ rw big (append-Starts (decimal fuel (n / 10)) (b'0' + n % 10))
]

scan-digits : (n : ℕ) (ds : Bytes) → All IsDigit ds → scan n ds ≡ read n ds
unfolding scan
scan-digits n [] h = refl
scan-digits n (d ∷ ds) (h, more) = rw h (scan-digits (10 * n + (d - b'0')) ds more)

digit-Plain : (d : ℕ) → IsDigit d → (is_space d ≡ false) × (d == b'-' ≡ false) × (d == b'+' ≡ false)
unfolding is_digit is_space
digit-Plain d h = (ground arith, ground arith, ground arith)

stoi-digits :
    (d : ℕ) (ds : Bytes) → All IsDigit (d ∷ ds) → stoi (d ∷ ds) ≡ positive (some (read 0 (d ∷ ds)))
unfolding stoi
stoi-digits d ds (h, more) =
    let plain = digit-Plain d h in
    rw (plain.0, plain.1, plain.2, h)
      (ap (λ z. positive (some z)) (scan-digits (10 * 0 + (d - b'0')) ds more))

stoi-Starts : (s : Bytes) → Starts s → All IsDigit s → stoi s ≡ positive (some (read 0 s))
stoi-Starts s (d, ds, e) h =
    subst (λ z. stoi z ≡ positive (some (read 0 z))) (sym e)
      (stoi-digits d ds (subst (All IsDigit) e h))

stoi-decimal : (n : ℕ) → n < 10 ^ 10 → stoi (decimal 10 n) ≡ positive (some n)
stoi-decimal n few =
    subst (λ z. stoi (decimal 10 n) ≡ positive (some z)) (read-decimal 10 n few)
      (stoi-Starts (decimal 10 n) (decimal-Starts 9 n) (decimal-IsDigit 10 n))

address_lem :
    (n : ℕ)
    → address_at (port_read (positive (some n)))
      ≡ (if ltb n (2 ^ 31) then some (codes "0.0.0.0:" ++ decimal 5 (n % 2 ^ 16)) else none)
address_lem n = elim (Bool-cases (ltb n (2 ^ 31))) [ inl e ↦ rw e refl | inr e ↦ rw e refl ]

-- The argument `n` in decimal, for an `n` of up to ten digits: a number that is an `int` is taken,
-- also one that is no port, and the server listens at the port `n % 65536`. A larger one is an
-- exception.
pub server_address-decimal :
    (n : ℕ)
    → n < 10 ^ 10
    → server_address (some (decimal 10 n))
      ≡ (if ltb n (2 ^ 31) then some (codes "0.0.0.0:" ++ decimal 5 (n % 2 ^ 16)) else none)
unfolding server_address port_of
server_address-decimal n few =
    subst
      (λ z.
        address_at (port_read z)
        ≡ (if ltb n (2 ^ 31) then some (codes "0.0.0.0:" ++ decimal 5 (n % 2 ^ 16)) else none))
      (sym (stoi-decimal n few)) (address_lem n)
