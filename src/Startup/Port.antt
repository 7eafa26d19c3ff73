-- ===== src/Startup/Port.antt =====
-- src/greeter_callback_server_no_db2.cpp and src/complex_async_server_single_cq.cpp: the port that
-- `main` reads from its argument, and the address that the server listens at.
pub mod Reading
use cpp_grpc_db.Prelude.{
  ℕ, ◌+◌, ◌-◌, ◌*◌, ◌%◌, ◌^◌, [], ◌∷◌, ◌++◌, Option, none, some, ltb, leb, ◌==◌, ◌&&◌, ◌||◌, Bool,
  true, false, if◌then◌else◌, Bytes, codes, is_digit, decimal,
}
use cpp_grpc_db.Msvc.{ℤ, pos, negsuc}

-- `isspace` in the C locale.
unfoldable pub is_space : ℕ → Bool
is_space c = c == 32 || (leb 9 c && leb c 13)

unfoldable pub scan : ℕ → Bytes → ℕ
scan n [] = n
scan n (d ∷ ds) = let rest = scan (10 * n + (d - b'0')) ds in if is_digit d then rest else n

-- `std::stoi`: white space, a sign, and the digits up to something else. `none` is an exception, for
-- no digit or for a number that is not an `int`.
abbrev pub magnitude : Bytes → Option ℕ
magnitude [] = none
magnitude (d ∷ ds) = if is_digit d then some (scan 0 (d ∷ ds)) else none

abbrev pub positive : Option ℕ → Option ℤ
positive none = none
positive (some n) = if ltb n (2 ^ 31) then some (pos n) else none

abbrev pub negative : Option ℕ → Option ℤ
negative none = none
negative (some n) =
    if n == 0 then some (pos 0) else if leb n (2 ^ 31) then some (negsuc (n - 1)) else none

unfoldable pub stoi : Bytes → Option ℤ
unfolding scan
stoi [] = none
stoi (c ∷ s) =
    let rest = stoi s in
    if is_space c
    then rest
    else if c == b'-'
    then negative (magnitude s)
    else if c == b'+'
    then positive (magnitude s)
    else positive (magnitude (c ∷ s))

-- `static_cast<uint16_t>`.
abbrev pub to_uint16 : ℤ → ℕ
to_uint16 (pos n) = n % 2 ^ 16
to_uint16 (negsuc n) = 2 ^ 16 - 1 - n % 2 ^ 16

abbrev pub port_read : Option ℤ → Option ℕ
port_read none = none
port_read (some n) = some (to_uint16 n)

-- `main`: the first argument, if there is one.
unfoldable pub port_of : Option Bytes → Option ℕ
unfolding stoi
port_of none = some 50051
port_of (some argument) = port_read (stoi argument)

abbrev pub address_at : Option ℕ → Option Bytes
address_at none = none
address_at (some port) = some (codes "0.0.0.0:" ++ decimal 5 port)

-- `RunServer` and `Run`: `"0.0.0.0:" + std::to_string(port)`.
unfoldable pub server_address : Option Bytes → Option Bytes
unfolding port_of
server_address argument = address_at (port_of argument)
