-- ===== src/ByteLogging.antt =====
-- src/encode/byte_logging.cpp: `ToHexSpaceDelimited`. The stream writes each byte as an `int` in
-- lower-case hexadecimal digits, filled with '0' to the width 2. `LogBytesHexSpaceDelimited` hands
-- the result to the logger.
pub mod RoundTrip
use cpp_grpc_db.Prelude.{
  ℕ, zero, suc, ◌+◌, ◌-◌, ◌/◌, ◌%◌, [], ◌∷◌, ◌++◌, ltb, if◌then◌else◌, length, Bytes,
}

abbrev pub hex_digit : ℕ → ℕ
hex_digit d = if ltb d 10 then b'0' + d else b'a' + (d - 10)

-- `std::hex` on a value below 256.
unfoldable pub hex_int : ℕ → Bytes
hex_int n = if ltb n 16 then hex_digit n ∷ [] else hex_digit (n / 16) ∷ hex_digit (n % 16) ∷ []

-- `std::setfill('0')` with `std::setw(2)`.
unfoldable pub filled : Bytes → Bytes
filled [] = b'0' ∷ b'0' ∷ []
filled (d ∷ []) = b'0' ∷ d ∷ []
filled s = s

unfoldable pub to_hex_space_delimited : Bytes → Bytes
unfolding filled hex_int
to_hex_space_delimited [] = []
to_hex_space_delimited (b ∷ []) = filled (hex_int b)
to_hex_space_delimited (b ∷ c ∷ bytes) =
    filled (hex_int b) ++ (b' ' ∷ to_hex_space_delimited (c ∷ bytes))
