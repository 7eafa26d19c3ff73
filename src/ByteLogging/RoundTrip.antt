-- ===== src/ByteLogging/RoundTrip.antt =====
-- The logged text determines the bytes.
use cpp_grpc_db.Prelude.{
  ℕ, ◌+◌, ◌-◌, ◌*◌, ◌/◌, ◌%◌, ◌<◌, ◌&&◌, [], ◌∷◌, Option, none, some, ltb, leb, ◌==◌, if◌then◌else◌,
  length, Bytes, All, ◌≡◌, refl, arith,
}
use cpp_grpc_db.ByteLogging.{hex_digit, hex_int, filled, to_hex_space_delimited}

-- The value of a lower-case digit, and 16 for any other byte.
abbrev pub digit_value : ℕ → ℕ
digit_value c =
    if leb b'0' c && leb c b'9'
    then c - b'0'
    else if leb b'a' c && leb c b'f'
    then c - b'a' + 10
    else 16

abbrev pub read_byte : ℕ → ℕ → Option ℕ
read_byte h l =
    if ltb (digit_value h) 16 && ltb (digit_value l) 16
    then some (digit_value h * 16 + digit_value l)
    else none

abbrev cons? : Option ℕ → Option Bytes → Option Bytes
cons? (some b) (some s) = some (b ∷ s)
cons? _ _ = none

-- Two digits for a byte, and one space between two bytes.
pub from_hex : Bytes → Option Bytes
from_hex [] = some []
from_hex (h ∷ []) = none
from_hex (h ∷ l ∷ []) = cons? (read_byte h l) (some [])
from_hex (h ∷ l ∷ sep ∷ rest) = if sep == b' ' then cons? (read_byte h l) (from_hex rest) else none

read-hex_int :
    (b : ℕ)
    → b < 256
    → (h : ℕ) × (l : ℕ) × (filled (hex_int b) ≡ h ∷ l ∷ []) × (read_byte h l ≡ some b)
unfolding filled hex_int
read-hex_int b k = (hex_digit (b / 16), hex_digit (b % 16), ground arith, ground arith)

from_hex-to_hex_cons :
    (c : ℕ) (bytes : Bytes)
    → All (λ b. b < 256) (c ∷ bytes)
    → from_hex (to_hex_space_delimited (c ∷ bytes)) ≡ some (c ∷ bytes)
unfolding to_hex_space_delimited from_hex
from_hex-to_hex_cons c [] h = let (x, y, e, r) = read-hex_int c h.0 in rw (e, r)
from_hex-to_hex_cons c (d ∷ bytes) h =
    let (x, y, e, r) = read-hex_int c h.0 in rw (e, r, from_hex-to_hex_cons d bytes h.1)

-- Reading the text back gives the bytes that were written, so no two byte strings are logged alike.
pub from_hex-to_hex :
    (bytes : Bytes)
    → All (λ b. b < 256) bytes
    → from_hex (to_hex_space_delimited bytes) ≡ some bytes
from_hex-to_hex [] h = unfold to_hex_space_delimited from_hex in refl
from_hex-to_hex (c ∷ bytes) h = from_hex-to_hex_cons c bytes h

-- Two digits for each byte, and one space less than bytes.
pub length-to_hex :
    (b : ℕ) (bytes : Bytes)
    → All (λ b. b < 256) (b ∷ bytes)
    → length (to_hex_space_delimited (b ∷ bytes)) + 1 ≡ 3 * length (b ∷ bytes)
unfolding to_hex_space_delimited
length-to_hex b [] h = let (x, y, e, r) = read-hex_int b h.0 in rw e (omega arith)
length-to_hex b (c ∷ bytes) h =
    let (x, y, e, r) = read-hex_int b h.0 in rw e (omega (arith, length-to_hex c bytes h.1))
