-- ===== src/StringUtil.antt =====
-- src/util/string_util.cpp: `SanitizeUuid` and `CopyStringToBuffer`. A string is a list of bytes,
-- and `none` is a null pointer.
pub mod Uuid
pub mod Buffer
use cpp_grpc_db.Prelude.{
  ℕ, zero, suc, ◌+◌, ◌-◌, Bool, not, ◌||◌, [], ◌∷◌, Option, none, some, ◌==◌, if◌then◌else◌, length,
  set, min, Bytes, is_xdigit,
}

-- The messages of the `std::invalid_argument` that `SanitizeUuid` throws.
pub data UuidError : Type 0 where
  bad_dash_positions non_hex_characters bad_length : UuidError

pub data Result : Type 0 where
  ok : Bytes → Result
  err : UuidError → Result

unfoldable pub is_dash_pos : ℕ → Bool
is_dash_pos i = i == 8 || i == 13 || i == 18 || i == 23

-- The loop over 36 characters, from index `i`; `none` is its end.
unfoldable pub check_dashed : ℕ → Bytes → Option UuidError
check_dashed i [] = none
check_dashed i (c ∷ s) =
    let rest = check_dashed (i + 1) s in
    if is_dash_pos i
    then (if not (c == b'-') then some bad_dash_positions else rest)
    else if not (is_xdigit c)
    then some non_hex_characters
    else rest

-- The loop over 32 characters.
unfoldable pub check_hex : Bytes → Option UuidError
check_hex [] = none
check_hex (c ∷ s) =
    let rest = check_hex s in if not (is_xdigit c) then some non_hex_characters else rest

-- The loop that builds `result`, from index `i`.
unfoldable pub insert_dashes : ℕ → Bytes → Bytes
insert_dashes i [] = []
insert_dashes i (c ∷ s) =
    let rest = c ∷ insert_dashes (i + 1) s in
    if i == 8 || i == 12 || i == 16 || i == 20 then b'-' ∷ rest else rest

abbrev or_throw : Option UuidError → Bytes → Result
or_throw none r = ok r
or_throw (some e) r = err e

unfoldable pub sanitize_uuid : Bytes → Result
sanitize_uuid s =
    if length s == 36
    then or_throw (check_dashed 0 s) s
    else if not (length s == 32)
    then err bad_length
    else or_throw (check_hex s) (insert_dashes 0 s)

-- `std::memcpy(output, input.data(), n)`, on the bytes from `output` on.
unfoldable pub memcpy : Bytes → Bytes → ℕ → Bytes
memcpy out input zero = out
memcpy (o ∷ out) (c ∷ input) (suc n) = c ∷ memcpy out input n
memcpy out input (suc n) = out

-- The bytes from `output` on after the call, and the number that it returns.
unfoldable pub copy_string_to_buffer : Option Bytes → Bytes → ℕ → Option Bytes × ℕ
copy_string_to_buffer none input output_size = (none, 0)
copy_string_to_buffer (some output) input output_size =
    if output_size == 0
    then (some output, 0)
    else (let copy_len = min (length input) (output_size - 1) in
        (some (set (memcpy output input copy_len) copy_len 0), copy_len))
