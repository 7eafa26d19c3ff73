-- ===== src/Tests/Text.antt =====
-- SQL texts, UUIDs, buffers, C strings and hexadecimal logs.
use cpp_grpc_db.Prelude.{
  false, ltb, ◌==◌, if◌then◌else◌, List, [], ◌∷◌, ◌++◌, some, Bytes, codes, ◌≡◌, refl, arith, map,
  ◌↔◌, to_lower, is_xdigit,
}
use cpp_grpc_db.Sql.{normal, anonymize, step, body, loop, is_ident}
use cpp_grpc_db.Sql.Pieces.{
  Piece, text, param, cast, single_quoted, line_comment, write_all, erase_all, anonymize-write_all,
}
use cpp_grpc_db.Sql.Idempotent.{anonymize_idempotent}
use cpp_grpc_db.Sql.Scanner.{anonymize-scan, scan}
use cpp_grpc_db.StringUtil.{ok, sanitize_uuid, check_hex, insert_dashes, copy_string_to_buffer}
use cpp_grpc_db.StringUtil.Uuid.{IsUuid, without_dashes, sanitize_uuid-IsUuid, shape}
use cpp_grpc_db.StringUtil.Buffer.{copy_string_to_buffer_lem}
use cpp_grpc_db.Msvc.{ℤ, pos, negsuc}
use cpp_grpc_db.Msvc.Strings.{sign, equal, flipped}
use cpp_grpc_db.ByteLogging.{to_hex_space_delimited}
use cpp_grpc_db.ByteLogging.RoundTrip.{from_hex, from_hex-to_hex}

abbrev query : Bytes
query = codes "select :a::int, ':b' -- :c\n where x = :d_1"

abbrev anonymous : Bytes
anonymous = codes "select ?::int, ':b' -- :c\n where x = ?"

anonymize-query : anonymize query ≡ some anonymous
unfolding anonymize loop step body is_ident
anonymize-query = refl

abbrev pieces : List Piece
pieces =
    text (codes "select ")
    ∷ param (codes "a")
    ∷ cast
    ∷ text (codes "int, ")
    ∷ single_quoted (codes ":b")
    ∷ text (codes " ")
    ∷ line_comment (codes " :c")
    ∷ text (codes " where x = ")
    ∷ param (codes "d_1")
    ∷ []

anonymize-write_all_example : anonymize (write_all pieces) ≡ some (erase_all pieces)
unfolding is_ident
anonymize-write_all_example =
    anonymize-write_all pieces
      (refl, (refl, (refl, (refl, (refl, (refl, (refl, (refl, (refl, tt)))))))))

anonymous_stays : anonymize anonymous ≡ some anonymous
anonymous_stays = anonymize_idempotent query anonymous anonymize-query

anonymize-scan_example : anonymize query ≡ some (scan normal false query)
anonymize-scan_example = anonymize-scan query

abbrev compact : Bytes
compact = codes "0123456789abcdefABCDEF0123456789"

abbrev dashed : Bytes
dashed = codes "01234567-89ab-cdef-ABCD-EF0123456789"

sanitize-compact : sanitize_uuid compact ≡ ok dashed
unfolding sanitize_uuid check_hex insert_dashes is_xdigit
sanitize-compact = refl

dashed-IsUuid : IsUuid dashed
unfolding shape is_xdigit
dashed-IsUuid = refl

compact_sanitizes : IsUuid dashed × (without_dashes dashed ≡ without_dashes compact)
compact_sanitizes = sanitize_uuid-IsUuid compact dashed sanitize-compact

abbrev memory : Bytes
memory = codes "????????"

hello_is_cut :
    copy_string_to_buffer (some memory) (codes "hello") 4
    ≡ (some (codes "hel" ++ (0 ∷ codes "????")), 3)
hello_is_cut = copy_string_to_buffer_lem memory (codes "hello") 4 (omega arith) (omega arith)

-- A `strcasecmp` that compares the strings in lower case byte by byte.
abbrev compare_bytes : Bytes → Bytes → ℤ
compare_bytes [] [] = pos 0
compare_bytes [] (b ∷ s) = negsuc 0
compare_bytes (a ∷ r) [] = pos 1
compare_bytes (a ∷ r) (b ∷ s) =
    if a == b then compare_bytes r s else if ltb a b then negsuc 0 else pos 1

abbrev fold_compare : Bytes → Bytes → ℤ
fold_compare a b = compare_bytes (map to_lower a) (map to_lower b)

compare_bytes-zero : (a b : Bytes) → (sign (compare_bytes a b) ≡ equal) ↔ (a ≡ b)
compare_bytes-zero [] [] = ground arith
compare_bytes-zero [] (b ∷ s) = ground arith
compare_bytes-zero (a ∷ r) [] = ground arith
compare_bytes-zero (a ∷ r) (b ∷ s) = ground (arith, compare_bytes-zero r s)

compare_bytes-turn : (a b : Bytes) → sign (compare_bytes b a) ≡ flipped (sign (compare_bytes a b))
compare_bytes-turn [] [] = ground arith
compare_bytes-turn [] (b ∷ s) = ground arith
compare_bytes-turn (a ∷ r) [] = ground arith
compare_bytes-turn (a ∷ r) (b ∷ s) = ground (arith, compare_bytes-turn r s)

two_bytes_return : from_hex (to_hex_space_delimited (0x41 ∷ 0x0a ∷ [])) ≡ some (0x41 ∷ 0x0a ∷ [])
two_bytes_return = from_hex-to_hex (0x41 ∷ 0x0a ∷ []) (omega arith)
