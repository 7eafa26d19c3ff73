-- ===== src/CallData/Uuid.antt =====
-- `GenerateUuid`. The draws of the two distributions are numbered; `dis i` is draw `i` of the first
-- one, and `variant` the only draw of the second. Each is written in hexadecimal.
use cpp_grpc_db.Prelude.{
  ℕ, zero, suc, ◌+◌, ◌≤◌, [], ◌∷◌, ◌++◌, Bytes, codes, get_or, ◌≡◌, ◌∙◌, refl, ap, arith, map,
  is_xdigit,
}
use cpp_grpc_db.ByteLogging.{hex_digit, hex_int}
use cpp_grpc_db.StringUtil.Uuid.{shape, hex_form, IsUuid, sanitize_uuid_self}
use cpp_grpc_db.StringUtil.{ok, sanitize_uuid}
use mathlib.Core.List.{map-append}

-- `for (int i = 0; i < rounds; i++) ss << dis(gen)`, from draw `i` on.
unfoldable pub draws : (ℕ → ℕ) → ℕ → ℕ → Bytes
draws dis zero i = []
draws dis (suc rounds) i = hex_int (dis i) ++ draws dis rounds (i + 1)

unfoldable pub generate_uuid : (ℕ → ℕ) → ℕ → Bytes
generate_uuid dis variant =
    draws dis 8 0
    ++ (codes "-"
        ++ (draws dis 4 8
            ++ (codes "-4"
                ++ (draws dis 3 12
                    ++ (codes "-"
                        ++ (hex_int variant
                            ++ (draws dis 3 15 ++ (codes "-" ++ draws dis 12 18))))))))

-- A draw of `dis` is at most 15.
abbrev pub IsNibble : (ℕ → ℕ) → Type 0
IsNibble dis = (i : ℕ) → dis i ≤ 15

hex_int-shape : (n : ℕ) → n ≤ 15 → map shape (hex_int n) ≡ b'h' ∷ []
unfolding hex_int shape is_xdigit
hex_int-shape n h = ground arith

draws-shape :
    (dis : ℕ → ℕ) (rounds i : ℕ) → IsNibble dis → map shape (draws dis rounds i) ≡ hex_form rounds
unfolding draws
draws-shape dis zero i h = refl
draws-shape dis (suc rounds) i h = rw (
  map-append shape (hex_int (dis i)) (draws dis rounds (i + 1)),
  hex_int-shape (dis i) (h i),
  draws-shape dis rounds (i + 1) h,
)

generate_uuid-IsUuid :
    (dis : ℕ → ℕ) (variant : ℕ) → IsNibble dis → variant ≤ 15 → IsUuid (generate_uuid dis variant)
unfolding generate_uuid shape is_xdigit
generate_uuid-IsUuid dis variant h v = simp (
  map-append,
  draws-shape dis 8 0 h,
  draws-shape dis 4 8 h,
  draws-shape dis 3 12 h,
  draws-shape dis 3 15 h,
  draws-shape dis 12 18 h,
  hex_int-shape variant v,
)

-- The character of a byte string at an index, behind a prefix of known length.
get_or-draws :
    (dis : ℕ → ℕ) (rounds i : ℕ) (rest : Bytes) (n : ℕ)
    → IsNibble dis
    → get_or (draws dis rounds i ++ rest) (rounds + n) 0 ≡ get_or rest n 0
unfolding draws hex_int
get_or-draws dis zero i rest n h = ap (λ k. get_or rest k 0) (omega arith)
get_or-draws dis (suc rounds) i rest n h =
    let low = h i in ground (arith, get_or-draws dis rounds (i + 1) rest n h)

get_or-hex_int : (n : ℕ) (rest : Bytes) → n ≤ 15 → get_or (hex_int n ++ rest) 0 0 ≡ hex_digit n
unfolding hex_int
get_or-hex_int n rest h = ground arith

-- With draws in the ranges of the two distributions, the request id is a UUID of version 4: it has
-- the form 8-4-4-4-12 of hexadecimal digits, the version digit 4 and a variant digit from 8 to b,
-- and `SanitizeUuid` returns it as it is.
pub generate_uuid_lem :
    (dis : ℕ → ℕ) (variant : ℕ)
    → IsNibble dis
    → 8 ≤ variant
    → variant ≤ 11
    → IsUuid (generate_uuid dis variant)
      × (get_or (generate_uuid dis variant) 14 0 ≡ b'4')
      × (get_or (generate_uuid dis variant) 19 0 ≡ hex_digit variant)
      × (sanitize_uuid (generate_uuid dis variant) ≡ ok (generate_uuid dis variant))
unfolding generate_uuid
generate_uuid_lem dis variant h lo hi =
    let form = generate_uuid-IsUuid dis variant h (omega arith) in
    (
      form,
      get_or-draws dis 8 0 _ 6 h ∙ get_or-draws dis 4 8 _ 1 h,
      get_or-draws dis 8 0 _ 11 h
          ∙ (get_or-draws dis 4 8 _ 6 h
              ∙ (get_or-draws dis 3 12 _ 1 h ∙ get_or-hex_int variant _ (omega arith))),
      sanitize_uuid_self (generate_uuid dis variant) form,
    )
