-- ===== src/StringUtil/Uuid.antt =====
-- `SanitizeUuid` against the written form of a UUID.
use cpp_grpc_db.Prelude.{
  ℕ, zero, suc, ◌+◌, false, ◌||◌, [], ◌∷◌, none, some, ◌==◌, if◌then◌else◌, length, Bytes, codes,
  is_xdigit, map, ◌≡◌, ◌≢◌, ◌⊎◌, inl, inr, refl, sym, ap, ◌∙◌, arith, ◌↔◌,
}
use cpp_grpc_db.StringUtil.{
  bad_length, ok, err, is_dash_pos, check_dashed, check_hex, insert_dashes, sanitize_uuid,
}

-- The class of a character: a hexadecimal digit, a dash or something else.
unfoldable pub shape : ℕ → ℕ
shape c = if is_xdigit c then b'h' else if c == b'-' then b'-' else b'?'

abbrev pub uuid_form : Bytes
uuid_form = codes "hhhhhhhh-hhhh-hhhh-hhhh-hhhhhhhhhhhh"

-- The form 8-4-4-4-12.
abbrev pub IsUuid : Bytes → Type 0
IsUuid s = map shape s ≡ uuid_form

abbrev pub AllHex : Bytes → Type 0
AllHex s = map shape s ≡ codes "hhhhhhhhhhhhhhhhhhhhhhhhhhhhhhhh"

abbrev pub without_dashes : Bytes → Bytes
without_dashes [] = []
without_dashes (c ∷ s) = if c == b'-' then without_dashes s else c ∷ without_dashes s

abbrev dashed_form : ℕ → ℕ → Bytes
dashed_form i zero = []
dashed_form i (suc n) = (if is_dash_pos i then b'-' else b'h') ∷ dashed_form (i + 1) n

abbrev pub hex_form : ℕ → Bytes
hex_form zero = []
hex_form (suc n) = b'h' ∷ hex_form n

abbrev inserted_form : ℕ → ℕ → Bytes
inserted_form i zero = []
inserted_form i (suc n) =
    let rest = b'h' ∷ inserted_form (i + 1) n in
    if i == 8 || i == 12 || i == 16 || i == 20 then b'-' ∷ rest else rest

length-map : (s : Bytes) → length (map shape s) ≡ length s
length-map [] = refl
length-map (c ∷ s) = ap suc (length-map s)

dash-not-hex : is_xdigit b'-' ≡ false
unfolding is_xdigit
dash-not-hex = refl

check_dashed-form :
    (i : ℕ) (s : Bytes) → (check_dashed i s ≡ none) ↔ (map shape s ≡ dashed_form i (length s))
unfolding check_dashed shape
check_dashed-form i [] = ground arith
check_dashed-form i (c ∷ s) = ground (arith, check_dashed-form (i + 1) s, dash-not-hex)

check_hex-form : (s : Bytes) → (check_hex s ≡ none) ↔ (map shape s ≡ hex_form (length s))
unfolding check_hex shape
check_hex-form [] = ground arith
check_hex-form (c ∷ s) = ground (arith, check_hex-form s)

insert_dashes-form :
    (i : ℕ) (s : Bytes)
    → map shape s ≡ hex_form (length s)
    → map shape (insert_dashes i s) ≡ inserted_form i (length s)
unfolding insert_dashes shape
insert_dashes-form i [] h = refl
insert_dashes-form i (c ∷ s) h = ground (arith, insert_dashes-form (i + 1) s, dash-not-hex)

without_dashes-insert : (i : ℕ) (s : Bytes) → without_dashes (insert_dashes i s) ≡ without_dashes s
unfolding insert_dashes
without_dashes-insert i [] = refl
without_dashes-insert i (c ∷ s) = ground (arith, without_dashes-insert (i + 1) s)

dashed_form_36 : dashed_form 0 36 ≡ uuid_form
unfolding is_dash_pos
dashed_form_36 = refl

length-IsUuid : (s : Bytes) → IsUuid s → length s ≡ 36
length-IsUuid s h = omega (arith, length-map s, ap length h)

length-AllHex : (s : Bytes) → AllHex s → length s ≡ 32
length-AllHex s h = omega (arith, length-map s, ap length h)

-- A string of the right length passes its loop exactly if it has the form.
check_dashed_iff : (s : Bytes) → length s ≡ 36 → (check_dashed 0 s ≡ none) ↔ IsUuid s
check_dashed_iff s h = ground (arith, check_dashed-form 0 s, dashed_form_36)

check_hex_iff : (s : Bytes) → length s ≡ 32 → (check_hex s ≡ none) ↔ AllHex s
check_hex_iff s h = ground (arith, check_hex-form s)

insert_dashes-IsUuid : (s : Bytes) → AllHex s → IsUuid (insert_dashes 0 s)
insert_dashes-IsUuid s h =
    let e = length-AllHex s h in
    insert_dashes-form 0 s (h ∙ ap hex_form (sym e)) ∙ ap (inserted_form 0) e

-- Whatever is returned has the form 8-4-4-4-12, and the digits of the input in their order.
pub sanitize_uuid-IsUuid :
    (s r : Bytes) → sanitize_uuid s ≡ ok r → IsUuid r × (without_dashes r ≡ without_dashes s)
unfolding sanitize_uuid
sanitize_uuid-IsUuid s r h =
    ground (
      arith,
      check_dashed_iff s,
      check_hex_iff s,
      insert_dashes-IsUuid s,
      without_dashes-insert 0 s,
    )

-- A UUID of the form 8-4-4-4-12 is returned as it is.
pub sanitize_uuid_self : (s : Bytes) → IsUuid s → sanitize_uuid s ≡ ok s
unfolding sanitize_uuid
sanitize_uuid_self s h = ground (arith, check_dashed_iff s, length-IsUuid s h)

-- A call succeeds exactly on the form 8-4-4-4-12 and on 32 hexadecimal digits.
pub sanitize_uuid_accepts :
    (s : Bytes) → ((r : Bytes) × (sanitize_uuid s ≡ ok r)) ↔ (IsUuid s ⊎ AllHex s)
unfolding sanitize_uuid
sanitize_uuid_accepts s = (
  λ (r, h). ground (arith, check_dashed_iff s, check_hex_iff s),
  λ a. elim a [
    | inl u ↦ (s, sanitize_uuid_self s u)
    | inr x ↦ (insert_dashes 0 s, ground (arith, check_hex_iff s, length-AllHex s x))
  ],
)

check_dashed-ne : (i : ℕ) (s : Bytes) → check_dashed i s ≢ some bad_length
unfolding check_dashed
check_dashed-ne i [] h = cc
check_dashed-ne i (c ∷ s) h = ground (arith, check_dashed-ne (i + 1) s)

check_hex-ne : (s : Bytes) → check_hex s ≢ some bad_length
unfolding check_hex
check_hex-ne [] h = cc
check_hex-ne (c ∷ s) h = ground (arith, check_hex-ne s)

-- The length is blamed exactly if it is neither 32 nor 36.
pub sanitize_uuid-bad_length :
    (s : Bytes) → (sanitize_uuid s ≡ err bad_length) ↔ ((length s ≢ 32) × (length s ≢ 36))
unfolding sanitize_uuid
sanitize_uuid-bad_length s = ground (arith, check_dashed-ne 0 s, check_hex-ne s)
