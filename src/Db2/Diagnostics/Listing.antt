-- ===== src/Db2/Diagnostics/Listing.antt =====
-- src/db2/db2.cpp: what the text of an exception shows of the records of the driver.
use cpp_grpc_db.Prelude.{
  ℕ, zero, suc, ◌+◌, ◌≤◌, List, [], ◌∷◌, ◌++◌, Option, none, some, ltb, leb, true, false,
  if◌then◌else◌, length, take, Bytes, codes, ◌≡◌, ◌≢◌, refl, arith, append-nil, append_assoc,
  Bool-cases, inl, inr, sym, ◌∙◌, ap, leb→le,
}
use cpp_grpc_db.Msvc.{ℤ}
use cpp_grpc_db.Db2.Diagnostics.{
  Answer, message_of, entry, or_no_diagnostics, records_from, diag_message,
}

pub record DiagRecord : Type 0 where
  pub sql_state : Bytes
  pub native_error : ℤ
  pub message : Bytes

-- What the driver's documentation says that a call leaves for a record: `textLength` is the length
-- of the whole message, of which the buffer has room for 1023 bytes and a NUL.
pub record Leaves (r : DiagRecord) (a : Answer) : Type 0 where
  pub same_state : a.sql_state ≡ r.sql_state
  pub same_error : a.native_error ≡ r.native_error
  pub whole_length : a.text_length ≡ length r.message
  pub buffer_size : length a.message_text ≡ 1024
  pub text : length r.message ≤ 1023 → take (length r.message) a.message_text ≡ r.message

-- The driver holds these records from number `i` on, and no further one.
abbrev pub Holds : (ℕ → Option Answer) → ℕ → List DiagRecord → Type 0
Holds get_diag_rec i [] = get_diag_rec i ≡ none
Holds get_diag_rec i (r ∷ rs) =
    ((a : Answer) × (get_diag_rec i ≡ some a) × Leaves r a) × Holds get_diag_rec (i + 1) rs

abbrev pub NoneOf : ℕ → List DiagRecord → Type 0
NoneOf n [] = Unit
NoneOf n (r ∷ rs) = (◌≢◌ {A = ℕ} (length r.message) n) × NoneOf n rs

-- A record, and the separator, which is left out behind the last record that may be shown, but not
-- behind the last one that there is.
abbrev pub shown : ℕ → DiagRecord → Option Bytes → Option Bytes
shown left r none = none
shown zero r (some rest) = some (entry r.sql_state r.native_error r.message ++ rest)
shown (suc left) r (some rest) =
    some (entry r.sql_state r.native_error r.message ++ (codes " | " ++ rest))

-- The first records, if their messages fit into the buffer.
unfoldable pub listed : ℕ → List DiagRecord → Option Bytes
listed zero rs = some []
listed (suc left) [] = some []
listed (suc left) (r ∷ rs) =
    let rest = listed left rs in if leb (length r.message) 1023 then shown left r rest else none

abbrev behind : Bytes → Option Bytes → Option Bytes
behind out none = none
behind out (some text) = some (out ++ text)

message_of-Leaves :
    (r : DiagRecord) (a : Answer)
    → Leaves r a
    → ◌≢◌ {A = ℕ} (length r.message) 1024
    → message_of a ≡ (if leb (length r.message) 1023 then some r.message else none)
message_of-Leaves r a h other = elim (Bool-cases (leb (length r.message) 1023)) [
  | inl fits ↦
      let room : leb (length r.message) 1024 ≡ true = ground arith in
      rw (h.whole_length, h.buffer_size, room, fits)
        (ap some (h.text (leb→le (length r.message) 1023 fits)))
  | inr long ↦
      let over : leb (length r.message) 1024 ≡ false = ground arith in
      rw (h.whole_length, h.buffer_size, over, long) refl
]

shown-behind :
    (left : ℕ) (r : DiagRecord) (out : Bytes) (o : Option Bytes)
    → behind ((out ++ entry r.sql_state r.native_error r.message) ++ codes " | ") o
      ≡ behind out (shown (suc left) r o)
shown-behind left r out none = refl
shown-behind left r out (some text) =
    let e = entry r.sql_state r.native_error r.message in
    ap some (append_assoc (out ++ e) (codes " | ") text ∙ append_assoc out e (codes " | " ++ text))

module _ (get_diag_rec : ℕ → Option Answer) where
  records-listed :
      (fuel i : ℕ) (out : Bytes) (rs : List DiagRecord)
      → suc fuel + i ≡ 21
      → 1 ≤ i
      → Holds get_diag_rec i rs
      → NoneOf 1024 rs
      → records_from get_diag_rec (suc fuel) i out ≡ behind out (listed (suc fuel) rs)
  unfolding records_from listed
  records-listed fuel i out [] last first h other = rw h (ap some (sym (append-nil out)))
  records-listed zero i out (r ∷ rs) last first h other =
      let (a, at, leaves) = h.0 in
      let m = message_of-Leaves r a leaves other.0 in
      let e = entry r.sql_state r.native_error r.message in
      let behind_20 : ltb 20 (i + 1) ≡ true = ground arith in
      elim (Bool-cases (leb (length r.message) 1023)) [
        | inl fits ↦
            rw (at, m, fits, behind_20, leaves.same_state, leaves.same_error)
              (ap (λ t. some (out ++ t)) (sym (append-nil e)))
        | inr long ↦ rw (at, m, long) refl
      ]
  records-listed (suc fuel) i out (r ∷ rs) last first h other =
      let (a, at, leaves) = h.0 in
      let m = message_of-Leaves r a leaves other.0 in
      let before_20 : ltb 20 (i + 1) ≡ false = ground arith in
      let some_before : ltb 1 (i + 1) ≡ true = ground arith in
      let e = entry r.sql_state r.native_error r.message in
      let rest =
        records-listed fuel (i + 1) ((out ++ e) ++ codes " | ") rs (omega arith) (omega arith) h.1
          other.1 in
      elim (Bool-cases (leb (length r.message) 1023)) [
        | inl fits ↦
            rw (at, m, fits, before_20, some_before, leaves.same_state, leaves.same_error)
              (rest ∙ shown-behind fuel r out (listed (suc fuel) rs))
        | inr long ↦ rw (at, m, long) refl
      ]

shown-diagnostics :
    (left : ℕ) (r : DiagRecord) (o : Option Bytes)
    → or_no_diagnostics (behind [] (shown left r o)) ≡ shown left r o
unfolding or_no_diagnostics
shown-diagnostics left r none = refl
shown-diagnostics zero r (some rest) = refl
shown-diagnostics (suc left) r (some rest) = refl

-- The text for all the records of the driver.
unfoldable pub explained : List DiagRecord → Option Bytes
explained [] = some (codes "DB2 CLI error (no diagnostics)")
explained (r ∷ rs) = listed 20 (r ∷ rs)

-- `diag_message` of a driver that holds the records `rs`, over its documented behaviour, where no
-- message has exactly 1024 bytes: the first 20 records are shown in their order as `[state] (error)
-- message`, a separator stands behind each of them but the twentieth, and so also behind the last
-- one if there are fewer; with no record there is the text that says so; and if one of the 20
-- messages has more than 1024 bytes, memory behind `messageText` is read. The loop ends in each case.
pub diag_message-explained :
    (get_diag_rec : ℕ → Option Answer) (rs : List DiagRecord)
    → Holds get_diag_rec 1 rs
    → NoneOf 1024 rs
    → diag_message get_diag_rec ≡ explained rs
unfolding diag_message explained listed
diag_message-explained get_diag_rec [] h other =
    rw (records-listed get_diag_rec 19 1 [] [] refl (omega arith) h other) refl
diag_message-explained get_diag_rec (r ∷ rs) h other =
    elim (Bool-cases (leb (length r.message) 1023)) [
      | inl fits ↦
          ap or_no_diagnostics
            (records-listed get_diag_rec 19 1 [] (r ∷ rs) refl (omega arith) h other)
          ∙ rw fits (shown-diagnostics 19 r (listed 19 rs))
      | inr long ↦
          ap or_no_diagnostics
            (records-listed get_diag_rec 19 1 [] (r ∷ rs) refl (omega arith) h other)
          ∙ rw long refl
    ]
