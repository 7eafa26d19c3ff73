-- ===== src/Db2/Diagnostics.antt =====
-- src/db2/db2.cpp: `diag_message` and `throw_diag`, the texts of the exceptions. `SQLGetDiagRec` is
-- the driver's: what it leaves in the buffers for each record number is a parameter, and `none` is
-- an answer other than SQL_SUCCESS and SQL_SUCCESS_WITH_INFO.
pub mod Listing
use cpp_grpc_db.Prelude.{
  ℕ, zero, suc, ◌+◌, ◌-◌, ◌*◌, ◌/◌, ◌%◌, ◌^◌, ◌≤◌, ◌<◌, min, List, [], ◌∷◌, ◌++◌, Option, none,
  some, ltb, leb, ltb→lt, if◌then◌else◌, length, take, decimal, Bytes, codes, ◌≡◌, ◌≢◌, refl, arith,
}
use cpp_grpc_db.Msvc.{ℤ, pos, negsuc}

-- What a call leaves: the state up to its NUL, the 1024 bytes of `messageText`, and `textLength`.
pub record Answer : Type 0 where
  pub sql_state : Bytes
  pub native_error : ℤ
  pub message_text : Bytes
  pub text_length : ℕ

-- An `SQLINTEGER` has ten digits at most.
unfoldable pub printed : ℤ → Bytes
printed (pos n) = decimal 10 n
printed (negsuc n) = b'-' ∷ decimal 10 (n + 1)

-- `std::string(messageText, textLength)`; `none` stands for a read behind the array.
abbrev pub message_of : Answer → Option Bytes
message_of a =
    if leb a.text_length (length a.message_text)
    then some (take a.text_length a.message_text)
    else none

abbrev pub entry : Bytes → ℤ → Bytes → Bytes
entry state native text =
    codes "[" ++ (state ++ (codes "] (" ++ (printed native ++ (codes ") " ++ text))))

-- The rest of a round, with the text of the record: `rest` is the next round.
abbrev pub appended : ℕ → Bytes → Answer → (Bytes → Option Bytes) → Option Bytes → Option Bytes
appended i out a rest none = none
appended i out a rest (some text) =
    let out' = out ++ entry a.sql_state a.native_error text in
    if ltb 20 (i + 1) then some out' else rest (if ltb 1 (i + 1) then out' ++ codes " | " else out')

abbrev pub on_record : ℕ → Bytes → (Bytes → Option Bytes) → Option Answer → Option Bytes
on_record i out rest none = some out
on_record i out rest (some a) = appended i out a rest (message_of a)

unfoldable pub or_no_diagnostics : Option Bytes → Option Bytes
or_no_diagnostics none = none
or_no_diagnostics (some []) = some (codes "DB2 CLI error (no diagnostics)")
or_no_diagnostics (some (b ∷ out)) = some (b ∷ out)

module _ (get_diag_rec : ℕ → Option Answer) where
  -- The loop from record `i` on. It ends behind record 20, so that a fuel of 20 is enough.
  unfoldable pub records_from : ℕ → ℕ → Bytes → Option Bytes
  records_from zero i out = none
  records_from (suc fuel) i out =
      on_record i out (λ out'. records_from fuel (i + 1) out') (get_diag_rec i)

  unfoldable pub diag_message : Option Bytes
  unfolding records_from or_no_diagnostics
  diag_message = or_no_diagnostics (records_from 20 1 [])

abbrev pub located : Bytes → Option Bytes → Option Bytes
located place none = none
located place (some message) = some (place ++ (codes ": " ++ message))

-- `throw_diag`: the text of the exception.
unfoldable pub throw_diag : (ℕ → Option Answer) → Bytes → Option Bytes
unfolding diag_message
throw_diag get_diag_rec place = located place (diag_message get_diag_rec)
