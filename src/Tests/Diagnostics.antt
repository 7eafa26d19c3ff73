-- ===== src/Tests/Diagnostics.antt =====
-- The texts of the exceptions of the DB2 connection.
use cpp_grpc_db.Prelude.{
  ℕ, replicate, ◌++◌, [], ◌∷◌, Option, none, some, ◌==◌, if◌then◌else◌, ◌≡◌, refl, arith, codes,
  decimal,
}
use cpp_grpc_db.Msvc.{negsuc}
use cpp_grpc_db.Db2.Diagnostics.{Answer, printed, diag_message}
use cpp_grpc_db.Db2.Diagnostics.Listing.{
  DiagRecord, Leaves, explained, listed, diag_message-explained,
}

-- The driver holds one record.
abbrev lost_link : DiagRecord
lost_link = record {
  sql_state = codes "08001";
  native_error = negsuc 30080;
  message = codes "lost";
}

abbrev left_by_call : Answer
left_by_call = record {
  sql_state = codes "08001";
  native_error = negsuc 30080;
  message_text = codes "lost" ++ replicate 1020 0;
  text_length = 4;
}

abbrev one_record : ℕ → Option Answer
one_record n = if n == 1 then some left_by_call else none

lost_link-Leaves : Leaves lost_link left_by_call
lost_link-Leaves = record {
  same_state = refl;
  same_error = refl;
  whole_length = refl;
  buffer_size = refl;
  text = λ short. refl;
}

one_record-shown : explained (lost_link ∷ []) ≡ some (codes "[08001] (-30081) lost | ")
unfolding explained listed printed decimal
one_record-shown = refl

diag_message-explained_example : diag_message one_record ≡ explained (lost_link ∷ [])
diag_message-explained_example =
    diag_message-explained one_record (lost_link ∷ [])
      ((left_by_call, refl, lost_link-Leaves), refl) ((λ h. absurd (omega (arith, h))), tt)
