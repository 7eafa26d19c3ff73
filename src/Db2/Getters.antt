-- ===== src/Db2/Getters.antt =====
-- The getters of `Connection::Row`. What `SQLGetData` answers is a parameter: for the number of the
-- call and the size of the buffer, its return code, the buffer as it is left, and the indicator.
pub mod Pieces
pub mod Texts
use cpp_grpc_db.Prelude.{
  ℕ, zero, suc, ◌+◌, ◌-◌, Bool, true, false, not, [], ◌∷◌, ◌++◌, Option, none, some, ltb, leb,
  if◌then◌else◌, length, take, Bytes,
}

pub data Return : Type 0 where
  success success_with_info no_data failure : Return

-- `SQL_NULL_DATA`, `SQL_NO_TOTAL`, which are negative, or a number of bytes.
pub data Length : Type 0 where
  null_data no_total : Length
  counted : ℕ → Length

pub record Answer : Type 0 where
  pub rc : Return
  pub buffer : Bytes
  pub ind : Length

-- How a getter ends: with a value or `std::nullopt`, with an exception, by a read behind the end of
-- its buffer, or not in the rounds that the loop was given.
pub data Got (A : Type 0) : Type 0 where
  value : Option A → Got A
  diag_thrown over_read unfinished : Got A

abbrev pub is_good : Return → Bool
is_good success = true
is_good success_with_info = true
is_good rc = false

abbrev number_of : Length → ℕ → Got ℕ
number_of null_data n = value none
number_of ind n = value (some n)

-- `getInt32`, `getInt64` and `getDouble`: `n` are the bits that the call writes.
unfoldable pub get_number : Return → Length → ℕ → Got ℕ
get_number no_data ind n = value none
get_number rc ind n = if not (is_good rc) then diag_thrown else number_of ind n

-- How much of a chunk is appended.
abbrev pub to_append : ℕ → ℕ → Length → ℕ
to_append size total_expected (counted n) =
    if ltb 0 n then if leb (total_expected + 1) (size + n) then n - 1 else n else 0
to_append size total_expected ind = 0

abbrev pub done : Return → Bytes → Got Bytes → Got Bytes
done success result rest = value (some result)
done rc result rest = rest

-- The body of the loop behind its `throw_diag`, with `rest` for the rounds that follow.
abbrev pub appended : Answer → Length → Bytes → ℕ → Got Bytes → Got Bytes
appended a null_data result k rest = value (some result)
appended a ind result k rest =
    if ltb (length a.buffer) k then over_read else done a.rc (result ++ take k a.buffer) rest

-- The loop of `getString`, from call `i` on.
unfoldable pub more : ℕ → (ℕ → ℕ → Answer) → ℕ → Bytes → ℕ → Got Bytes
more zero answers i result total_expected = unfinished
more (suc fuel) answers i result total_expected =
    let a = answers i 512 in
    let k = to_append (length result) total_expected a.ind in
    let rest = more fuel answers (i + 1) (result ++ take k a.buffer) total_expected in
    if ltb (length result) total_expected
    then if not (is_good a.rc) then diag_thrown else appended a a.ind result k rest
    else value (some result)

-- Behind the first call; a negative indicator is no larger than the buffer.
abbrev pub first_part : ℕ → (ℕ → ℕ → Answer) → Bytes → Length → Got Bytes
first_part fuel answers buf null_data = value none
first_part fuel answers buf no_total = value (some [])
first_part fuel answers buf (counted n) =
    if leb n 256
    then value (some (if ltb 0 n then take (n - 1) buf else []))
    else more fuel answers 1 (take 255 buf) (n - 1)

abbrev pub first_call : ℕ → (ℕ → ℕ → Answer) → Answer → Return → Got Bytes
first_call fuel answers a no_data = value none
first_call fuel answers a rc =
    if not (is_good rc) then diag_thrown else first_part fuel answers a.buffer a.ind

-- `getString`.
unfoldable pub get_string : ℕ → (ℕ → ℕ → Answer) → Got Bytes
unfolding more
get_string fuel answers = let a = answers 0 256 in first_call fuel answers a a.rc
