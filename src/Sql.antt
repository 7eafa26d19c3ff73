-- ===== src/Sql.antt =====
-- src/util/sql_util.cpp: `sql::anonymize`, which replaces the named parameters of an SQL text by
-- `?`. A text is a list of bytes. `i` stays below the length of a string that exists in memory, so
-- `++i` does not wrap, and `--i` is taken only behind the `:` of a parameter, where `1 ≤ i`.
pub mod Scanner
pub mod Pieces
pub mod Idempotent
use cpp_grpc_db.Prelude.{
  ℕ, zero, suc, ◌+◌, ◌-◌, ◌*◌, Bool, not, ◌&&◌, ◌||◌, [], ◌∷◌, ◌++◌, Option, none, some, ltb, ◌==◌,
  if◌then◌else◌, length, get_or, Bytes, is_alnum,
}

pub data State : Type 0 where
  normal in_single_quote in_double_quote in_line_comment in_block_comment in_named_param : State

-- The variables of the loop.
pub record Scan : Type 0 where
  pub state : State
  pub i : ℕ
  pub result : Bytes

unfoldable pub is_ident : ℕ → Bool
unfolding is_alnum
is_ident c = is_alnum c || c == b'_'

-- `result += c`, and `result += c; result += next; ++i`.
abbrev pub put : ℕ → State → Scan → Scan
put c st m = record m { state = st; result = m.result ++ c ∷ [] }

abbrev pub put_both : ℕ → ℕ → State → Scan → Scan
put_both c next st m = record { state = st; i = m.i + 1; result = m.result ++ c ∷ next ∷ [] }

-- `case NORMAL`.
in_normal : ℕ → ℕ → Scan → Scan
in_normal c next m =
    if c == b'\''
    then put c in_single_quote m
    else if c == b'"'
    then put c in_double_quote m
    else if c == b'-' && next == b'-'
    then put_both c next in_line_comment m
    else if c == b'/' && next == b'*'
    then put_both c next in_block_comment m
    else if c == b':'
    then (if next == b':'
        then put_both c next normal m
        else if is_ident next
        then put b'?' in_named_param m
        else put c normal m)
    else put c normal m

-- `case IN_SINGLE_QUOTE`, `case IN_DOUBLE_QUOTE`: the state `st` of the literal, and its quote.
in_quote : State → ℕ → ℕ → ℕ → Scan → Scan
in_quote st quote c next m =
    if c == quote
    then (if next == quote then put_both c next st m else put c normal m)
    else put c st m

-- The `switch`.
unfoldable pub body : State → ℕ → ℕ → Scan → Scan
unfolding in_normal in_quote
body normal c next m = in_normal c next m
body in_single_quote c next m = in_quote in_single_quote b'\'' c next m
body in_double_quote c next m = in_quote in_double_quote b'"' c next m
body in_line_comment c next m = put c (if c == b'\n' then normal else in_line_comment) m
body in_block_comment c next m =
    if c == b'*' && next == b'/' then put_both c next normal m else put c in_block_comment m
body in_named_param c next m =
    if not (is_ident c) then record m { state = normal; i = m.i - 1 } else m

-- One round of the loop, `++i` included.
unfoldable pub step : Bytes → Scan → Scan
step s m =
    let next = if ltb (m.i + 1) (length s) then get_or s (m.i + 1) 0 else 0 in
    let m' = body m.state (get_or s m.i 0) next m in record m' { i = m'.i + 1 }

-- The loop, on fuel; `none` means that the fuel ran out.
unfoldable pub loop : ℕ → Bytes → Scan → Option Bytes
loop zero s m = none
loop (suc fuel) s m =
    let rest = loop fuel s (step s m) in if ltb m.i (length s) then rest else some m.result

abbrev pub start : Scan
start = record { state = normal; i = 0; result = [] }

-- Each byte is read at most twice.
unfoldable pub anonymize : Bytes → Option Bytes
anonymize s = loop (2 * length s + 1) s start
