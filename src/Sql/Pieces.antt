-- ===== src/Sql/Pieces.antt =====
-- The lexical pieces of an SQL text, and what `sql::anonymize` makes of each of them.
use cpp_grpc_db.Prelude.{
  ℕ, Bool, true, false, not, ◌&&◌, ◌||◌, List, [], ◌∷◌, ◌++◌, some, ◌==◌, if◌then◌else◌, Bytes,
  is_alnum, ◌≡◌, refl, ap, ◌∙◌, arith,
}
use cpp_grpc_db.Sql.{
  normal, in_single_quote, in_double_quote, in_line_comment, in_block_comment, in_named_param,
  is_ident, anonymize,
}
use cpp_grpc_db.Sql.Scanner.{head_or, act, scan, anonymize-scan}

-- A literal and a comment hold any bytes; `lone` is one `-`, `/` or `:` that begins nothing.
pub data Piece : Type 0 where
  text : Bytes → Piece
  lone : ℕ → Piece
  cast : Piece
  param : Bytes → Piece
  single_quoted : Bytes → Piece
  double_quoted : Bytes → Piece
  line_comment : Bytes → Piece
  block_comment : Bytes → Piece

-- The body of a literal, with its quotes doubled.
abbrev pub doubled : ℕ → Bytes → Bytes
doubled q [] = []
doubled q (c ∷ s) = if c == q then c ∷ c ∷ doubled q s else c ∷ doubled q s

abbrev pub written : Piece → Bytes
written (text s) = s
written (lone c) = c ∷ []
written cast = b':' ∷ b':' ∷ []
written (param name) = b':' ∷ name
written (single_quoted s) = b'\'' ∷ (doubled b'\'' s ++ b'\'' ∷ [])
written (double_quoted s) = b'"' ∷ (doubled b'"' s ++ b'"' ∷ [])
written (line_comment s) = b'-' ∷ b'-' ∷ (s ++ b'\n' ∷ [])
written (block_comment s) = b'/' ∷ b'*' ∷ (s ++ b'*' ∷ b'/' ∷ [])

-- Only a parameter changes.
abbrev pub erased : Piece → Bytes
erased (param name) = b'?' ∷ []
erased p = written p

abbrev pub plain : Bytes → Bool
plain [] = true
plain (c ∷ s) = not (c == b'\'' || c == b'"' || c == b'-' || c == b'/' || c == b':') && plain s

abbrev pub all_ident : Bytes → Bool
all_ident [] = true
all_ident (c ∷ s) = is_ident c && all_ident s

abbrev pub is_name : Bytes → Bool
is_name [] = false
is_name (c ∷ s) = all_ident (c ∷ s)

abbrev pub without : ℕ → Bytes → Bool
without b [] = true
without b (c ∷ s) = not (c == b) && without b s

-- No `*/` inside.
abbrev pub unclosed : Bytes → Bool
unclosed [] = true
unclosed (c ∷ s) = not (c == b'*' && head_or s 0 == b'/') && unclosed s

abbrev begins_nothing : ℕ → ℕ → Bool
begins_nothing c next =
    (c == b'-' && not (next == b'-'))
    || (c == b'/' && not (next == b'*'))
    || (c == b':' && not (next == b':') && not (is_ident next))

-- A piece may stand before the byte `next`.
abbrev pub fits : Piece → ℕ → Bool
fits (text s) next = plain s
fits (lone c) next = begins_nothing c next
fits cast next = true
fits (param name) next = is_name name && not (is_ident next)
fits (single_quoted s) next = not (next == b'\'')
fits (double_quoted s) next = not (next == b'"')
fits (line_comment s) next = without b'\n' s
fits (block_comment s) next = unclosed s

abbrev pub write_all : List Piece → Bytes
write_all [] = []
write_all (p ∷ ps) = written p ++ write_all ps

abbrev pub erase_all : List Piece → Bytes
erase_all [] = []
erase_all (p ∷ ps) = erased p ++ erase_all ps

abbrev pub IsLexed : List Piece → Type 0
IsLexed [] = Unit {0}
IsLexed (p ∷ ps) = (fits p (head_or (write_all ps) 0) ≡ true) × IsLexed ps

scan-text :
    (s rest : Bytes) → plain s ≡ true → scan normal false (s ++ rest) ≡ s ++ scan normal false rest
unfolding scan act
scan-text [] rest h = refl
scan-text (c ∷ s) rest h = ground (arith, scan-text s rest)

scan-all_ident :
    (s rest : Bytes)
    → all_ident s ≡ true
    → scan in_named_param false (s ++ rest) ≡ scan in_named_param false rest
unfolding scan act
scan-all_ident [] rest h = refl
scan-all_ident (c ∷ s) rest h = ground (arith, scan-all_ident s rest)

is_ident_zero : is_ident 0 ≡ false
unfolding is_ident
is_ident_zero = refl

scan_param_end :
    (rest : Bytes)
    → is_ident (head_or rest 0) ≡ false
    → scan in_named_param false rest ≡ scan normal false rest
unfolding scan
scan_param_end [] h = refl
scan_param_end (c ∷ s) h = rw h

ident-ne-colon : (c : ℕ) → is_ident c ≡ true → (c == b':') ≡ false
unfolding is_ident is_alnum
ident-ne-colon c h = ground arith

scan-colon :
    (rest : Bytes)
    → is_ident (head_or rest 0) ≡ true
    → scan normal false (b':' ∷ rest) ≡ b'?' ∷ scan in_named_param false rest
unfolding scan act
scan-colon rest h = ground (arith, ident-ne-colon (head_or rest 0))

scan-param :
    (name rest : Bytes)
    → fits (param name) (head_or rest 0) ≡ true
    → scan normal false ((b':' ∷ name) ++ rest) ≡ b'?' ∷ scan normal false rest
scan-param [] rest h = cc
scan-param (c ∷ s) rest h =
    let named = scan-all_ident (c ∷ s) rest (ground arith) ∙ scan_param_end rest (ground arith) in
    scan-colon (c ∷ s ++ rest) (ground arith) ∙ ap (◌∷◌ b'?') named

scan-single :
    (s rest : Bytes)
    → not (head_or rest 0 == b'\'') ≡ true
    → scan in_single_quote false ((doubled b'\'' s ++ b'\'' ∷ []) ++ rest)
      ≡ (doubled b'\'' s ++ b'\'' ∷ []) ++ scan normal false rest
unfolding scan act
scan-single [] rest h = ground arith
scan-single (c ∷ s) rest h = ground (arith, scan-single s rest)

scan-double :
    (s rest : Bytes)
    → not (head_or rest 0 == b'"') ≡ true
    → scan in_double_quote false ((doubled b'"' s ++ b'"' ∷ []) ++ rest)
      ≡ (doubled b'"' s ++ b'"' ∷ []) ++ scan normal false rest
unfolding scan act
scan-double [] rest h = ground arith
scan-double (c ∷ s) rest h = ground (arith, scan-double s rest)

scan-line :
    (s rest : Bytes)
    → without b'\n' s ≡ true
    → scan in_line_comment false ((s ++ b'\n' ∷ []) ++ rest)
      ≡ (s ++ b'\n' ∷ []) ++ scan normal false rest
unfolding scan act
scan-line [] rest h = ground arith
scan-line (c ∷ s) rest h = ground (arith, scan-line s rest)

scan-block :
    (s rest : Bytes)
    → unclosed s ≡ true
    → scan in_block_comment false ((s ++ b'*' ∷ b'/' ∷ []) ++ rest)
      ≡ (s ++ b'*' ∷ b'/' ∷ []) ++ scan normal false rest
unfolding scan act
scan-block [] rest h = ground arith
scan-block (c ∷ []) rest h = ground (arith, scan-block [] rest)
scan-block (c ∷ d ∷ s) rest h = ground (arith, scan-block (d ∷ s) rest)

scan-lone :
    (c : ℕ) (rest : Bytes)
    → begins_nothing c (head_or rest 0) ≡ true
    → scan normal false (c ∷ rest) ≡ c ∷ scan normal false rest
unfolding scan act
scan-lone c rest h = ground arith

-- One piece is read up to its end.
scan-piece :
    (p : Piece) (rest : Bytes)
    → fits p (head_or rest 0) ≡ true
    → scan normal false (written p ++ rest) ≡ erased p ++ scan normal false rest
scan-piece (text s) rest h = scan-text s rest h
scan-piece (lone c) rest h = scan-lone c rest h
scan-piece cast rest h = unfold scan act in refl
scan-piece (param name) rest h = scan-param name rest h
scan-piece (single_quoted s) rest h = unfold scan act in ground (arith, scan-single s rest)
scan-piece (double_quoted s) rest h = unfold scan act in ground (arith, scan-double s rest)
scan-piece (line_comment s) rest h = unfold scan act in ground (arith, scan-line s rest)
scan-piece (block_comment s) rest h = unfold scan act in ground (arith, scan-block s rest)

scan-write_all : (ps : List Piece) → IsLexed ps → scan normal false (write_all ps) ≡ erase_all ps
scan-write_all [] h = unfold scan in refl
scan-write_all (p ∷ ps) (f, h) =
    scan-piece p (write_all ps) f ∙ ap (◌++◌ (erased p)) (scan-write_all ps h)

-- A text that is written as a row of pieces, each of which may stand before the next, comes out
-- as the same row with each parameter replaced by one `?`: literals, comments, casts and all
-- other text are kept byte for byte.
pub anonymize-write_all :
    (ps : List Piece) → IsLexed ps → anonymize (write_all ps) ≡ some (erase_all ps)
anonymize-write_all ps h = anonymize-scan (write_all ps) ∙ ap some (scan-write_all ps h)
