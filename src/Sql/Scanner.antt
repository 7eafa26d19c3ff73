-- ===== src/Sql/Scanner.antt =====
-- The loop of `sql::anonymize` against a scanner by recursion on the text, and the fuel.
use cpp_grpc_db.Prelude.{
  ℕ, zero, suc, ◌+◌, ◌-◌, ◌*◌, ◌≤◌, ◌<◌, Bool, true, false, not, ◌&&◌, [], ◌∷◌, ◌++◌, some, ltb,
  ◌==◌, if◌then◌else◌, length, get_or, drop, Bytes, Bool-cases, ◌≡◌, refl, ◌∙◌, ap, arith, inl, inr,
  append-nil, append_assoc,
}
use cpp_grpc_db.Sql.{
  State, normal, in_single_quote, in_double_quote, in_line_comment, in_block_comment,
  in_named_param, Scan, is_ident, body, step, loop, start, anonymize,
}

-- The byte that the next round reads, and 0 at the end.
abbrev pub head_or : Bytes → ℕ → ℕ
head_or [] d = d
head_or (c ∷ s) d = c

-- A byte that ends a parameter is read in the state `normal`.
abbrev pub entered : State → ℕ → State
entered in_named_param c = if is_ident c then in_named_param else normal
entered st c = st

abbrev is_reread : State → ℕ → Bool
is_reread in_named_param c = not (is_ident c)
is_reread st c = false

-- What a state does with one byte: the output, the next state, whether the next byte went too.
pub record Action : Type 0 where
  pub out : Bytes
  pub then_state : State
  pub wide : Bool

abbrev one : ℕ → State → Action
one c st = record { out = c ∷ []; then_state = st; wide = false }

abbrev two : ℕ → ℕ → State → Action
two c next st = record { out = c ∷ next ∷ []; then_state = st; wide = true }

abbrev quoted : State → ℕ → ℕ → ℕ → Action
quoted st quote c next =
    if c == quote then (if next == quote then two c next st else one c normal) else one c st

unfoldable pub act : State → ℕ → ℕ → Action
act normal c next =
    if c == b'\''
    then one c in_single_quote
    else if c == b'"'
    then one c in_double_quote
    else if c == b'-' && next == b'-'
    then two c next in_line_comment
    else if c == b'/' && next == b'*'
    then two c next in_block_comment
    else if c == b':' && next == b':'
    then two c next normal
    else if c == b':' && is_ident next
    then one b'?' in_named_param
    else one c normal
act in_single_quote c next = quoted in_single_quote b'\'' c next
act in_double_quote c next = quoted in_double_quote b'"' c next
act in_line_comment c next = one c (if c == b'\n' then normal else in_line_comment)
act in_block_comment c next =
    if c == b'*' && next == b'/' then two c next normal else one c in_block_comment
act in_named_param c next = record { out = []; then_state = in_named_param; wide = false }

-- The flag says that the first byte was taken with the one before it.
unfoldable pub scan : State → Bool → Bytes → Bytes
scan st skip [] = []
scan st true (c ∷ s) = scan st false s
scan st false (c ∷ s) =
    let a = act (entered st c) c (head_or s 0) in a.out ++ scan a.then_state a.wide s

-- One round of the switch is one action.
record Acts (a : Action) (m m' : Scan) : Type 0 where
  result_is : m'.result ≡ m.result ++ a.out
  state_is : m'.state ≡ a.then_state
  i_is : m'.i ≡ m.i + (if a.wide then 1 else 0)

put-Acts :
    (c : ℕ) (m : Scan) (st : State)
    → Acts (one c st) m (record m { state = st; result = m.result ++ c ∷ [] })
put-Acts c m st = record { result_is = refl; state_is = refl; i_is = omega arith }

body-Acts :
    (st : State) (c next : ℕ) (m : Scan)
    → m.state ≡ st
    → entered st c ≡ st
    → Acts (act st c next) m (body st c next m)
unfolding act body
body-Acts in_named_param c next m h e = ground (arith, append-nil m.result)
body-Acts normal c next m h e = ground arith
body-Acts _ c next m h e = ground arith

drop-get_or : (s : Bytes) (i : ℕ) → i < length s → drop i s ≡ get_or s i 0 ∷ drop (suc i) s
drop-get_or [] i h = elim h [ ]
drop-get_or (x ∷ xs) zero h = refl
drop-get_or (x ∷ xs) (suc i) h = drop-get_or xs i (omega arith)

drop_end : (s : Bytes) (i : ℕ) → length s ≤ i → drop i s ≡ []
drop_end [] zero h = refl
drop_end [] (suc i) h = refl
drop_end (x ∷ xs) zero h = absurd (omega arith)
drop_end (x ∷ xs) (suc i) h = drop_end xs i (omega arith)

head_or-drop :
    (s : Bytes) (i : ℕ) → (if ltb i (length s) then get_or s i 0 else 0) ≡ head_or (drop i s) 0
head_or-drop [] zero = refl
head_or-drop [] (suc i) = ground arith
head_or-drop (x ∷ xs) zero = ground arith
head_or-drop (x ∷ xs) (suc i) = ground (arith, head_or-drop xs i)

drop-drop : (s : Bytes) (i : ℕ) → drop 1 (drop i s) ≡ drop (suc i) s
drop-drop [] zero = refl
drop-drop [] (suc i) = refl
drop-drop (x ∷ xs) zero = refl
drop-drop (x ∷ xs) (suc i) = drop-drop xs i

pub scan_skip : (st : State) (s : Bytes) → scan st true s ≡ scan st false (drop 1 s)
unfolding scan
scan_skip st [] = refl
scan_skip st (c ∷ s) = refl

-- A parameter is entered behind its `:`.
abbrev IsPlaced : Scan → Type 0
IsPlaced m = m.state ≡ in_named_param → 1 ≤ m.i

-- Rounds left: two for each byte, and one more inside a parameter.
abbrev extra : State → ℕ
extra in_named_param = 1
extra _ = 0

abbrev left : Bytes → Scan → ℕ
left s m = 2 * (length s - m.i) + extra m.state

-- What the loop still adds to `result`.
abbrev to_come : Bytes → Scan → Bytes
to_come s m = m.result ++ scan m.state false (drop m.i s)

record Advances (s : Bytes) (m m' : Scan) : Type 0 where
  same : to_come s m' ≡ to_come s m
  placed : IsPlaced m'
  fewer : left s m' < left s m

-- After an action that starts at `i`, what is left of the text.
scan-after :
    (s : Bytes) (i : ℕ) (a : Action)
    → scan a.then_state false (drop (i + (if a.wide then 1 else 0) + 1) s)
      ≡ scan a.then_state a.wide (drop (suc i) s)
scan-after s i a = elim (Bool-cases a.wide) [
  | inl w ↦
      rw (w, scan_skip, drop-drop s (suc i))
        (ap (λ j. scan a.then_state false (drop j s)) {y = suc (suc i)} (omega arith))
  | inr n ↦ rw n (ap (λ j. scan a.then_state false (drop j s)) {y = suc i} (omega arith))
]

scan-cons :
    (st : State) (s : Bytes) (i : ℕ)
    → i < length s
    → entered st (get_or s i 0) ≡ st
    → let a = act st (get_or s i 0) (head_or (drop (suc i) s) 0) in
      scan st false (drop i s) ≡ a.out ++ scan a.then_state a.wide (drop (suc i) s)
unfolding scan
scan-cons st s i h e = rw (drop-get_or s i h) (rw e)

Acts-to_come :
    (s : Bytes) (m m' : Scan)
    → m.i < length s
    → entered m.state (get_or s m.i 0) ≡ m.state
    → Acts (act m.state (get_or s m.i 0) (head_or (drop (suc m.i) s) 0)) m m'
    → to_come s (record m' { i = m'.i + 1 }) ≡ to_come s m
Acts-to_come s m m' lt e a =
    rw (a.result_is, a.state_is, a.i_is, scan-after s m.i, scan-cons m.state s m.i lt e)
      (append_assoc m.result _ _)

next_lem :
    (s : Bytes) (i : ℕ)
    → (if ltb (i + 1) (length s) then get_or s (i + 1) 0 else 0) ≡ head_or (drop (suc i) s) 0
next_lem s i = ground (arith, head_or-drop s (suc i))

extra-le : (st : State) → extra st ≤ 1
extra-le in_named_param = omega arith
extra-le _ = omega arith

fresh-Advances :
    (s : Bytes) (m m' : Scan)
    → m.i < length s
    → entered m.state (get_or s m.i 0) ≡ m.state
    → Acts (act m.state (get_or s m.i 0) (head_or (drop (suc m.i) s) 0)) m m'
    → Advances s m (record m' { i = m'.i + 1 })
fresh-Advances s m m' lt e a = record {
  same = Acts-to_come s m m' lt e a;
  placed = λ _. omega arith;
  fewer = ground (arith, extra-le m'.state);
}

scan-reread :
    (s : Bytes) (i : ℕ)
    → i < length s
    → is_ident (get_or s i 0) ≡ false
    → scan normal false (drop i s) ≡ scan in_named_param false (drop i s)
unfolding scan
scan-reread s i lt h = rw (drop-get_or s i lt) (rw h)

reread-Advances :
    (s : Bytes) (st : State) (m : Scan)
    → m.state ≡ st
    → m.i < length s
    → IsPlaced m
    → is_reread st (get_or s m.i 0) ≡ true
    → Advances s m (record { state = normal; i = m.i - 1 + 1; result = m.result })
reread-Advances s in_named_param m e lt h r =
    let back : m.i - 1 + 1 ≡ m.i = omega (arith, h e) in
    record {
      same = rw (back, e) (ap (◌++◌ m.result) (scan-reread s m.i lt (ground arith)));
      placed = λ q. cc;
      fewer = rw (back, e) (omega arith);
    }
reread-Advances s _ m e lt h r = cc

body_reread :
    (st : State) (c next : ℕ) (m : Scan)
    → is_reread st c ≡ true
    → body st c next m ≡ record { state = normal; i = m.i - 1; result = m.result }
unfolding body
body_reread in_named_param c next m r = rw r
body_reread _ c next m r = cc

entered_fresh : (st : State) (c : ℕ) → is_reread st c ≡ false → entered st c ≡ st
entered_fresh in_named_param c r = ground arith
entered_fresh _ c r = refl

-- Each round keeps what is to come, and uses up at least one of the rounds left.
step-Advances : (s : Bytes) (m : Scan) → IsPlaced m → m.i < length s → Advances s m (step s m)
unfolding step
step-Advances s m h lt = elim (Bool-cases (is_reread m.state (get_or s m.i 0))) [
  | inl again ↦ rw (body_reread m.state _ _ m again) (reread-Advances s m.state m refl lt h again)
  | inr fresh ↦
      let e = entered_fresh m.state _ fresh in
      fresh-Advances s m _ lt e (rw next_lem (body-Acts m.state _ _ m refl e))
]

loop-scan :
    (fuel : ℕ) (s : Bytes) (m : Scan)
    → IsPlaced m
    → left s m < fuel
    → loop fuel s m ≡ some (to_come s m)
unfolding loop
loop-scan zero s m h f = absurd (omega arith)
loop-scan (suc fuel) s m h f = elim (Bool-cases (ltb m.i (length s))) [
  | inl more ↦
      let a = step-Advances s m h (ground arith) in
      rw more (loop-scan fuel s (step s m) a.placed (omega (arith, a.fewer)) ∙ ap some a.same)
  | inr done ↦ rw (done, drop_end s m.i (ground arith)) (unfold scan in rw append-nil)
]

-- The fuel is enough, whatever the text, and the loop computes the scanner.
pub anonymize-scan : (s : Bytes) → anonymize s ≡ some (scan normal false s)
unfolding anonymize
anonymize-scan s = loop-scan (2 * length s + 1) s start (λ e. cc) (omega arith)
