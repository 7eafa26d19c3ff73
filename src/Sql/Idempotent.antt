-- ===== src/Sql/Idempotent.antt =====
-- What `sql::anonymize` returns holds no parameter any more, and is no longer than the text.
use cpp_grpc_db.Prelude.{
  ℕ, ◌≤◌, true, false, [], ◌∷◌, ◌++◌, some, if◌then◌else◌, Bytes, ◌≡◌, ◌≢◌, ◌⊎◌, inl, inr, refl, ap,
  ◌∙◌, arith, length, length-append, Bool-cases, is_alnum,
}
use cpp_grpc_db.Sql.{
  State, normal, in_single_quote, in_double_quote, in_line_comment, in_block_comment,
  in_named_param, is_ident, anonymize,
}
use cpp_grpc_db.Sql.Scanner.{head_or, entered, act, scan, scan_skip, anonymize-scan}

-- The first byte of the output, from a state that is outside a parameter.
head-scan :
    (st : State) (s : Bytes)
    → st ≢ in_named_param
    → (head_or (scan st false s) 0 ≡ head_or s 0)
      ⊎ ((head_or s 0 ≡ b':') × (head_or (scan st false s) 0 ≡ b'?'))
unfolding scan act
head-scan st [] h = inl refl
head-scan in_named_param (c ∷ s) h = absurd (h refl)
head-scan _ (c ∷ s) h = ground arith

length-out :
    (st : State) (c next : ℕ) → length (act st c next).out ≤ (if (act st c next).wide then 2 else 1)
unfolding act
length-out in_named_param c next = omega arith
length-out _ c next = ground arith

-- At the end of the text one byte is left.
length-out_end : (st : State) (c : ℕ) → length (act st c 0).out ≤ 1
unfolding act
length-out_end in_named_param c = omega arith
length-out_end _ c = ground arith

length-scan : (st : State) (s : Bytes) → length (scan st false s) ≤ length s
unfolding scan
length-scan st [] = omega arith
length-scan st (c ∷ []) =
    let o = (act (entered st c) c 0).out in
    omega (arith, length-append o [], length-out_end (entered st c) c)
length-scan st (c ∷ d ∷ s) =
    let a = act (entered st c) c d in
    elim (Bool-cases a.wide) [
      | inl w ↦ rw w (
          omega (
            arith,
            length-append a.out (scan a.then_state false s),
            rw w at (length-out (entered st c) c d),
            length-scan a.then_state s,
          ))
      | inr n ↦ rw n (
          omega (
            arith,
            length-append a.out (scan a.then_state false (d ∷ s)),
            rw n at (length-out (entered st c) c d),
            length-scan a.then_state (d ∷ s),
          ))
    ]

-- The state in which the output of a state is read again.
abbrev outside : State → State
outside in_named_param = normal
outside st = st

is_ident_mark : is_ident b'?' ≡ false
unfolding is_ident is_alnum
is_ident_mark = refl

-- What may follow a byte in the output, if `next` followed it in the text.
abbrev Follows : State → ℕ → ℕ → Type 0
Follows st next next' = (st ≡ in_named_param) ⊎ ((next' ≡ next) ⊎ ((next ≡ b':') × (next' ≡ b'?')))

again_one :
    (st : State) (c next : ℕ) (t : Bytes)
    → st ≢ in_named_param
    → (act st c next).wide ≡ false
    → Follows (act st c next).then_state next (head_or t 0)
    → scan st false ((act st c next).out ++ t)
      ≡ (act st c next).out ++ scan (outside (act st c next).then_state) false t
unfolding act scan
again_one in_named_param c next t h w f = absurd (h refl)
again_one normal c next t h w f = ground (arith, is_ident_mark)
again_one _ c next t h w f = ground arith

again_two :
    (st : State) (c next : ℕ) (t : Bytes)
    → st ≢ in_named_param
    → (act st c next).wide ≡ true
    → scan st false ((act st c next).out ++ t)
      ≡ (act st c next).out ++ scan (outside (act st c next).then_state) false t
unfolding act scan
again_two in_named_param c next t h w = absurd (h refl)
again_two _ c next t h w = ground arith

Follows-scan : (st : State) (s : Bytes) → Follows st (head_or s 0) (head_or (scan st false s) 0)
Follows-scan in_named_param s = inl refl
Follows-scan normal s = inr (head-scan normal s (λ e. cc))
Follows-scan in_single_quote s = inr (head-scan in_single_quote s (λ e. cc))
Follows-scan in_double_quote s = inr (head-scan in_double_quote s (λ e. cc))
Follows-scan in_line_comment s = inr (head-scan in_line_comment s (λ e. cc))
Follows-scan in_block_comment s = inr (head-scan in_block_comment s (λ e. cc))

-- The output of one byte and of the text behind it, scanned again.
again-step :
    (st : State) (c : ℕ) (s : Bytes)
    → st ≢ in_named_param
    → ((st' : State) → scan (outside st') false (scan st' false s) ≡ scan st' false s)
    → ((st' : State) → scan (outside st') false (scan st' true s) ≡ scan st' true s)
    → let a = act st c (head_or s 0) in
      scan st false (a.out ++ scan a.then_state a.wide s) ≡ a.out ++ scan a.then_state a.wide s
again-step st c s h one two =
    let a = act st c (head_or s 0) in
    elim (Bool-cases a.wide) [
      | inl w ↦ again_two st c (head_or s 0) _ h w ∙ rw w (ap (◌++◌ a.out) (two a.then_state))
      | inr n ↦
          again_one st c (head_or s 0) _ h n (rw n (Follows-scan a.then_state s))
          ∙ rw n (ap (◌++◌ a.out) (one a.then_state))
    ]

scan-cons :
    (st : State) (c : ℕ) (s : Bytes)
    → scan st false (c ∷ s)
      ≡ (let a = act (entered st c) c (head_or s 0) in a.out ++ scan a.then_state a.wide s)
unfolding scan
scan-cons st c s = refl

-- Inside a parameter nothing is written; at its end the state is `normal`.
scan-entered :
    (st : State) (c : ℕ) (s : Bytes)
    → ((entered st c ≢ in_named_param) × (outside st ≡ entered st c))
      ⊎ ((st ≡ in_named_param) × (scan st false (c ∷ s) ≡ scan in_named_param false s))
unfolding scan act
scan-entered in_named_param c s = ground arith
scan-entered normal c s = inl ((λ e. cc), refl)
scan-entered in_single_quote c s = inl ((λ e. cc), refl)
scan-entered in_double_quote c s = inl ((λ e. cc), refl)
scan-entered in_line_comment c s = inl ((λ e. cc), refl)
scan-entered in_block_comment c s = inl ((λ e. cc), refl)

again-cons :
    (st : State) (c : ℕ) (s : Bytes)
    → ((st' : State) → scan (outside st') false (scan st' false s) ≡ scan st' false s)
    → ((st' : State) → scan (outside st') false (scan st' true s) ≡ scan st' true s)
    → scan (outside st) false (scan st false (c ∷ s)) ≡ scan st false (c ∷ s)
again-cons st c s one two = elim (scan-entered st c s) [
  | inl (h, o) ↦ rw (o, scan-cons st c s) (again-step (entered st c) c s h one two)
  | inr (e, o) ↦ rw (o, e) (one in_named_param)
]

scan-again : (st : State) (s : Bytes) → scan (outside st) false (scan st false s) ≡ scan st false s
scan-again st [] = unfold scan in refl
scan-again st (c ∷ []) =
    again-cons st c [] (λ st'. unfold scan in refl) (λ st'. unfold scan in refl)
scan-again st (c ∷ d ∷ s) =
    again-cons st c (d ∷ s) (λ st'. scan-again st' (d ∷ s)) (λ st'. rw scan_skip (scan-again st' s))

-- Anonymizing what was anonymized changes nothing.
pub anonymize_idempotent : (s t : Bytes) → anonymize s ≡ some t → anonymize t ≡ some t
anonymize_idempotent s t h =
    let e : t ≡ scan normal false s = ground (arith, anonymize-scan s) in
    rw e (anonymize-scan _ ∙ ap some (scan-again normal s))

-- The reserved capacity is enough: the result is no longer than the text.
pub length-anonymize : (s t : Bytes) → anonymize s ≡ some t → length t ≤ length s
length-anonymize s t h =
    let e : t ≡ scan normal false s = ground (arith, anonymize-scan s) in
    rw e (length-scan normal s)
