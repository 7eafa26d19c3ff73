-- ===== src/Db2/Getters/Texts.antt =====
-- `getString` over an `SQLGetData` that does what its documentation says.
use cpp_grpc_db.Prelude.{
  ℕ, true, zero, suc, ◌+◌, ◌-◌, ◌≤◌, ◌<◌, [], ◌∷◌, ◌++◌, some, length, take, drop, length-take,
  length-drop, length-append, append_assoc, Bytes, ◌≡◌, refl, sym, ap, ◌∙◌, arith, Bool-cases, inl,
  inr, ltb, leb, le→leb, leb→le, lt→ltb, le→ltb_false, lt→leb_false, leb_false→lt, ==→≡, ==_false→≢,
  ◌==◌, if◌then◌else◌,
}
use cpp_grpc_db.Db2.Getters.Pieces.{Piece, Delivers, take-drop, take-buffer, is_good-Piece}
use cpp_grpc_db.Db2.Getters.{
  Return, success, success_with_info, no_data, failure, Answer, counted, Got, value, over_read,
  is_good, first_call, first_part, done, more, get_string,
}

-- What the getter makes of a text: it takes the indicator to count the NUL.
abbrev pub as_read : Bytes → Got Bytes
as_read text =
    if leb (length text) 767
    then value (some (take (length text - 1) text))
    else if length text == 768
    then value (some (take 766 text ++ 0 ∷ []))
    else over_read

guarded : (n : ℕ) (buf : Bytes) → (if ltb 0 n then take (n - 1) buf else []) ≡ take (n - 1) buf
guarded zero buf = refl
guarded (suc n) buf = ground arith

module _ (answers : ℕ → ℕ → Answer) (text : Bytes) (fuel : ℕ) where
  first_good :
      (a : Answer) (rc : Return)
      → is_good rc ≡ true
      → first_call fuel answers a rc ≡ first_part fuel answers a.buffer a.ind
  first_good a success h = refl
  first_good a success_with_info h = refl
  first_good a no_data h = ground arith
  first_good a failure h = ground arith

  get_string-first :
      Delivers answers text
      → get_string fuel answers
        ≡ first_part fuel answers (answers 0 256).buffer (counted (length text))
  unfolding get_string
  get_string-first d =
      first_good (answers 0 256) (answers 0 256).rc (is_good-Piece 256 text (answers 0 256) d.first)
      ∙ ap (first_part fuel answers (answers 0 256).buffer) d.first.told

  get_string_short :
      Delivers answers text
      → length text ≤ 256
      → get_string fuel answers ≡ value (some (take (length text - 1) text))
  get_string_short d short =
      get_string-first d
      ∙ rw (le→leb (length text) 256 short) (
          ap (λ t. value (some t))
            (guarded (length text) (answers 0 256).buffer
              ∙ take-buffer 256 text (answers 0 256) (length text - 1) d.first (omega arith)
                  (omega arith)))

  get_string_long :
      Delivers answers text
      → 257 ≤ length text
      → get_string fuel answers ≡ more fuel answers 1 (take 255 text) (length text - 1)
  get_string_long d long =
      get_string-first d
      ∙ rw
          (
            lt→leb_false (length text) 256 long,
            take-buffer 256 text (answers 0 256) 255 d.first (omega arith) (omega arith),
          )
          refl

module _ (answers : ℕ → ℕ → Answer) (fuel i : ℕ) (result : Bytes) (total_expected : ℕ) where
  more_done :
      total_expected ≤ length result
      → more (suc fuel) answers i result total_expected ≡ value (some result)
  unfolding more
  more_done full = rw (le→ltb_false (length result) total_expected full) refl

  -- A round with a good call that tells `n` bytes, by which the text seems to end.
  more_last :
      (n : ℕ)
      → length result < total_expected
      → is_good (answers i 512).rc ≡ true
      → (answers i 512).ind ≡ counted n
      → total_expected + 1 ≤ length result + n
      → more (suc fuel) answers i result total_expected ≡ (
          if ltb (length (answers i 512).buffer) (n - 1)
          then over_read
          else done (answers i 512).rc (result ++ take (n - 1) (answers i 512).buffer) (
              more fuel answers
                (i + 1)
                (result ++ take (n - 1) (answers i 512).buffer)
                total_expected))
  unfolding more
  more_last n room good told last =
      rw
        (
          lt→ltb (length result) total_expected room,
          good,
          told,
          lt→ltb 0 n (omega arith),
          le→leb (total_expected + 1) (length result + n) last,
        )
        refl

done_lem :
    (rc : Return) (r : Bytes) (rest : Got Bytes)
    → rest ≡ value (some r)
    → done rc r rest ≡ value (some r)
done_lem success r rest h = refl
done_lem success_with_info r rest h = h
done_lem no_data r rest h = h
done_lem failure r rest h = h

module _ (answers : ℕ → ℕ → Answer) (text : Bytes) (d : Delivers answers text)
    (long : 257 ≤ length text) where
  second : Piece 512 (drop 255 text) (answers 1 512)
  second = d.second (omega arith)

  -- What is appended is the rest of the text but its last character, or, for 768 bytes, the NUL.
  Joined : Bytes → Type 0
  Joined r = take 255 text ++ take (length (drop 255 text) - 1) (answers 1 512).buffer ≡ r

  short-Joined : length text ≤ 767 → Joined (take (length text - 1) text)
  unfolding Joined
  short-Joined short =
      let n : length (drop 255 text) ≡ length text - 255 = length-drop 255 text in
      let same : 255 + (length (drop 255 text) - 1) ≡ length text - 1 = omega (arith, n) in
      ap (◌++◌ (take 255 text)) (
        take-buffer 512 (drop 255 text) (answers 1 512) (length (drop 255 text) - 1) second
          (omega (arith, n)) (omega (arith, n)))
      ∙ take-drop 255 (length (drop 255 text) - 1) text
      ∙ ap (λ k. take k text) same

  full-Joined : length text ≡ 768 → Joined (take 766 text ++ 0 ∷ [])
  unfolding Joined
  full-Joined full =
      let n : length (drop 255 text) ≡ length text - 255 = length-drop 255 text in
      let same : length (drop 255 text) - 1 ≡ 512 = omega (arith, n) in
      ap (λ k. take 255 text ++ take k (answers 1 512).buffer) same
      ∙ ap (◌++◌ (take 255 text)) (second.cut (omega (arith, n))).1
      ∙ sym (append_assoc (take 255 text) (take 511 (drop 255 text)) (0 ∷ []))
      ∙ ap (λ t. t ++ 0 ∷ []) (take-drop 255 511 text)

  ends :
      (fuel : ℕ) (r : Bytes)
      → length text ≤ 768
      → Joined r
      → length text - 1 ≤ length r
      → more (suc (suc fuel)) answers 1 (take 255 text) (length text - 1) ≡ value (some r)
  unfolding Joined
  ends fuel r bounded j full =
      let n : length (drop 255 text) ≡ length text - 255 = length-drop 255 text in
      more_last answers (suc fuel) 1 (take 255 text) (length text - 1) (length (drop 255 text))
        (omega (arith, length-take 255 text))
        (is_good-Piece 512 (drop 255 text) (answers 1 512) second) second.told
        (omega (arith, n, length-take 255 text))
      ∙ rw
          (
            le→ltb_false (length (answers 1 512).buffer) (length (drop 255 text) - 1)
                (omega (arith, n, second.sized)),
            j,
          )
          (done_lem (answers 1 512).rc r _ (more_done answers fuel 2 r (length text - 1) full))

  overflows :
      (fuel : ℕ)
      → 769 ≤ length text
      → more (suc (suc fuel)) answers 1 (take 255 text) (length text - 1) ≡ over_read
  overflows fuel big =
      let n : length (drop 255 text) ≡ length text - 255 = length-drop 255 text in
      more_last answers (suc fuel) 1 (take 255 text) (length text - 1) (length (drop 255 text))
        (omega (arith, length-take 255 text))
        (is_good-Piece 512 (drop 255 text) (answers 1 512) second) second.told
        (omega (arith, n, length-take 255 text))
      ∙ rw
          (lt→ltb (length (answers 1 512).buffer) (length (drop 255 text) - 1)
            (omega (arith, n, second.sized)))
          refl

  get_string_large : (fuel : ℕ) → get_string (suc (suc fuel)) answers ≡ as_read text
  get_string_large fuel = elim (Bool-cases (leb (length text) 767)) [
    | inl short ↦ rw short (
        get_string_long answers text (suc (suc fuel)) d long
        ∙ ends fuel _ (omega (arith, leb→le _ _ short)) (short-Joined (leb→le _ _ short))
            (omega (arith, length-take (length text - 1) text)))
    | inr not_short ↦ elim (Bool-cases (length text == 768)) [
      | inl full ↦
          rw (not_short, full)
            (get_string_long answers text (suc (suc fuel)) d long
              ∙ ends fuel _ (omega (arith, ==→≡ _ _ full)) (full-Joined (==→≡ _ _ full)) (
                  omega (
                    arith,
                    ==→≡ _ _ full,
                    length-append (take 766 text) (0 ∷ []),
                    length-take 766 text,
                  )))
      | inr not_full ↦
          rw (not_short, not_full)
            (get_string_long answers text (suc (suc fuel)) d long
              ∙ overflows fuel (omega (arith, leb_false→lt _ _ not_short, ==_false→≢ _ _ not_full)))
    ]
  ]

-- `getString` over a driver that does what its documentation says: a text of up to 767 bytes is
-- returned without its last character, one of 768 bytes without the last two and with a NUL behind
-- them, and for a longer one the loop reads behind the end of its chunk. Two rounds of the loop are
-- enough.
pub get_string_lem :
    (answers : ℕ → ℕ → Answer) (text : Bytes) (fuel : ℕ)
    → Delivers answers text
    → get_string (suc (suc fuel)) answers ≡ as_read text
get_string_lem answers text fuel d = elim (Bool-cases (leb (length text) 256)) [
  | inl short ↦
      let small = le→leb (length text) 767 (omega (arith, leb→le _ _ short)) in
      rw small (get_string_short answers text (suc (suc fuel)) d (leb→le _ _ short))
  | inr long ↦ get_string_large answers text d (leb_false→lt _ _ long) fuel
]
