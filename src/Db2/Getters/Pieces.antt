-- ===== src/Db2/Getters/Pieces.antt =====
-- What the documentation of `SQLGetData` says of one call, and what a reader of the buffer may use.
use cpp_grpc_db.Prelude.{
  ℕ, true, zero, suc, ◌+◌, ◌-◌, ◌≤◌, ◌<◌, [], ◌∷◌, ◌++◌, length, take, drop, length-take, Bytes,
  ◌≡◌, refl, sym, ap, ◌∙◌, arith, Bool-cases, inl, inr, ltb,
}
use cpp_grpc_db.Db2.Getters.{success, success_with_info, Answer, counted, is_good}

-- A call with a buffer of `size` bytes when `rest` is left of the text: the indicator tells the
-- length of `rest`; the buffer has all of it, or as much as leaves room for a NUL.
pub record Piece (size : ℕ) (rest : Bytes) (a : Answer) : Type 0 where
  pub told : a.ind ≡ counted (length rest)
  pub sized : length a.buffer ≡ size
  pub fits : length rest < size → (a.rc ≡ success) × (take (length rest) a.buffer ≡ rest)
  pub cut :
      size ≤ length rest
      → (a.rc ≡ success_with_info) × (take size a.buffer ≡ take (size - 1) rest ++ 0 ∷ [])

-- The two first calls for a column with the text `text`.
pub record Delivers (answers : ℕ → ℕ → Answer) (text : Bytes) : Type 0 where
  pub first : Piece 256 text (answers 0 256)
  pub second : 256 ≤ length text → Piece 512 (drop 255 text) (answers 1 512)

take-take : (m n : ℕ) (xs : Bytes) → m ≤ n → take m (take n xs) ≡ take m xs
take-take zero n xs h = refl
take-take (suc m) zero xs h = ground arith
take-take (suc m) (suc n) [] h = refl
take-take (suc m) (suc n) (x ∷ xs) h = rw (take-take m n xs (omega arith)) refl

take-append : (k : ℕ) (xs ys : Bytes) → k ≤ length xs → take k (xs ++ ys) ≡ take k xs
take-append zero xs ys h = refl
take-append (suc k) [] ys h = ground arith
take-append (suc k) (x ∷ xs) ys h = ap (◌∷◌ x) (take-append k xs ys (omega arith))

take_nil : (n : ℕ) → take {A = ℕ} n [] ≡ []
take_nil zero = refl
take_nil (suc n) = refl

pub take-drop : (m n : ℕ) (xs : Bytes) → take m xs ++ take n (drop m xs) ≡ take (m + n) xs
take-drop zero n xs = ap (λ k. take k xs) (omega arith)
take-drop (suc m) n [] = take_nil n ∙ sym (take_nil (suc m + n))
take-drop (suc m) n (x ∷ xs) =
    let same : suc (m + n) ≡ suc m + n = omega arith in
    ap (◌∷◌ x) (take-drop m n xs) ∙ ap (λ k. take k (x ∷ xs)) same

-- What may be read of a buffer is the text.
pub take-buffer :
    (size : ℕ) (rest : Bytes) (a : Answer) (k : ℕ)
    → Piece size rest a
    → k < size
    → k ≤ length rest
    → take k a.buffer ≡ take k rest
take-buffer size rest a k p small inside = elim (Bool-cases (ltb (length rest) size)) [
  | inl whole ↦
      sym (take-take k (length rest) a.buffer inside) ∙ ap (take k) (p.fits (ground arith)).1
  | inr cut ↦
      let wide : size ≤ length rest = ground arith in
      let room : k ≤ length (take (size - 1) rest) =
        omega (arith, length-take (size - 1) rest, wide) in
      sym (take-take k size a.buffer (omega arith))
      ∙ ap (take k) (p.cut wide).1
      ∙ take-append k (take (size - 1) rest) (0 ∷ []) room
      ∙ take-take k (size - 1) rest (omega arith)
]

pub is_good-Piece : (size : ℕ) (rest : Bytes) (a : Answer) → Piece size rest a → is_good a.rc ≡ true
is_good-Piece size rest a p = elim (Bool-cases (ltb (length rest) size)) [
  | inl whole ↦ ap is_good (p.fits (ground arith)).0
  | inr cut ↦ ap is_good (p.cut (ground arith)).0
]
