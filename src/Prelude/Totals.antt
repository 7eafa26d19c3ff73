-- ===== src/Prelude/Totals.antt =====
-- The sum of a weight over a list.
use Prim.Native.Nat.{ℕ, zero, suc, ◌+◌, ◌*◌, ◌≤◌, ◌<◌}
use mathlib.Core.Path.{◌≡◌, refl}
use mathlib.Core.List.{List, [], ◌∷◌, ◌++◌, map}
use mathlib.Core.Option.{some}
use mathlib.Core.Logic.{◌⊎◌, inl, inr}
use native.Mathlib.Omega.{arith}
use cpp_grpc_db.Prelude.Lists.{get_elem?, set, replicate, remove_at}

pub pos-or-zero : (n : ℕ) → (0 < n) ⊎ (n ≡ 0)
pos-or-zero zero = inr refl
pos-or-zero (suc n) = inl (omega arith)

module _ {ℓ} {A : Type ℓ} where
  -- The sum of a weight over a list, and what one write does to it.
  unfoldable pub total : (A → ℕ) → List A → ℕ
  total w [] = 0
  total w (x ∷ xs) = w x + total w xs

  pub total-set :
      (w : A → ℕ) (xs : List A) (i : ℕ) (v : A) {x : A}
      → get_elem? xs i ≡ some x
      → total w (set xs i v) + w x ≡ total w xs + w v
  unfolding total
  total-set w [] i v h = ground arith
  total-set w (y ∷ ys) zero v h = ground arith
  total-set w (y ∷ ys) (suc i) v {x} h = omega (arith, total-set w ys i v {x = x} h)

  pub le-total :
      (w : A → ℕ) (xs : List A) (i : ℕ) {x : A} → get_elem? xs i ≡ some x → w x ≤ total w xs
  unfolding total
  le-total w [] i h = ground arith
  le-total w (y ∷ ys) zero h = ground arith
  le-total w (y ∷ ys) (suc i) {x} h = omega (arith, le-total w ys i {x = x} h)

  pub total-cons : (w : A → ℕ) (x : A) (xs : List A) → total w (x ∷ xs) ≡ w x + total w xs
  unfolding total
  total-cons w x xs = refl

  pub total-append : (w : A → ℕ) (xs ys : List A) → total w (xs ++ ys) ≡ total w xs + total w ys
  unfolding total
  total-append w [] ys = omega arith
  total-append w (x ∷ xs) ys = omega (arith, total-append w xs ys)

  pub total-le : (v w : A → ℕ) → ((a : A) → v a ≤ w a) → (xs : List A) → total v xs ≤ total w xs
  unfolding total
  total-le v w h [] = omega arith
  total-le v w h (x ∷ xs) = omega (arith, h x, total-le v w h xs)

  -- What weighs something has a part that does.
  pub total-part :
      (w : A → ℕ) (xs : List A)
      → 0 < total w xs
      → (i : ℕ) × (x : A) × (get_elem? xs i ≡ some x) × (0 < w x)
  unfolding total
  total-part w [] h = ground arith
  total-part w (x ∷ xs) h = elim (pos-or-zero (w x)) [
    | inl some_weight ↦ (0, x, refl, some_weight)
    | inr none_here ↦ let (i, y, at, heavy) = total-part w xs (omega arith) in (suc i, y, at, heavy)
  ]

  pub total-add : (v w : A → ℕ) (xs : List A) → total (λ a. v a + w a) xs ≡ total v xs + total w xs
  unfolding total
  total-add v w [] = omega arith
  total-add v w (x ∷ xs) = omega (arith, total-add v w xs)

  pub total-mul : (w : A → ℕ) (n k : ℕ) (a : A) → w a ≡ k → total w (replicate n a) ≡ k * n
  unfolding total
  total-mul w zero k a h = omega arith
  total-mul w (suc n) k a h = omega (arith, total-mul w n k a h)

  pub total-replicate : (w : A → ℕ) (n : ℕ) (a : A) → w a ≡ 0 → total w (replicate n a) ≡ 0
  unfolding total
  total-replicate w zero a h = refl
  total-replicate w (suc n) a h = omega (arith, total-replicate w n a h)

  pub total-remove :
      (w : A → ℕ) (xs : List A) (i : ℕ) {x : A}
      → get_elem? xs i ≡ some x
      → total w (remove_at xs i) + w x ≡ total w xs
  unfolding total
  total-remove w [] i h = ground arith
  total-remove w (y ∷ ys) zero h = ground arith
  total-remove w (y ∷ ys) (suc i) {x} h = omega (arith, total-remove w ys i {x = x} h)

module _ {ℓ} {A B : Type ℓ} where
  pub total-map :
      (w : B → ℕ) (f : A → B) (xs : List A) → total w (map f xs) ≡ total (λ a. w (f a)) xs
  unfolding total
  total-map w f [] = refl
  total-map w f (x ∷ xs) = omega (arith, total-map w f xs)
