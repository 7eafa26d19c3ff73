-- ===== src/CqServer/Heap.antt =====
-- The heap: which addresses hold a live object.
use cpp_grpc_db.Prelude.{
  ℕ, zero, suc, ◌≤◌, ◌<◌, List, [], ◌∷◌, ◌++◌, Option, none, some, get_elem?, length, set, ◌≡◌,
  refl, arith, if◌then◌else◌, ◌==◌,
}
use cpp_grpc_db.CallData.{CallObject}

-- 1 at the address of a live object.
abbrev pub live_at : ℕ → List (Option CallObject) → ℕ
live_at k [] = 0
live_at zero (none ∷ heap) = 0
live_at zero (some c ∷ heap) = 1
live_at (suc k) (x ∷ heap) = live_at k heap

abbrev pub alive : Option CallObject → ℕ
alive none = 0
alive (some c) = 1

pub live_at-set :
    (heap : List (Option CallObject)) (i : ℕ) (x y : Option CallObject) (k : ℕ)
    → get_elem? heap i ≡ some y
    → live_at k (set heap i x) ≡ (if k == i then alive x else live_at k heap)
live_at-set [] i x y k h = ground arith
live_at-set (none ∷ heap) zero none y zero h = ground arith
live_at-set (none ∷ heap) zero (some c) y zero h = ground arith
live_at-set (some d ∷ heap) zero none y zero h = ground arith
live_at-set (some d ∷ heap) zero (some c) y zero h = ground arith
live_at-set (z ∷ heap) zero x y (suc k) h = ground arith
live_at-set (none ∷ heap) (suc i) x y zero h = ground arith
live_at-set (some d ∷ heap) (suc i) x y zero h = ground arith
live_at-set (z ∷ heap) (suc i) x y (suc k) h = ground (arith, live_at-set heap i x y k h)

pub live_at-append :
    (heap : List (Option CallObject)) (c : CallObject) (k : ℕ)
    → live_at k (heap ++ some c ∷ []) ≡ (if k == length heap then 1 else live_at k heap)
live_at-append [] c zero = ground arith
live_at-append [] c (suc k) = ground arith
live_at-append (none ∷ heap) c zero = ground arith
live_at-append (some d ∷ heap) c zero = ground arith
live_at-append (z ∷ heap) c (suc k) = ground (arith, live_at-append heap c k)

pub live_at-length : (heap : List (Option CallObject)) → live_at (length heap) heap ≡ 0
live_at-length [] = refl
live_at-length (none ∷ heap) = live_at-length heap
live_at-length (some c ∷ heap) = live_at-length heap

pub get_elem?-lt :
    (heap : List (Option CallObject)) (i : ℕ) (y : Option CallObject)
    → get_elem? heap i ≡ some y
    → i < length heap
get_elem?-lt [] i y h = ground arith
get_elem?-lt (z ∷ heap) zero y h = ground arith
get_elem?-lt (z ∷ heap) (suc i) y h = ground (arith, get_elem?-lt heap i y h)

pub live_at-one :
    (heap : List (Option CallObject)) (k : ℕ) (o : CallObject)
    → get_elem? heap k ≡ some (some o)
    → live_at k heap ≡ 1
live_at-one [] k o h = ground arith
live_at-one (none ∷ heap) zero o h = ground arith
live_at-one (some c ∷ heap) zero o h = refl
live_at-one (x ∷ heap) (suc k) o h = live_at-one heap k o h

pub live_at-get :
    (heap : List (Option CallObject)) (k : ℕ)
    → 1 ≤ live_at k heap
    → (c : CallObject) × (get_elem? heap k ≡ some (some c))
live_at-get [] k h = absurd (omega arith)
live_at-get (none ∷ heap) zero h = absurd (omega arith)
live_at-get (some c ∷ heap) zero h = (c, refl)
live_at-get (x ∷ heap) (suc k) h = live_at-get heap k h
