-- ===== src/HandlePool/Handles/Accounts.antt =====
-- Where the resources are that the pool has lent: in a handle or given back, and never deleted.
use cpp_grpc_db.Prelude.{
  get_elem?-set_other, ℕ, zero, suc, ◌+◌, Bool, true, false, List, [], ◌∷◌, ◌++◌, Option, none,
  some, ◌==◌, get_elem?, set, remove_at, total, total-set, total-remove, total-append, All, All-set,
  All-get, All-append, count, one_if, ◌≡◌, refl, ap, arith, Bool-cases, inl, inr,
}
use cpp_grpc_db.HandlePool.Handles.{
  Handle, empty_handle, Heap, no_handles, as_list, release, Command, acquires, makes_empty,
  moves_from, assigns, releases, destroys, add, moved_from, reset, assigned, released_at, destroyed,
  perform, perform_all,
}

-- How often `r` is in a handle.
abbrev pub holds : ℕ → Handle → ℕ
holds r h = count r (as_list h.resource)

abbrev pub lends : ℕ → Command → ℕ
lends r (acquires x) = one_if r x
lends r c = 0

-- What has a resource can return it.
abbrev pub CanReturn : Option ℕ → Bool → Type 0
CanReturn none f = Unit
CanReturn (some r) f = f ≡ true

abbrev pub IsBound : Handle → Type 0
IsBound h = CanReturn h.resource h.return_func

-- `n r` times `r` was lent: it is in a handle or back in the pool, and nothing is deleted.
pub record Kept (n : ℕ → ℕ) (w : Heap) : Type 0 where
  pub bound : All IsBound w.handles
  pub found : (r : ℕ) → total (holds r) w.handles + count r w.returned ≡ n r
  pub undeleted : w.deleted ≡ []

All-remove : (xs : List Handle) (i : ℕ) → All IsBound xs → All IsBound (remove_at xs i)
All-remove [] i h = h
All-remove (x ∷ xs) zero h = h.1
All-remove (x ∷ xs) (suc i) h = (h.0, All-remove xs i h.1)

-- What a bound handle held is returned when it is released, and no resource is left in it.
record Emptied (x : Option ℕ) (to : Handle × List ℕ) : Type 0 where
  left : to.0.resource ≡ none
  gone : to.1 ≡ as_list x
  stays : IsBound to.0

release-at :
    (x : Option ℕ) (f : Bool)
    → CanReturn x f
    → Emptied x (release (record { resource = x; return_func = f }))
unfolding release
release-at none f b = record { left = refl; gone = refl; stays = tt }
release-at (some r) true b = record { left = refl; gone = refl; stays = tt }
release-at (some r) false b = ground arith

release-Emptied : (h : Handle) → IsBound h → Emptied h.resource (release h)
release-Emptied h b = release-at h.resource h.return_func b

add-Kept :
    (n : ℕ → ℕ) (w : Heap) (h : Handle)
    → IsBound h
    → Kept n w
    → Kept (λ r. n r + holds r h) (add h w)
unfolding total
add-Kept n w h b k = record {
  bound = All-append IsBound w.handles (h ∷ []) k.bound (b, tt);
  found = λ r. omega (arith, total-append (holds r) w.handles (h ∷ []), k.found r);
  undeleted = k.undeleted;
}

count-as_list :
    (r : ℕ) (x : Option ℕ) (xs : List ℕ)
    → count r (as_list x ++ xs) ≡ count r (as_list x) + count r xs
count-as_list r none xs = omega arith
count-as_list r (some y) xs = omega arith

module _ (n : ℕ → ℕ) (w : Heap) (k : Kept n w) where
  moved_from-Kept :
      (i : ℕ) (x : Option Handle) → get_elem? w.handles i ≡ x → Kept n (moved_from w i x)
  unfolding total
  moved_from-Kept i none at = k
  moved_from-Kept i (some other) at =
      let emptied = All-set IsBound w.handles i empty_handle k.bound tt in
      record {
        bound =
            All-append IsBound (set w.handles i empty_handle) (other ∷ []) emptied
              (All-get IsBound w.handles i k.bound at, tt);
        found = λ r. omega (
          arith,
          total-append (holds r) (set w.handles i empty_handle) (other ∷ []),
          total-set (holds r) w.handles i empty_handle {x = other} at,
          k.found r,
        );
        undeleted = k.undeleted;
      }

  reset-Kept :
      (i j : ℕ) (other this : Handle)
      → (i == j) ≡ false
      → get_elem? w.handles i ≡ some other
      → get_elem? w.handles j ≡ some this
      → Kept n (reset w i j other this)
  reset-Kept i j other this apart at there =
      let emptied = All-set IsBound w.handles i empty_handle k.bound tt in
      let e = release-Emptied this (All-get IsBound w.handles j k.bound there) in
      record {
        bound =
            All-set IsBound (set w.handles i empty_handle) j other emptied
              (All-get IsBound w.handles i k.bound at);
        found = λ r. rw e.gone (
            omega (
              arith,
              count-as_list r this.resource w.returned,
              total-set (holds r) w.handles i empty_handle {x = other} at,
              total-set (holds r) (set w.handles i empty_handle) j other {x = this}
                  (get_elem?-set_other w.handles i j empty_handle {x = this} (ground arith) there),
              k.found r,
            ));
        undeleted = rw e.left k.undeleted;
      }

  assigned-Kept :
      (i j : ℕ) (x y : Option Handle)
      → get_elem? w.handles i ≡ x
      → get_elem? w.handles j ≡ y
      → Kept n (assigned w i j x y)
  assigned-Kept i j none y at there = k
  assigned-Kept i j (some other) none at there = k
  assigned-Kept i j (some other) (some this) at there = elim (Bool-cases (i == j)) [
    | inl same ↦ rw same k
    | inr apart ↦ rw apart (reset-Kept i j other this apart at there)
  ]

  released_at-Kept :
      (i : ℕ) (x : Option Handle) → get_elem? w.handles i ≡ x → Kept n (released_at w i x)
  released_at-Kept i none at = k
  released_at-Kept i (some h) at =
      let e = release-Emptied h (All-get IsBound w.handles i k.bound at) in
      record {
        bound = All-set IsBound w.handles i (release h).0 k.bound e.stays;
        found = λ r. rw e.gone (
            omega (
              arith,
              count-as_list r h.resource w.returned,
              total-set (holds r) w.handles i (release h).0 {x = h} at,
              ap (λ x. count r (as_list x)) e.left,
              k.found r,
            ));
        undeleted = k.undeleted;
      }

  destroyed-Kept :
      (i : ℕ) (x : Option Handle) → get_elem? w.handles i ≡ x → Kept n (destroyed w i x)
  destroyed-Kept i none at = k
  destroyed-Kept i (some h) at =
      let e = release-Emptied h (All-get IsBound w.handles i k.bound at) in
      record {
        bound = All-remove w.handles i k.bound;
        found = λ r. rw e.gone (
            omega (
              arith,
              count-as_list r h.resource w.returned,
              total-remove (holds r) w.handles i {x = h} at,
              k.found r,
            ));
        undeleted = rw e.left k.undeleted;
      }

Kept-≡ : (n m : ℕ → ℕ) (w : Heap) → ((r : ℕ) → n r ≡ m r) → Kept n w → Kept m w
Kept-≡ n m w same k = record {
  bound = k.bound;
  found = λ r. omega (arith, k.found r, same r);
  undeleted = k.undeleted;
}

perform-Kept :
    (n : ℕ → ℕ) (w : Heap) (c : Command) → Kept n w → Kept (λ r. n r + lends r c) (perform w c)
unfolding perform
perform-Kept n w (acquires x) k =
    Kept-≡ _ _ _ (λ r. omega arith)
      (add-Kept n w (record { resource = some x; return_func = true }) refl k)
perform-Kept n w makes_empty k = Kept-≡ _ _ _ (λ r. omega arith) (add-Kept n w empty_handle tt k)
perform-Kept n w (moves_from i) k = Kept-≡ n _ _ (λ r. omega arith) (moved_from-Kept n w k i _ refl)
perform-Kept n w (assigns i j) k =
    Kept-≡ n _ _ (λ r. omega arith) (assigned-Kept n w k i j _ _ refl refl)
perform-Kept n w (releases i) k = Kept-≡ n _ _ (λ r. omega arith) (released_at-Kept n w k i _ refl)
perform-Kept n w (destroys i) k = Kept-≡ n _ _ (λ r. omega arith) (destroyed-Kept n w k i _ refl)

from-Kept :
    (cs : List Command) (n : ℕ → ℕ) (w : Heap)
    → Kept n w
    → Kept (λ r. n r + total (lends r) cs) (perform_all w cs)
unfolding perform_all total
from-Kept [] n w k = Kept-≡ n _ w (λ r. omega arith) k
from-Kept (c ∷ cs) n w k =
    Kept-≡ _ _ _ (λ r. omega arith)
      (from-Kept cs (λ r. n r + lends r c) (perform w c) (perform-Kept n w c k))

-- Whatever a program does with its handles, moves, assignments to handles that are in use and to
-- themselves, releases and destructions: as often as it was lent a resource, the resource is in a
-- handle or has been given back, never both and never twice, and none is deleted. A handle that has
-- a resource can give it back.
pub perform_all-Kept :
    (cs : List Command) → Kept (λ r. total (lends r) cs) (perform_all no_handles cs)
unfolding total
perform_all-Kept cs =
    Kept-≡ _ _ _ (λ r. omega arith)
      (from-Kept cs (λ r. 0) no_handles
        (record { bound = tt; found = λ r. omega arith; undeleted = refl }))
