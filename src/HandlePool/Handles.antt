-- ===== src/HandlePool/Handles.antt =====
-- `ResourceHandle`: the handles of a program, and what is done with them. A handle has a resource,
-- and a function that gives it back, or neither. What the function is called with stands in
-- `returned`, and what a `unique_ptr` deletes in `deleted`, the latest first.
pub mod Accounts
use cpp_grpc_db.Prelude.{
  ℕ, Bool, true, false, List, [], ◌∷◌, ◌++◌, Option, none, some, ◌==◌, if◌then◌else◌, get_elem?,
  set, remove_at,
}

pub record Handle : Type 0 where
  pub resource : Option ℕ
  pub return_func : Bool

-- The default constructor.
abbrev pub empty_handle : Handle
empty_handle = record { resource = none; return_func = false }

pub record Heap : Type 0 where
  pub handles : List Handle
  pub returned : List ℕ
  pub deleted : List ℕ

abbrev pub no_handles : Heap
no_handles = record { handles = []; returned = []; deleted = [] }

abbrev pub as_list : Option ℕ → List ℕ
as_list none = []
as_list (some r) = r ∷ []

-- `release`: the handle behind it, and what `return_func_` was called with.
abbrev pub released : Handle → Option ℕ → Bool → Handle × List ℕ
released h (some r) true = (empty_handle, r ∷ [])
released h x f = (h, [])

unfoldable pub release : Handle → Handle × List ℕ
release h = released h h.resource h.return_func

-- What a program does with handles, each named by its place: `acquire` hands one out, and the others
-- are the constructors, the move assignment, `release` and the destructor.
pub data Command : Type 0 where
  acquires : ℕ → Command
  makes_empty : Command
  moves_from : ℕ → Command
  assigns : ℕ → ℕ → Command
  releases destroys : ℕ → Command

abbrev pub add : Handle → Heap → Heap
add h w = record w { handles = w.handles ++ h ∷ [] }

-- The move constructor takes both fields of the other handle.
abbrev pub moved_from : Heap → ℕ → Option Handle → Heap
moved_from w i none = w
moved_from w i (some other) =
    add (record { resource = other.resource; return_func = other.return_func })
      (record w { handles = set w.handles i empty_handle })

-- The move assignment to another handle: what the release leaves is deleted.
abbrev pub reset : Heap → ℕ → ℕ → Handle → Handle → Heap
reset w i j other this =
    let (left, back) = release this in
    record {
      handles = set (set w.handles i empty_handle) j other;
      returned = back ++ w.returned;
      deleted = as_list left.resource ++ w.deleted;
    }

abbrev pub assigned : Heap → ℕ → ℕ → Option Handle → Option Handle → Heap
assigned w i j (some other) (some this) = if i == j then w else reset w i j other this
assigned w i j x y = w

abbrev pub released_at : Heap → ℕ → Option Handle → Heap
released_at w i none = w
released_at w i (some h) =
    let (left, back) = release h in
    record w { handles = set w.handles i left; returned = back ++ w.returned }

abbrev pub destroyed : Heap → ℕ → Option Handle → Heap
destroyed w i none = w
destroyed w i (some h) =
    let (left, back) = release h in
    record {
      handles = remove_at w.handles i;
      returned = back ++ w.returned;
      deleted = as_list left.resource ++ w.deleted;
    }

unfoldable pub perform : Heap → Command → Heap
unfolding release
perform w (acquires r) = add (record { resource = some r; return_func = true }) w
perform w makes_empty = add empty_handle w
perform w (moves_from i) = moved_from w i (get_elem? w.handles i)
perform w (assigns i j) = assigned w i j (get_elem? w.handles i) (get_elem? w.handles j)
perform w (releases i) = released_at w i (get_elem? w.handles i)
perform w (destroys i) = destroyed w i (get_elem? w.handles i)

unfoldable pub perform_all : Heap → List Command → Heap
unfolding perform
perform_all w [] = w
perform_all w (c ∷ cs) = perform_all (perform w c) cs
