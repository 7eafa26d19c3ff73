-- ===== src/LoggingInterceptor/Silence.antt =====
-- For which methods nothing is logged.
use cpp_grpc_db.Prelude.{
  Bool, true, false, ◌&&◌, ◌||◌, [], ◌∷◌, ◌++◌, ◌==◌, map, some, none, Bytes, codes, to_lower, ◌≡◌,
  ◌≢◌, ◌↔◌, ◌⊎◌, inl, inr, refl, ap, arith, Bool-cases, ==→≡, ==_refl,
}
use cpp_grpc_db.LoggingInterceptor.{Batch, not_ok, starts_with, contains, is_skipped, intercept}

-- `part` stands somewhere in the text.
abbrev pub Occurs : Bytes → Bytes → Type 0
Occurs part text = (before : Bytes) × (after : Bytes) × (text ≡ before ++ (part ++ after))

starts_with-append : (part after : Bytes) → starts_with part (part ++ after) ≡ true
starts_with-append [] after = refl
starts_with-append (p ∷ ps) after = rw (==_refl p, starts_with-append ps after) refl

both : (a b : Bool) → (a && b) ≡ true → (a ≡ true) × (b ≡ true)
both true b h = (refl, h)
both false b h = ground arith

either : (a b : Bool) → (a || b) ≡ true → (a ≡ true) ⊎ (b ≡ true)
either true b h = inl refl
either false b h = inr h

or_true : (a : Bool) → (a || true) ≡ true
or_true true = refl
or_true false = refl

starts_with-rest :
    (part text : Bytes) → starts_with part text ≡ true → (after : Bytes) × (text ≡ part ++ after)
starts_with-rest [] text h = (text, refl)
starts_with-rest (p ∷ ps) [] h = ground arith
starts_with-rest (p ∷ ps) (c ∷ text) h =
    let (first, others) = both (p == c) (starts_with ps text) h in
    let (after, same) = starts_with-rest ps text others in
    let equal = ==→≡ p c first in (after, rw (equal, same) refl)

contains-starts_with :
    (part text : Bytes) → starts_with part text ≡ true → contains part text ≡ true
unfolding contains
contains-starts_with part [] h = h
contains-starts_with part (c ∷ text) h = rw h refl

contains-append : (part before after : Bytes) → contains part (before ++ (part ++ after)) ≡ true
unfolding contains
contains-append part [] after =
    contains-starts_with part (part ++ after) (starts_with-append part after)
contains-append part (b ∷ bs) after =
    rw (contains-append part bs after) (or_true (starts_with part (b ∷ (bs ++ (part ++ after)))))

starts_with-Occurs : (part text : Bytes) → starts_with part text ≡ true → Occurs part text
starts_with-Occurs part text h =
    let (after, same) = starts_with-rest part text h in ([], after, same)

contains-Occurs : (part text : Bytes) → contains part text ≡ true → Occurs part text
unfolding contains
contains-Occurs part [] h = starts_with-Occurs part [] h
contains-Occurs part (c ∷ text) h =
    elim (either (starts_with part (c ∷ text)) (contains part text) h) [
      | inl here ↦ starts_with-Occurs part (c ∷ text) here
      | inr there ↦
          let (before, after, same) = contains-Occurs part text there in
          (c ∷ before, after, ap (◌∷◌ c) same)
    ]

Occurs-contains : (part text : Bytes) → Occurs part text → contains part text ≡ true
Occurs-contains part text (before, after, same) = rw same (contains-append part before after)

-- The methods of the two services, whatever the case of the letters.
abbrev pub IsInternal : Bytes → Type 0
IsInternal name =
    Occurs (codes "grpc.health") (map to_lower name)
    ⊎ Occurs (codes "grpc.reflection") (map to_lower name)

skipped-IsInternal : (name : Bytes) → is_skipped name ≡ true → IsInternal name
unfolding is_skipped
skipped-IsInternal name h =
    elim (either (contains (codes "grpc.health") (map to_lower name))
      (contains (codes "grpc.reflection") (map to_lower name)) h) [
        | inl a ↦ inl (contains-Occurs (codes "grpc.health") (map to_lower name) a)
        | inr b ↦ inr (contains-Occurs (codes "grpc.reflection") (map to_lower name) b)
      ]

IsInternal-skipped : (name : Bytes) → IsInternal name → is_skipped name ≡ true
unfolding is_skipped
IsInternal-skipped name (inl a) =
    rw (Occurs-contains (codes "grpc.health") (map to_lower name) a) refl
IsInternal-skipped name (inr b) =
    rw (Occurs-contains (codes "grpc.reflection") (map to_lower name) b) (or_true _)

-- A batch that brings a request.
abbrev request_batch : Batch
request_batch = record {
  post_recv_message = true;
  recv_message = some not_ok;
  pre_send_message = false;
  send_message = none;
}

loud : (name : Bytes) → is_skipped name ≡ false → intercept name request_batch ≢ []
unfolding intercept
loud name h e = ground arith

-- The interceptor logs nothing, whatever the batch brings, for exactly the methods whose name has
-- `grpc.health` or `grpc.reflection` in it, in letters of any case.
pub intercept_silent : (name : Bytes) → ((b : Batch) → intercept name b ≡ []) ↔ IsInternal name
unfolding intercept
intercept_silent name = (
  λ silent. elim (Bool-cases (is_skipped name)) [
    | inl skipped ↦ skipped-IsInternal name skipped
    | inr logs ↦ absurd (loud name logs (silent request_batch))
  ],
  λ internal b. rw (IsInternal-skipped name internal) refl,
)
