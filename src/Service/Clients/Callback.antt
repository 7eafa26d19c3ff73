-- ===== src/Service/Clients/Callback.antt =====
-- src/greeter_callback_client.cpp: `GreeterClient::SayHello`. The caller waits for `done`, which the
-- callback sets under the mutex once it has moved the status out; it notifies with the mutex held,
-- so that nobody is between the test and the wait.
use mathlib.Core.Option.{some-injective}
use cpp_grpc_db.Prelude.{
  ℕ, zero, suc, ◌++◌, Bool, true, false, List, [], ◌∷◌, Option, none, some, if◌then◌else◌, Bytes,
  codes, ◌≡◌, refl, arith, get_elem?, sym, ap, subst, ◌∙◌,
}
use cpp_grpc_db.Greeting.{HelloReply}
use cpp_grpc_db.Interleaving.{System, step, run, run-append}
use cpp_grpc_db.Service.{Status, no_reply, is_ok, client_say_hello}

-- The locals that the callback captures, and the reply; `status` is `none` as it is constructed.
pub record Locals : Type 0 where
  pub status : Option (Status × HelloReply)
  pub done : Bool

pub data Pc : Type 0 where
  -- the caller: about to lock, in `cv.wait`, returned
  entering waiting : Pc
  returned : Bytes → Pc
  -- the callback: the RPC runs; the status is moved, about to lock; over
  running storing over : Pc

pub data Event : Type 0 where
  completes locks wakes : Event

-- A default `Status` is OK, and the reply is empty.
abbrev pub answer : Option (Status × HelloReply) → Bytes
answer none = no_reply.message
answer (some (status, reply)) = if is_ok status then reply.message else codes "RPC failed"

abbrev pub look : Locals → Locals × Pc
look p = (p, if p.done then returned (answer p.status) else waiting)

module _ (outcome : Status × HelloReply) where
  unfoldable pub move : Locals → Pc → Event → Locals × Pc
  move p running completes = (record p { status = some outcome }, storing)
  move p storing locks = (record p { done = true }, over)
  move p entering locks = look p
  move p waiting wakes = look p
  move p pc e = (p, pc)

  -- The caller and the callback.
  abbrev pub two : Locals → Pc → Pc → System Locals Pc
  two p a b = record { shared = p; threads = a ∷ b ∷ [] }

  abbrev pub called_back : List (ℕ × Event) → System Locals Pc
  called_back xs = run move (two (record { status = none; done = false }) entering running) xs

  -- What a program point may count on.
  abbrev Knows : Locals → Pc → Type 0
  Knows p (returned text) = text ≡ answer (some outcome)
  Knows p storing = p.status ≡ some outcome
  Knows p over = p.done ≡ true
  Knows p pc = Unit

  abbrev Calls : Pc → Type 0
  Calls entering = Unit
  Calls waiting = Unit
  Calls (returned text) = Unit
  Calls pc = ⊥

  record Sound (p : Locals) (a b : Pc) : Type 0 where
    when_done : p.done ≡ true → p.status ≡ some outcome
    first : Knows p a
    second : Knows p b
    caller : Calls a

  move-Sound :
      (p : Locals) (a b : Pc) (e : Event)
      → Sound p a b
      → Sound (move p a e).0 (move p a e).1 b × Sound (move p b e).0 a (move p b e).1
  unfolding move
  move-Sound p _ _ _ h = ground arith

  abbrev Stands : System Locals Pc → Type 0
  Stands s = (p : Locals) × (a : Pc) × (b : Pc) × (s ≡ two p a b) × Sound p a b

  run-Stands :
      (p : Locals) (a b : Pc) (xs : List (ℕ × Event))
      → Sound p a b
      → Stands (run move (two p a b) xs)
  unfolding run step
  run-Stands p a b [] h = (p, a, b, refl, h)
  run-Stands p a b ((zero, e) ∷ xs) h =
      run-Stands (move p a e).0 (move p a e).1 b xs (move-Sound p a b e h).0
  run-Stands p a b ((suc zero, e) ∷ xs) h =
      run-Stands (move p b e).0 a (move p b e).1 xs (move-Sound p a b e h).1
  run-Stands p a b ((suc (suc i), e) ∷ xs) h = run-Stands p a b xs h

  looks_up :
      (p : Locals) (a b : Pc)
      → Sound p a b
      → p.done ≡ true
      → run move (two p a b) ((0, locks) ∷ (0, wakes) ∷ [])
        ≡ two p (returned (answer (some outcome))) b
  unfolding run step move
  looks_up p entering b h over_now = rw (over_now, h.when_done over_now) refl
  looks_up p waiting b h over_now = rw (over_now, h.when_done over_now) refl
  looks_up p (returned text) b h over_now = rw h.first refl
  looks_up p running b h over_now = absurd h.caller
  looks_up p storing b h over_now = absurd h.caller
  looks_up p over b h over_now = absurd h.caller

  -- However the caller and the callback interleave, spurious wake-ups included: once the callback is
  -- over, the caller returns as soon as it goes on, with what the synchronous client returns for the
  -- same outcome of the RPC.
  pub callback_client-returns :
      (user : Bytes) (xs : List (ℕ × Event))
      → get_elem? (called_back xs).threads 1 ≡ some over
      → get_elem? (called_back (xs ++ (0, locks) ∷ (0, wakes) ∷ [])).threads 0
        ≡ some (returned (client_say_hello (λ request. outcome) user))
  unfolding client_say_hello
  callback_client-returns user xs at =
      let fresh : Locals = record { status = none; done = false } in
      let start : Sound fresh entering running = record {
        when_done = λ h. cc;
        first = tt;
        second = tt;
        caller = tt;
      } in
      let (p, a, b, same, h) = run-Stands fresh entering running xs start in
      let is_over : b ≡ over =
        some-injective b over (sym (ap (λ s. get_elem? s.threads 1) same) ∙ at) in
      let set_done : p.done ≡ true = subst (Knows p) is_over h.second in
      ap (λ s. get_elem? s.threads 0)
        (run-append move (two fresh entering running) xs _
          ∙ ap (λ s. run move s ((0, locks) ∷ (0, wakes) ∷ [])) same
          ∙ looks_up p a b h set_done)
