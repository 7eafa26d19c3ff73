-- ===== src/Startup/Watcher/Standing.antt =====
-- src/greeter_callback_server_no_db2.cpp: what holds of the three threads in every schedule.
use cpp_grpc_db.Prelude.{ℕ, zero, suc, true, false, List, [], ◌∷◌, ◌≡◌, refl, sym, subst, arith}
use cpp_grpc_db.Interleaving.{System, step, run}
use cpp_grpc_db.Startup.Watcher.{
  Server, Pc, masking, building, watching, waiting, joining, returned, unborn, awaiting, stopping,
  draining, leaving, ended, outside, Event, act, move, launched, run_server,
}

abbrev pub Mains : Server → Pc → Type 0
Mains p masking = Unit
Mains p building = p.masked ≡ true
Mains p watching = p.masked ≡ true
Mains p waiting = (p.masked ≡ true) × (p.watched ≡ true)
Mains p joining = (p.masked ≡ true) × (p.watched ≡ true) × (p.down ≡ true)
Mains p returned =
    (p.masked ≡ true) × (p.watched ≡ true) × (p.down ≡ true) × (p.watcher_ended ≡ true)
Mains p pc = ⊥

abbrev pub Watches : Server → Pc → Type 0
Watches p unborn = (p.shut ≡ false) × (p.down ≡ false) × (p.watcher_ended ≡ false)
Watches p awaiting = (p.shut ≡ false) × (p.down ≡ false) × (p.watcher_ended ≡ false)
Watches p stopping = (p.shut ≡ false) × (p.down ≡ false) × (p.watcher_ended ≡ false)
Watches p draining = (p.shut ≡ true) × (p.down ≡ false) × (p.watcher_ended ≡ false)
Watches p leaving = (p.shut ≡ true) × (p.down ≡ true) × (p.watcher_ended ≡ false) × (p.calls ≡ 0)
Watches p ended = (p.shut ≡ true) × (p.down ≡ true) × (p.watcher_ended ≡ true) × (p.calls ≡ 0)
Watches p pc = ⊥

abbrev pub three : Server → Pc → Pc → System Server Pc
three p a b = record { shared = p; threads = a ∷ b ∷ outside ∷ [] }

pub main-Mains :
    (p : Server) (a b : Pc) (e : Event)
    → Mains p a
    → Watches p b
    → Mains (move p a e).0 (move p a e).1
unfolding move act
main-Mains p _ b _ h w = ground arith

pub main-Watches :
    (p : Server) (a b : Pc) (e : Event) → Mains p a → Watches p b → Watches (move p a e).0 b
unfolding move act
main-Watches p _ _ _ h w = ground arith

pub watcher-Mains :
    (p : Server) (a b : Pc) (e : Event) → Mains p a → Watches p b → Mains (move p b e).0 a
unfolding move act
watcher-Mains p _ _ _ h w = ground arith

pub watcher-Watches :
    (p : Server) (b : Pc) (e : Event) → Watches p b → Watches (move p b e).0 (move p b e).1
unfolding move act
watcher-Watches p _ _ w = ground arith

pub outside-Mains : (p : Server) (a : Pc) (e : Event) → Mains p a → Mains (move p outside e).0 a
unfolding move act
outside-Mains p _ _ h = ground arith

pub outside-Watches :
    (p : Server) (b : Pc) (e : Event) → Watches p b → Watches (move p outside e).0 b
unfolding move act
outside-Watches p _ _ w = ground arith

pub outside_stays : (p : Server) (e : Event) → (move p outside e).1 ≡ outside
unfolding move act
outside_stays p _ = ground arith

pub outside_run :
    (Q : System Server Pc → Type 0) (p : Server) (a b : Pc) (e : Event) (xs : List (ℕ × Event))
    → Q (run move (three (move p outside e).0 a b) xs)
    → Q (run move (three p a b) ((2, e) ∷ xs))
unfolding run step
outside_run Q p a b e xs h =
    subst
      (λ c. Q (run move (record { shared = (move p outside e).0; threads = a ∷ b ∷ c ∷ [] }) xs))
      (sym (outside_stays p e)) h

-- In every schedule the threads are these three.
pub record Sound (p : Server) (a b : Pc) : Type 0 where
  pub mains : Mains p a
  pub watches : Watches p b

abbrev pub Stands : System Server Pc → Type 0
Stands s = (p : Server) × (a : Pc) × (b : Pc) × (s ≡ three p a b) × Sound p a b

pub run-Stands :
    (p : Server) (a b : Pc) (xs : List (ℕ × Event))
    → Sound p a b
    → Stands (run move (three p a b) xs)
unfolding run step
run-Stands p a b [] h = (p, a, b, refl, h)
run-Stands p a b ((zero, e) ∷ xs) h = run-Stands (move p a e).0 (move p a e).1 b xs (record {
  mains = main-Mains p a b e h.mains h.watches;
  watches = main-Watches p a b e h.mains h.watches;
})
run-Stands p a b ((suc zero, e) ∷ xs) h = run-Stands (move p b e).0 a (move p b e).1 xs (record {
  mains = watcher-Mains p a b e h.mains h.watches;
  watches = watcher-Watches p b e h.watches;
})
run-Stands p a b ((suc (suc zero), e) ∷ xs) h = outside_run Stands p a b e xs (
    run-Stands (move p outside e).0 a b xs
      (record { mains = outside-Mains p a e h.mains; watches = outside-Watches p b e h.watches }))
run-Stands p a b ((suc (suc (suc i)), e) ∷ xs) h = run-Stands p a b xs h

pub run_server-Stands : (xs : List (ℕ × Event)) → Stands (run_server xs)
run_server-Stands xs =
    run-Stands launched masking unborn xs (record { mains = tt; watches = (refl, refl, refl) })
