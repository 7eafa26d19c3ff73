-- ===== src/Startup/Watcher/Ending.antt =====
-- src/greeter_callback_server_no_db2.cpp: a signal, whenever it comes, and what is left behind it.
use mathlib.Core.Option.{some-injective}
use cpp_grpc_db.Prelude.{
  ℕ, zero, suc, true, false, List, [], ◌∷◌, ◌++◌, some, get_elem?, ◌≡◌, refl, sym, ap, subst, ◌∙◌,
  arith,
}
use cpp_grpc_db.Interleaving.{System, step, run, run-append}
use cpp_grpc_db.Startup.Watcher.{
  Server, Pc, returned, ended, outside, Event, steps, signals, call_ends, move, run_server,
}
use cpp_grpc_db.Startup.Watcher.Standing.{Mains, Watches, three, outside_run, run_server-Stands}
use cpp_grpc_db.Startup.Watcher.Progress.{
  Ready, main_goes, signal_comes, watcher_goes, a_call_ends, last_main, last_watcher,
}

-- `RunServer` has returned, and so has the watcher; the server is shut down and serves no call.
pub record Over (s : System Server Pc) : Type 0 where
  pub main_returned : get_elem? s.threads 0 ≡ some returned
  pub watcher_returned : get_elem? s.threads 1 ≡ some ended
  pub is_down : s.shared.down ≡ true
  pub no_calls : s.shared.calls ≡ 0

all-Over : (p : Server) (a b : Pc) → Ready 5 5 0 true p a b → Over (three p a b)
all-Over p a b h = record {
  main_returned = ap some (last_main p a h.mains h.main_far);
  watcher_returned = ap some (last_watcher p b h.watches h.watcher_far).0;
  is_down = (last_watcher p b h.watches h.watcher_far).1;
  no_calls = omega (arith, h.few);
}

-- The calls end, and then `signal_waiter` and `RunServer` go on to their ends.
abbrev last_calls : ℕ → List (ℕ × Event)
last_calls zero = (1, steps) ∷ (1, steps) ∷ (0, steps) ∷ (0, steps) ∷ []
last_calls (suc c) = (2, call_ends) ∷ last_calls c

-- `RunServer` goes on to `Wait`, a signal comes, the watcher calls `Shutdown`, and `c` calls end.
abbrev pub farewell : ℕ → List (ℕ × Event)
farewell c =
    (0, steps)
    ∷ (0, steps)
    ∷ (0, steps)
    ∷ (2, signals)
    ∷ (1, steps)
    ∷ (1, steps)
    ∷ (1, steps)
    ∷ last_calls c

abbrev Leaves : ℕ → Server → Pc → Pc → Type 0
Leaves c p a b = Over (run move (three p a b) (last_calls c))

last_calls-Over : (c : ℕ) (p : Server) (a b : Pc) → Ready 3 3 c true p a b → Leaves c p a b
unfolding run step
last_calls-Over zero p a b h = all-Over _ _ _ (
    main_goes 4 5 0 true _ _ _ (omega arith) (λ late. omega arith)
      (main_goes 3 5 0 true _ a _ (omega arith) (λ late. omega arith)
        (watcher_goes 4 0 _ a _ (omega arith) (λ late. refl)
          (watcher_goes 3 0 p a b (omega arith) (λ late. refl) h))))
last_calls-Over (suc c) p a b h =
    outside_run Over p a b call_ends (last_calls c)
      (last_calls-Over c (move p outside call_ends).0 a b (a_call_ends c p a b h))

farewell-Over :
    (c : ℕ) (p : Server) (a b : Pc)
    → Ready 0 0 c false p a b
    → Over (run move (three p a b) (farewell c))
unfolding run step
farewell-Over c p a b h =
    let ready =
      main_goes 2 0 c false _ _ b (omega arith) (λ late. omega arith)
        (main_goes 1 0 c false _ _ b (omega arith) (λ late. omega arith)
          (main_goes 0 0 c false p a b (omega arith) (λ late. omega arith) h)) in
    outside_run Over _ _ b signals ((1, steps) ∷ (1, steps) ∷ (1, steps) ∷ last_calls c) (
      unfold run step in
      last_calls-Over c _ _ _ (
        watcher_goes 2 c _ _ _ (omega arith) (λ late. omega arith)
          (watcher_goes 1 c _ _ _ (omega arith) (λ late. omega arith)
            (watcher_goes 0 c _ _ b (omega arith) (λ late. omega arith)
              (signal_comes c _ _ b ready)))))

-- Whenever the process lives, from the start of `RunServer` on, however many calls are served and
-- whatever signals have come: by `farewell`, in which `RunServer` goes on to `Wait`, a signal comes,
-- and the calls in flight end, both `signal_waiter` and `RunServer` return, and no call is left.
pub run_server-Over :
    (xs : List (ℕ × Event))
    → (run_server xs).shared.killed ≡ false
    → Over (run_server (xs ++ farewell (run_server xs).shared.calls))
run_server-Over xs lives =
    let (p, a, b, same, h) = run_server-Stands xs in
    let ready : Ready 0 0 p.calls false p a b = record {
      alive = sym (ap (λ s. s.shared.killed) same) ∙ lives;
      mains = h.mains;
      watches = h.watches;
      main_far = omega arith;
      watcher_far = omega arith;
      few = omega arith;
      warned = tt;
    } in
    subst Over (sym (run-append move _ xs _ ∙ ap (λ s. run move s (farewell s.shared.calls)) same))
      (farewell-Over p.calls p a b ready)

returned-watcher :
    (p : Server) (b : Pc)
    → Mains p returned
    → Watches p b
    → (b ≡ ended) × (p.down ≡ true) × (p.calls ≡ 0)
returned-watcher p _ h w = ground arith

returned-Over : (p : Server) (b : Pc) → Mains p returned → Watches p b → Over (three p returned b)
returned-Over p b h w =
    let (last, down, none_left) = returned-watcher p b h w in
    record {
      main_returned = refl;
      watcher_returned = ap some last;
      is_down = down;
      no_calls = none_left;
    }

-- In every schedule: when `RunServer` has returned, `Shutdown` has, the watcher has ended, and no
-- call is served.
pub run_server_returned :
    (xs : List (ℕ × Event))
    → get_elem? (run_server xs).threads 0 ≡ some returned
    → Over (run_server xs)
run_server_returned xs done =
    let (p, a, b, same, h) = run_server-Stands xs in
    let gone : a ≡ returned =
      some-injective a returned (sym (ap (λ s. get_elem? s.threads 0) same) ∙ done) in
    subst Over (sym (same ∙ ap (λ z. three p z b) gone))
      (returned-Over p b (subst (Mains p) gone h.mains) h.watches)
