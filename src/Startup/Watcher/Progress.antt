-- ===== src/Startup/Watcher/Progress.antt =====
-- src/greeter_callback_server_no_db2.cpp: how far `RunServer` and the watcher are, one move each.
use cpp_grpc_db.Prelude.{ℕ, suc, ◌≤◌, ◌<◌, Bool, true, false, ◌≡◌, sym, subst, arith, ◌⊎◌, inl, inr}
use cpp_grpc_db.Startup.Watcher.{
  Server, Pc, masking, building, watching, waiting, joining, returned, unborn, awaiting, stopping,
  draining, leaving, ended, outside, steps, signals, call_ends, act, move,
}
use cpp_grpc_db.Startup.Watcher.Standing.{
  Mains, Watches, main-Mains, main-Watches, watcher-Mains, watcher-Watches, outside-Mains,
  outside-Watches,
}

-- How far the main thread and the watcher are.
abbrev pub rank : Pc → ℕ
rank masking = 0
rank building = 1
rank watching = 2
rank waiting = 3
rank joining = 4
rank returned = 5
rank unborn = 0
rank awaiting = 1
rank stopping = 2
rank draining = 3
rank leaving = 4
rank ended = 5
rank outside = 0

-- The watcher has a signal to take, or has taken it.
abbrev pub Warned : Bool → Server → Pc → Type 0
Warned false p b = Unit
Warned true p b = (p.pending ≡ true) ⊎ (2 ≤ rank b)

pub main-rank :
    (p : Server) (a b : Pc) (n : ℕ) (s : Bool)
    → p.killed ≡ false
    → Mains p a
    → Watches p b
    → n ≤ rank a
    → n < 5
    → (3 ≤ n → 5 ≤ rank b)
    → Warned s p b
    → (suc n ≤ rank (move p a steps).1)
      × ((move p a steps).0.killed ≡ false)
      × ((move p a steps).0.calls ≡ p.calls)
      × Warned s (move p a steps).0 b
unfolding move act
main-rank p _ _ n _ alive h w far early there warned = ground arith

pub record Ready (n m c : ℕ) (s : Bool) (p : Server) (a b : Pc) : Type 0 where
  pub alive : p.killed ≡ false
  pub mains : Mains p a
  pub watches : Watches p b
  pub main_far : n ≤ rank a
  pub watcher_far : m ≤ rank b
  pub few : p.calls ≤ c
  pub warned : Warned s p b

pub main_goes :
    (n m c : ℕ) (s : Bool) (p : Server) (a b : Pc)
    → n < 5
    → (3 ≤ n → 5 ≤ m)
    → Ready n m c s p a b
    → Ready (suc n) m c s (move p a steps).0 (move p a steps).1 b
main_goes n m c s p a b early there h =
    let (far, alive, same, warned) =
      main-rank p a b n s h.alive h.mains h.watches h.main_far early
        (λ late. omega (arith, there late, h.watcher_far)) h.warned in
    record {
      alive = alive;
      mains = main-Mains p a b steps h.mains h.watches;
      watches = main-Watches p a b steps h.mains h.watches;
      main_far = far;
      watcher_far = h.watcher_far;
      few = subst (λ k. k ≤ c) (sym same) h.few;
      warned = warned;
    }

pub signal-outside :
    (p : Server) (a b : Pc)
    → p.killed ≡ false
    → Mains p a
    → 3 ≤ rank a
    → ((move p outside signals).0.killed ≡ false)
      × ((move p outside signals).0.calls ≡ p.calls)
      × ((move p outside signals).0.pending ≡ true)
unfolding move act
signal-outside p _ b alive h far = ground arith

pub signal_comes :
    (c : ℕ) (p : Server) (a b : Pc)
    → Ready 3 0 c false p a b
    → Ready 3 0 c true (move p outside signals).0 a b
signal_comes c p a b h =
    let (alive, same, pending) = signal-outside p a b h.alive h.mains h.main_far in
    record {
      alive = alive;
      mains = outside-Mains p a signals h.mains;
      watches = outside-Watches p b signals h.watches;
      main_far = h.main_far;
      watcher_far = h.watcher_far;
      few = subst (λ k. k ≤ c) (sym same) h.few;
      warned = inl pending;
    }

pub watched_lem : (p : Server) (a : Pc) → Mains p a → 3 ≤ rank a → p.watched ≡ true
watched_lem p _ h far = ground arith

pub watcher-rank :
    (p : Server) (b : Pc) (m c : ℕ)
    → p.killed ≡ false
    → p.watched ≡ true
    → Watches p b
    → m ≤ rank b
    → m < 5
    → p.calls ≤ c
    → (3 ≤ m → c ≡ 0)
    → Warned true p b
    → (suc m ≤ rank (move p b steps).1)
      × ((move p b steps).0.killed ≡ false)
      × ((move p b steps).0.calls ≡ p.calls)
      × Warned true (move p b steps).0 (move p b steps).1
unfolding move act
watcher-rank p _ m c alive watched w far early few none_left warned = ground arith

pub watcher_goes :
    (m c : ℕ) (p : Server) (a b : Pc)
    → m < 5
    → (3 ≤ m → c ≡ 0)
    → Ready 3 m c true p a b
    → Ready 3 (suc m) c true (move p b steps).0 a (move p b steps).1
watcher_goes m c p a b early none_left h =
    let watched = watched_lem p a h.mains h.main_far in
    let (far, alive, same, warned) =
      watcher-rank p b m c h.alive watched h.watches h.watcher_far early h.few none_left h.warned in
    record {
      alive = alive;
      mains = watcher-Mains p a b steps h.mains h.watches;
      watches = watcher-Watches p b steps h.watches;
      main_far = h.main_far;
      watcher_far = far;
      few = subst (λ k. k ≤ c) (sym same) h.few;
      warned = warned;
    }

pub call_ends-outside :
    (p : Server) (c : ℕ)
    → p.killed ≡ false
    → p.calls ≤ suc c
    → ((move p outside call_ends).0.killed ≡ false) × ((move p outside call_ends).0.calls ≤ c)
unfolding move act
call_ends-outside p c alive few = ground arith

pub a_call_ends :
    (c : ℕ) (p : Server) (a b : Pc)
    → Ready 3 3 (suc c) true p a b
    → Ready 3 3 c true (move p outside call_ends).0 a b
a_call_ends c p a b h =
    let (alive, few) = call_ends-outside p c h.alive h.few in
    record {
      alive = alive;
      mains = outside-Mains p a call_ends h.mains;
      watches = outside-Watches p b call_ends h.watches;
      main_far = h.main_far;
      watcher_far = h.watcher_far;
      few = few;
      warned = inr (omega (arith, h.watcher_far));
    }

pub last_main : (p : Server) (a : Pc) → Mains p a → 5 ≤ rank a → a ≡ returned
last_main p _ h far = ground arith

pub last_watcher : (p : Server) (b : Pc) → Watches p b → 5 ≤ rank b → (b ≡ ended) × (p.down ≡ true)
last_watcher p _ w far = ground arith
