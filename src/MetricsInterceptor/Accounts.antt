-- ===== src/MetricsInterceptor/Accounts.antt =====
-- The counter against the histogram, over the RPCs of a server in any interleaving.
use cpp_grpc_db.Prelude.{ℕ, ◌+◌, ◌≤◌, true, ◌==◌, if◌then◌else◌, length, ◌≡◌}
use cpp_grpc_db.MetricsInterceptor.{Metrics, Rpc, running, Event, metadata_at}

-- An RPC that has begun and not ended.
abbrev pub in_flight : Rpc → ℕ
in_flight (running i) = if i.start_time == 0 then 0 else 1
in_flight r = 0

-- The clock is behind its epoch when an RPC begins.
abbrev pub Ticks : Metrics → Rpc → Event → Type 0
Ticks m r (metadata_at t) = 1 ≤ t
Ticks m r e = Unit

-- Each request counted is measured, or in flight.
pub record Books (m : Metrics) (n : ℕ) : Type 0 where
  pub counts : m.has_counter ≡ true
  pub observes : m.has_histogram ≡ true
  pub settled : m.requests ≡ length m.durations + n
