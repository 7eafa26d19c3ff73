-- ===== src/MetricsInterceptor.antt =====
-- src/interceptor/metrics_interceptor.cpp, include/metrics_interceptor.h: the interceptors that count
-- the RPCs of a server and measure them, one for each RPC, over the metrics that they share. Times
-- are ticks since the epoch of the steady clock.
pub mod Accounts
use cpp_grpc_db.Prelude.{ℕ, ◌+◌, Bool, true, false, not, ◌&&◌, List, [], ◌∷◌, ◌==◌, if◌then◌else◌}

-- `SharedMetrics`, with what the counter and the histogram have: whether the pointers are set, the
-- number of requests, and the start and the end of each duration observed, the latest first.
pub record Metrics : Type 0 where
  pub has_counter : Bool
  pub has_histogram : Bool
  pub requests : ℕ
  pub durations : List (ℕ × ℕ)

-- `MetricsServerInterceptor`.
pub record Interceptor : Type 0 where
  pub start_time : ℕ

-- A batch, with what the clock says if it is asked.
pub record Batch : Type 0 where
  pub post_recv_initial_metadata : Bool
  pub pre_send_status : Bool
  pub now : ℕ

-- The constructor of the factory, and `CreateServerInterceptor`.
abbrev pub new_metrics : Metrics
new_metrics = record { has_counter = true; has_histogram = true; requests = 0; durations = [] }

abbrev pub create_server_interceptor : Interceptor
create_server_interceptor = record { start_time = 0 }

abbrev pub increment : Metrics → Metrics
increment m = if m.has_counter then record m { requests = m.requests + 1 } else m

abbrev pub received : Bool → ℕ → Metrics × Interceptor → Metrics × Interceptor
received true now (m, i) = (increment m, record i { start_time = now })
received false now (m, i) = (m, i)

abbrev pub status_sent : Bool → ℕ → Metrics × Interceptor → Metrics × Interceptor
status_sent true now (m, i) = (
  if m.has_histogram && not (i.start_time == 0)
      then record m { durations = (i.start_time, now) ∷ m.durations }
      else m,
  i,
)
status_sent false now (m, i) = (m, i)

-- `Intercept`.
unfoldable pub intercept : Metrics → Interceptor → Batch → Metrics × Interceptor
intercept m i b =
    status_sent b.pre_send_status b.now (received b.post_recv_initial_metadata b.now (m, i))

-- An RPC as the library gRPC drives its interceptor, which is new when the RPC arrives. It may end
-- before its metadata is there.
pub data Rpc : Type 0 where
  arriving ended : Rpc
  running : Interceptor → Rpc

pub data Event : Type 0 where
  metadata_at status_at : ℕ → Event
  message_at : ℕ → Event

abbrev pub to_running : Metrics × Interceptor → Metrics × Rpc
to_running (m, i) = (m, running i)

abbrev pub to_ended : Metrics × Interceptor → Metrics × Rpc
to_ended (m, i) = (m, ended)

unfoldable pub move : Metrics → Rpc → Event → Metrics × Rpc
unfolding intercept
move m arriving (metadata_at t) = to_running (
    intercept m create_server_interceptor
      (record { post_recv_initial_metadata = true; pre_send_status = false; now = t }))
move m arriving (status_at t) = to_ended (
    intercept m create_server_interceptor
      (record { post_recv_initial_metadata = false; pre_send_status = true; now = t }))
move m (running i) (status_at t) =
    to_ended (
      intercept m i
        (record { post_recv_initial_metadata = false; pre_send_status = true; now = t }))
move m (running i) (message_at t) = to_running (
    intercept m i (record { post_recv_initial_metadata = false; pre_send_status = false; now = t }))
move m r e = (m, r)
