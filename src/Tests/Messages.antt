-- ===== src/Tests/Messages.antt =====
-- The string interceptor.
use cpp_grpc_db.LoggingInterceptor
use cpp_grpc_db.LoggingInterceptor.{Batch, is_skipped}
use cpp_grpc_db.LoggingInterceptor.Silence.{IsInternal, intercept_silent}
use cpp_grpc_db.Prelude.{
  to_lower, false, ◌↔◌, ℕ, List, replicate, refl, [], ◌∷◌, map, Bytes, ◌≡◌, codes, to_upper,
}
use cpp_grpc_db.Interceptor.{
  Message, field, end, string, strings, raw_bytes, sub_message, transform_message,
}
use cpp_grpc_db.Interleaving.{System, run, step}
use cpp_grpc_db.MetricsInterceptor.{
  Metrics, new_metrics, Rpc, arriving, Event, metadata_at, status_at, move,
}
use cpp_grpc_db.Interceptor.Leaves.{leaves, outline, transform_message_lem}

abbrev shout : Bytes → Bytes
shout s = map to_upper s

abbrev greeting : Message
greeting = field (string (codes "ann")) (
    field (raw_bytes (codes "note"))
      (field (sub_message (field (strings (codes "a" ∷ codes "b" ∷ [])) end)) end))

transform_message_lem_example :
    (leaves (transform_message shout greeting) ≡ map shout (leaves greeting))
    × (outline (transform_message shout greeting) ≡ outline greeting)
transform_message_lem_example = transform_message_lem shout greeting

abbrev three_rpcs : System Metrics Rpc
three_rpcs = record { shared = new_metrics; threads = replicate 3 arriving }

-- One RPC ends, one is in flight, and one ends before it begins.
abbrev served : List (ℕ × Event)
served = (0, metadata_at 5) ∷ (1, metadata_at 6) ∷ (2, status_at 7) ∷ (0, status_at 9) ∷ []

served_counts : (run move three_rpcs served).shared.requests ≡ 2
unfolding run step move
served_counts = refl

abbrev health_check : Bytes
health_check = codes "/GRPC.Health.v1.Health/Check"

health_check_is_silent :
    ((b : Batch) → LoggingInterceptor.intercept health_check b ≡ []) ↔ IsInternal health_check
health_check_is_silent = intercept_silent health_check

greeter_is_logged : is_skipped (codes "/helloworld.Greeter/SayHello") ≡ false
unfolding is_skipped to_lower
greeter_is_logged = refl
