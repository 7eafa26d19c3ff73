-- ===== src/LoggingInterceptor.antt =====
-- src/interceptor/message_logging_interceptor.cpp: the interceptor that logs the messages of an RPC,
-- unless it belongs to the services for health checks or reflection. What the printer of JSON makes
-- of a message is the library's.
pub mod Silence
use cpp_grpc_db.Prelude.{
  ℕ, Bool, true, false, ◌&&◌, ◌||◌, List, [], ◌∷◌, ◌++◌, Option, none, some, ◌==◌, if◌then◌else◌,
  map, Bytes, codes, to_lower,
}

-- `MessageToJsonString`: a text, a status that is not ok, or an exception.
pub data Printed : Type 0 where
  json : Bytes → Printed
  not_ok threw : Printed

pub data Entry : Type 0 where
  request_json reply_json : Bytes → Bytes → Entry
  request_not_converted reply_not_converted : Bytes → Entry
  request_failed reply_failed : Bytes → Entry
  reply_not_available : Bytes → Entry

-- The hook points of a batch and its messages; `none` is a null pointer.
pub record Batch : Type 0 where
  pub post_recv_message : Bool
  pub recv_message : Option Printed
  pub pre_send_message : Bool
  pub send_message : Option Printed

abbrev pub starts_with : Bytes → Bytes → Bool
starts_with [] text = true
starts_with (p ∷ ps) [] = false
starts_with (p ∷ ps) (c ∷ text) = let rest = starts_with ps text in p == c && rest

-- `find` does not return `npos`.
unfoldable pub contains : Bytes → Bytes → Bool
contains part [] = starts_with part []
contains part (c ∷ text) = let rest = contains part text in starts_with part (c ∷ text) || rest

unfoldable pub is_skipped : Bytes → Bool
unfolding contains
is_skipped method_name =
    let method_lower = map to_lower method_name in
    contains (codes "grpc.health") method_lower || contains (codes "grpc.reflection") method_lower

abbrev pub log_request : Bytes → Option Printed → List Entry
log_request name none = []
log_request name (some (json text)) = request_json name text ∷ []
log_request name (some not_ok) = request_not_converted name ∷ []
log_request name (some threw) = request_failed name ∷ []

abbrev pub log_reply : Bytes → Option Printed → List Entry
log_reply name none = reply_not_available name ∷ []
log_reply name (some (json text)) = reply_json name text ∷ []
log_reply name (some not_ok) = reply_not_converted name ∷ []
log_reply name (some threw) = reply_failed name ∷ []

-- `Intercept`: what it logs.
unfoldable pub intercept : Bytes → Batch → List Entry
unfolding is_skipped
intercept method_name b =
    if is_skipped method_name
    then []
    else (if b.post_recv_message then log_request method_name b.recv_message else [])
      ++ (if b.pre_send_message then log_reply method_name b.send_message else [])
