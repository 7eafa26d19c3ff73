-- ===== src/Service.antt =====
-- The `SayHello` of the servers with the string interceptor around it: src/greeter_server.cpp,
-- src/greeter_callback_server.cpp and src/greeter_callback_server_no_db2.cpp, and the clients
-- src/greeter_client.cpp, src/greeter_callback_client.cpp and src/greeter_async_client.cpp. Whether a
-- request was cancelled, and what the pool did, is the environment's. Logs leave no trace.
pub mod EndToEnd
pub mod Pooling
pub mod Clients
use cpp_grpc_db.Prelude.{
  ℕ, Bool, true, false, ◌&&◌, [], ◌∷◌, ◌++◌, map, Option, none, some, ◌==◌, if◌then◌else◌, Bytes,
  codes, to_upper,
}
use cpp_grpc_db.Greeting.{
  HelloRequest, HelloReply, HelloGirlRequest, HelloGirlReply, say_hello, say_hello_girl,
}
use cpp_grpc_db.Interceptor.{
  Field, string, raw_bytes, other, Message, end, field, StringTransform, at_hook,
}

pub data Status : Type 0 where
  ok_status cancelled_status failed_status : Status

abbrev pub no_reply : HelloReply
no_reply = record { message = [] }

abbrev pub no_girl_reply : HelloGirlReply
no_girl_reply = record { message = []; marriage = []; size = 0; reply_secret = [] }

-- `GreeterServiceImpl::SayHello` of the synchronous server: the status, and the reply as it is left.
unfoldable pub sync_say_hello : Bool → HelloRequest → Status × HelloReply
unfolding say_hello
sync_say_hello cancelled request =
    if cancelled then (cancelled_status, no_reply) else (ok_status, say_hello request)

-- What `acquire` does for the callback server: there is no pool, a connection, or an exception.
pub data Acquired : Type 0 where
  no_pool acquire_threw : Acquired
  connection : ℕ → Acquired

abbrev pub lent : Acquired → Option ℕ
lent (connection r) = some r
lent a = none

-- `GreeterServiceImpl::SayHello` of the callback server, with the connection that goes back to the
-- pool at its end.
unfoldable pub callback_say_hello :
    Bool → Acquired → HelloRequest → (Status × HelloReply) × Option ℕ
unfolding say_hello
callback_say_hello cancelled a request =
    if cancelled
    then ((cancelled_status, no_reply), none)
    else ((ok_status, say_hello request), lent a)

abbrev pub answered : Option HelloGirlReply → Option (Status × HelloGirlReply)
answered none = none
answered (some r) = some (ok_status, r)

-- `SimpleGreeterServiceImpl::SayHello`; `none` is an exception of the converter.
unfoldable pub girl_say_hello :
    (Bytes → Option Bytes) → Bool → HelloGirlRequest → Option (Status × HelloGirlReply)
unfolding say_hello_girl
girl_say_hello utf8_to_big5 cancelled request =
    if cancelled
    then some (cancelled_status, no_girl_reply)
    else answered (say_hello_girl utf8_to_big5 request)

-- The messages as reflection shows them, and as the generated getters read them.
abbrev pub request_message : HelloRequest → Message
request_message r = field (string r.name) end

abbrev pub reply_message : HelloReply → Message
reply_message r = field (string r.message) end

abbrev pub girl_request_message : HelloGirlRequest → Message
girl_request_message r =
    field (string r.name)
      (field (string r.spouse) (field (other r.first_round) (field (raw_bytes r.secret_note) end)))

abbrev pub girl_reply_message : HelloGirlReply → Message
girl_reply_message r =
    field (string r.message)
      (field (string r.marriage) (field (other r.size) (field (raw_bytes r.reply_secret) end)))

abbrev pub request_of : Option Message → HelloRequest
request_of (some (field (string s) end)) = record { name = s }
request_of m = record { name = [] }

abbrev pub reply_of : Option Message → HelloReply
reply_of (some (field (string s) end)) = record { message = s }
reply_of m = no_reply

abbrev pub girl_request_of : Option Message → HelloGirlRequest
girl_request_of
      (some (field (string s) (field (string t) (field (other n) (field (raw_bytes b) end))))) =
    record { name = s; spouse = t; first_round = n; secret_note = b }
girl_request_of m = record { name = []; spouse = []; first_round = 0; secret_note = [] }

abbrev pub girl_reply_of : Option Message → HelloGirlReply
girl_reply_of
      (some (field (string s) (field (string t) (field (other n) (field (raw_bytes b) end))))) =
    record { message = s; marriage = t; size = n; reply_secret = b }
girl_reply_of m = no_girl_reply

-- The transformations that `RunServer` of the callback server sets. `::toupper` is given the bytes
-- of the text, and is the identity on those above 127.
abbrev pub uppercase : StringTransform
uppercase s = map to_upper s

abbrev pub add_prefix : StringTransform
add_prefix s = codes "[TRANSFORMED] " ++ s

-- Those of the server without DB2: the converter, or the text itself if the converter throws.
abbrev pub converted_or : Bytes → Option Bytes → Bytes
converted_or s none = s
converted_or s (some t) = t

abbrev pub or_input : (Bytes → Option Bytes) → StringTransform
or_input convert s = converted_or s (convert s)

-- A call of the callback server through its interceptor, not cancelled.
unfoldable pub callback_server : Acquired → HelloRequest → Status × HelloReply
unfolding at_hook callback_say_hello
callback_server a request =
    let received = request_of (at_hook (some uppercase) true (some (request_message request))) in
    let (status, reply) = (callback_say_hello false a received).0 in
    (status, reply_of (at_hook (some add_prefix) true (some (reply_message reply))))

abbrev pub sending :
    StringTransform → Option (Status × HelloGirlReply) → Option (Status × HelloGirlReply)
sending f none = none
sending f (some (status, reply)) =
    some (status, girl_reply_of (at_hook (some f) true (some (girl_reply_message reply))))

-- A call of the server without DB2.
unfoldable pub girl_server :
    (Bytes → Option Bytes)
    → (Bytes → Option Bytes)
    → HelloGirlRequest
    → Option (Status × HelloGirlReply)
unfolding at_hook girl_say_hello
girl_server utf8_to_big5 big5_to_utf8 request =
    let received =
      girl_request_of
        (at_hook (some (or_input utf8_to_big5)) true (some (girl_request_message request))) in
    sending (or_input big5_to_utf8) (girl_say_hello utf8_to_big5 false received)

-- `GreeterClient::SayHello` of the synchronous and the callback client, over the RPC, and that of the
-- asynchronous client, which gets a tag and a flag from the queue.
abbrev pub is_ok : Status → Bool
is_ok ok_status = true
is_ok s = false

unfoldable pub client_say_hello : (HelloRequest → Status × HelloReply) → Bytes → Bytes
client_say_hello rpc user =
    let (status, reply) = rpc (record { name = user }) in
    if is_ok status then reply.message else codes "RPC failed"

unfoldable pub async_client_say_hello :
    (HelloRequest → (Status × HelloReply) × (Bool × ℕ)) → Bytes → Bytes
async_client_say_hello rpc user =
    let ((status, reply), (ok, got_tag)) = rpc (record { name = user }) in
    if ok && got_tag == 1 && is_ok status then reply.message else codes "RPC failed"
