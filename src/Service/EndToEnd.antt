-- ===== src/Service/EndToEnd.antt =====
-- From the client through the interceptor and the service, and back.
use cpp_grpc_db.Prelude.{◌++◌, map, Option, some, Bytes, codes, to_upper, ◌≡◌, refl}
use cpp_grpc_db.Greeting.{HelloGirlRequest, big5_literal, girl_reply, say_hello_girl}
use cpp_grpc_db.Interceptor.{transform_message}
use cpp_grpc_db.Service.{ok_status, Acquired, callback_server, client_say_hello, girl_server}

-- Through the callback server a client is greeted by its name in capitals behind the prefix, and
-- whether there is a pool, and whether it lends a connection or throws, makes no difference.
pub client-callback_server :
    (a : Acquired) (user : Bytes)
    → client_say_hello (callback_server a) user ≡ codes "[TRANSFORMED] Hello " ++ map to_upper user
unfolding client_say_hello callback_server transform_message
client-callback_server a user = refl

-- What the converters document: each undoes the other, they work character by character, and they
-- leave ASCII text as it is.
pub record Converters (utf8_to_big5 big5_to_utf8 : Bytes → Option Bytes) : Type 0 where
  pub back : (s t : Bytes) → utf8_to_big5 s ≡ some t → big5_to_utf8 t ≡ some s
  pub joins :
      (s t u v : Bytes)
      → utf8_to_big5 s ≡ some u
      → utf8_to_big5 t ≡ some v
      → utf8_to_big5 (s ++ t) ≡ some (u ++ v)
  pub hello_kept : utf8_to_big5 (codes "Hello ") ≡ some (codes "Hello ")
  pub married_kept : utf8_to_big5 (codes " is married with ") ≡ some (codes " is married with ")

-- Through the server without DB2 the texts make a round trip: for a name and a spouse that have a
-- Big5 form, the client gets them back in UTF-8 in the greeting and the marriage, though the
-- service has worked in Big5; `size` is one more, and the secret, which is bytes, is only extended.
pub girl_server-round_trip :
    (to_big5 to_utf8 : Bytes → Option Bytes) (request : HelloGirlRequest) (n s literal : Bytes)
    → Converters to_big5 to_utf8
    → to_big5 request.name ≡ some n
    → to_big5 request.spouse ≡ some s
    → to_big5 big5_literal ≡ some literal
    → girl_server to_big5 to_utf8 request ≡ some (ok_status, girl_reply request literal)
unfolding girl_server say_hello_girl transform_message
girl_server-round_trip to_big5 to_utf8 request n s literal c hn hs hl =
    let hello =
      c.back (codes "Hello " ++ request.name) (codes "Hello " ++ n)
        (c.joins (codes "Hello ") request.name (codes "Hello ") n c.hello_kept hn) in
    let tail =
      c.joins (codes " is married with ") request.spouse (codes " is married with ") s
        c.married_kept hs in
    let married = c.back _ _ (
      c.joins request.name (codes " is married with " ++ request.spouse) n
        (codes " is married with " ++ s) hn tail) in
    rw (hn, hs, hl, hello, married) refl
