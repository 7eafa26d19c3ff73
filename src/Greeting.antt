-- ===== src/Greeting.antt =====
-- The messages of protos/helloworld.proto and protos/hello_girl.proto, and the replies that the
-- servers make of the requests: `HandleRpc` of src/call_data and `SayHello` of the services. The
-- converter `utf8ansi::utf8_to_big5` is another library's, and `none` is the exception it throws.
use cpp_grpc_db.Prelude.{ℕ, ◌+◌, ◌%◌, ◌^◌, [], ◌∷◌, ◌++◌, Option, none, some, Bytes, codes}

pub record HelloRequest : Type 0 where
  pub name : Bytes

pub record HelloReply : Type 0 where
  pub message : Bytes

-- `first_round` and `size` are the bit patterns of an `int32`.
pub record HelloGirlRequest : Type 0 where
  pub name : Bytes
  pub spouse : Bytes
  pub first_round : ℕ
  pub secret_note : Bytes

pub record HelloGirlReply : Type 0 where
  pub message : Bytes
  pub marriage : Bytes
  pub size : ℕ
  pub reply_secret : Bytes

-- `prefix + request.name()`.
abbrev pub hello_to : Bytes → Bytes
hello_to name = codes "Hello " ++ name

unfoldable pub say_hello : HelloRequest → HelloReply
say_hello request = record { message = hello_to request.name }

-- The UTF-8 of the literal in the source, two Chinese characters.
abbrev pub big5_literal : Bytes
big5_literal = 0xe5 ∷ 0xa4 ∷ 0xa7 ∷ 0xe5 ∷ 0xa5 ∷ 0xbd ∷ []

-- The reply, once the literal is converted. The addition wraps as on the targets of the build.
abbrev pub girl_reply : HelloGirlRequest → Bytes → HelloGirlReply
girl_reply request big5_append = record {
  message = hello_to request.name;
  marriage = request.name ++ (codes " is married with " ++ request.spouse);
  size = (request.first_round + 1) % 2 ^ 32;
  reply_secret = request.secret_note ++ (codes "is " ++ big5_append);
}

abbrev pub reply_with : HelloGirlRequest → Option Bytes → Option HelloGirlReply
reply_with request none = none
reply_with request (some big5_append) = some (girl_reply request big5_append)

unfoldable pub say_hello_girl : (Bytes → Option Bytes) → HelloGirlRequest → Option HelloGirlReply
say_hello_girl utf8_to_big5 request = reply_with request (utf8_to_big5 big5_literal)
