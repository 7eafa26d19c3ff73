-- ===== src/Interceptor.antt =====
-- src/interceptor/string_transform_interceptor.cpp: `StringTransformServerInterceptor`. A message
-- is what reflection shows of it: its fields in the order of the descriptor. Messages have no
-- `oneof`, as those of protos/ have none, so that writing a field leaves the others alone, and no
-- `optional` strings, so that a string is there whether it was set or not. The transformation is the
-- client's.
pub mod Leaves
use cpp_grpc_db.Prelude.{
  ℕ, Bool, true, false, List, [], ◌∷◌, ◌++◌, map, Option, none, some, if◌then◌else◌, Bytes,
}

mutual
  -- TYPE_STRING, TYPE_BYTES, TYPE_MESSAGE and the other types, single and repeated. A single
  -- message field that `HasField` denies is `absent`.
  pub data Field : Type 0 where
    string : Bytes → Field
    strings : List Bytes → Field
    raw_bytes : Bytes → Field
    absent : Field
    sub_message : Message → Field
    sub_messages : Messages → Field
    other : ℕ → Field

  pub data Message : Type 0 where
    end : Message
    field : Field → Message → Message

  pub data Messages : Type 0 where
    no_more : Messages
    one : Message → Messages → Messages

abbrev pub StringTransform : Type 0
StringTransform = Bytes → Bytes

module _ (transform : StringTransform) where
  -- `TransformMessageStrings`.
  unfoldable mutual
    pub transform_message : Message → Message
    transform_message end = end
    transform_message (field f m) = field (transform_field f) (transform_message m)

    pub transform_field : Field → Field
    transform_field (string s) = string (transform s)
    transform_field (strings ss) = strings (map transform ss)
    transform_field (raw_bytes s) = raw_bytes s
    transform_field absent = absent
    transform_field (sub_message m) = sub_message (transform_message m)
    transform_field (sub_messages ms) = sub_messages (transform_messages ms)
    transform_field (other n) = other n

    pub transform_messages : Messages → Messages
    transform_messages no_more = no_more
    transform_messages (one m ms) = one (transform_message m) (transform_messages ms)

-- A hook point with its message, if there is one: `transform` is the empty function or not.
unfoldable pub at_hook : Option StringTransform → Bool → Option Message → Option Message
at_hook (some f) true (some m) = some (transform_message f m)
at_hook f hooked m = m

-- What `Intercept` leaves as the received and the sent message.
unfoldable pub intercept :
    Option StringTransform
    → Option StringTransform
    → Bool
    → Bool
    → Option Message × Option Message
    → Option Message × Option Message
unfolding at_hook
intercept request response received sending (m, n) =
    (at_hook request received m, at_hook response sending n)
