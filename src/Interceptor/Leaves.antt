-- ===== src/Interceptor/Leaves.antt =====
-- The strings of a message, and what is left without them.
use cpp_grpc_db.Prelude.{List, [], ◌∷◌, ◌++◌, map, Bytes, ◌≡◌, refl, sym, ap}
use cpp_grpc_db.Interceptor.{
  Field, string, strings, raw_bytes, absent, sub_message, sub_messages, other, Message, end, field,
  Messages, no_more, one, StringTransform, transform_message, transform_field, transform_messages,
}

-- The values of all fields of TYPE_STRING, in the order of the message, and at every depth.
unfoldable mutual
  pub leaves : Message → List Bytes
  leaves end = []
  leaves (field f m) = field_leaves f ++ leaves m

  field_leaves : Field → List Bytes
  field_leaves (string s) = s ∷ []
  field_leaves (strings ss) = ss
  field_leaves (sub_message m) = leaves m
  field_leaves (sub_messages ms) = all_leaves ms
  field_leaves f = []

  all_leaves : Messages → List Bytes
  all_leaves no_more = []
  all_leaves (one m ms) = leaves m ++ all_leaves ms

-- The message with every string made empty.
unfoldable mutual
  pub outline : Message → Message
  outline end = end
  outline (field f m) = field (field_outline f) (outline m)

  field_outline : Field → Field
  field_outline (string s) = string []
  field_outline (strings ss) = strings (map (λ s. []) ss)
  field_outline (sub_message m) = sub_message (outline m)
  field_outline (sub_messages ms) = sub_messages (all_outlines ms)
  field_outline f = f

  all_outlines : Messages → Messages
  all_outlines no_more = no_more
  all_outlines (one m ms) = one (outline m) (all_outlines ms)

map-empty :
    (f : StringTransform) (ss : List Bytes)
    → map {A = Bytes} {B = Bytes} (λ s. []) (map f ss) ≡ map (λ s. []) ss
map-empty f [] = refl
map-empty f (s ∷ ss) = ap (◌∷◌ []) (map-empty f ss)

map-append : {A B : Type 0} (f : A → B) (xs ys : List A) → map f (xs ++ ys) ≡ map f xs ++ map f ys
map-append f [] ys = refl
map-append f (x ∷ xs) ys = ap (◌∷◌ (f x)) (map-append f xs ys)

map_both :
    {A B : Type 0} (f : A → B) {us vs : List B} (xs ys : List A)
    → us ≡ map f xs
    → vs ≡ map f ys
    → us ++ vs ≡ map f (xs ++ ys)
map_both f xs ys h k = rw (h, k) (sym (map-append f xs ys))

module _ (f : StringTransform) where
  mutual
    unfolding leaves transform_message

    leaves-message : (m : Message) → leaves (transform_message f m) ≡ map f (leaves m)
    leaves-message end = refl
    leaves-message (field x m) =
        map_both f (field_leaves x) (leaves m) (leaves-field x) (leaves-message m)

    leaves-field : (x : Field) → field_leaves (transform_field f x) ≡ map f (field_leaves x)
    leaves-field (string s) = refl
    leaves-field (strings ss) = refl
    leaves-field (raw_bytes s) = refl
    leaves-field absent = refl
    leaves-field (sub_message m) = leaves-message m
    leaves-field (sub_messages ms) = leaves-messages ms
    leaves-field (other n) = refl

    leaves-messages : (ms : Messages) → all_leaves (transform_messages f ms) ≡ map f (all_leaves ms)
    leaves-messages no_more = refl
    leaves-messages (one m ms) =
        map_both f (leaves m) (all_leaves ms) (leaves-message m) (leaves-messages ms)

  mutual
    unfolding outline transform_message

    outline-message : (m : Message) → outline (transform_message f m) ≡ outline m
    outline-message end = refl
    outline-message (field x m) = rw (outline-field x, outline-message m) refl

    outline-field : (x : Field) → field_outline (transform_field f x) ≡ field_outline x
    outline-field (string s) = refl
    outline-field (strings ss) = ap strings (map-empty f ss)
    outline-field (raw_bytes s) = refl
    outline-field absent = refl
    outline-field (sub_message m) = ap sub_message (outline-message m)
    outline-field (sub_messages ms) = ap sub_messages (outline-messages ms)
    outline-field (other n) = refl

    outline-messages : (ms : Messages) → all_outlines (transform_messages f ms) ≡ all_outlines ms
    outline-messages no_more = refl
    outline-messages (one m ms) = rw (outline-message m, outline-messages ms) refl

-- `TransformMessageStrings` applies the transformation to every value of TYPE_STRING, repeated and
-- nested ones included, each once and in its place, and changes nothing else of the message: not
-- its bytes fields, nor which fields it has.
pub transform_message_lem :
    (f : StringTransform) (m : Message)
    → (leaves (transform_message f m) ≡ map f (leaves m))
      × (outline (transform_message f m) ≡ outline m)
transform_message_lem f m = (leaves-message f m, outline-message f m)
