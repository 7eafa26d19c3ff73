-- ===== src/CallData.antt =====
-- src/call_data: `CallDataBase` and its classes, the objects that serve one RPC each, over the
-- completion queue of the library gRPC. An address is the index of an object in the heap, and is
-- the object's tag. An operation that was started completes once; what completes next, with which
-- `ok` and which request, is the environment's choice. `request_` is what the completion under way
-- has read, and `reply_` is read by `Finish` alone, so both are handed on and not kept. Clocks,
-- logs and JSON leave no trace here.
pub mod Uuid
use cpp_grpc_db.Prelude.{
  ℕ, ◌+◌, Bool, true, false, not, ◌&&◌, List, [], ◌∷◌, ◌++◌, Option, none, some, if◌then◌else◌,
  length, get_elem?, set, Bytes, codes,
}
use cpp_grpc_db.Greeting.{
  HelloRequest, HelloReply, HelloGirlRequest, HelloGirlReply, say_hello, say_hello_girl,
}

-- `GreeterSayHelloCallData` and `HelloGirlSayHelloCallData`.
pub data Service : Type 0 where
  greeter girl_greeter : Service

-- `CallStatus`.
pub data CallStatus : Type 0 where
  create process finish : CallStatus

-- What gRPC reads for a handler of either service.
pub record Incoming : Type 0 where
  pub hello : HelloRequest
  pub girl : HelloGirlRequest

pub data Reply : Type 0 where
  hello_reply : HelloReply → Reply
  girl_reply : HelloGirlReply → Reply

-- What the code takes from other libraries: the converter, and `ByteSizeLong` of the messages.
pub record Library : Type 0 where
  pub utf8_to_big5 : Bytes → Option Bytes
  pub hello_request_size : HelloRequest → ℕ
  pub girl_request_size : HelloGirlRequest → ℕ
  pub reply_size : Reply → ℕ

-- `method_name_` is empty, and the pointers to the metrics are null, until the request is there:
-- `has_instances` tells whether they are set.
pub record CallObject : Type 0 where
  pub service : Service
  pub has_metrics : Bool
  pub status : CallStatus
  pub method_name : Bytes
  pub has_instances : Bool

-- A change of a metric, with its label; the seconds that a histogram of time observes are left out.
pub data Sample : Type 0 where
  ok_request cancelled_request : Bytes → Sample
  total_duration processing_duration : Bytes → Sample
  request_bytes response_bytes : Bytes → ℕ → Sample

-- `pending` are the tags of the operations under way, the latest first. `samples` and `replies`
-- have the latest first too.
pub record World : Type 0 where
  pub heap : List (Option CallObject)
  pub pending : List ℕ
  pub samples : List Sample
  pub replies : List Reply

-- `Proceed` returns, throws, or is called on an object that was deleted.
pub data Outcome : Type 0 where
  returned : World → Outcome
  threw : Outcome
  dangling : Outcome

-- `GetMethodName`.
unfoldable pub get_method_name : Service → Bytes
get_method_name greeter = codes "/helloworld.Greeter/SayHello"
get_method_name girl_greeter = codes "/hellogirl.GirlGreeter/SayHello"

abbrev is_nil : Bytes → Bool
is_nil [] = true
is_nil (b ∷ bs) = false

abbrev pub store : ℕ → CallObject → World → World
store k c w = record w { heap = set w.heap k (some c) }

-- `delete this`.
abbrev pub free : ℕ → World → World
free k w = record w { heap = set w.heap k none }

abbrev pub sample : Sample → World → World
sample x w = record w { samples = x ∷ w.samples }

-- `RequestSayHello` and `Finish` start an operation with the object's tag.
abbrev pub start_operation : ℕ → World → World
start_operation k w = record w { pending = k ∷ w.pending }

-- `case CallStatus::CREATE`.
unfoldable pub register : ℕ → CallObject → World → World
register k c w = start_operation k (store k (record c { status = process }) w)

-- The constructor, which ends with `Proceed(true)`.
unfoldable pub new_call : Service → Bool → World → World
unfolding register
new_call s metrics w =
    let c : CallObject = record {
      service = s;
      has_metrics = metrics;
      status = create;
      method_name = [];
      has_instances = false;
    } in
    register (length w.heap) c (record w { heap = w.heap ++ some c ∷ [] })

-- `InitializeMetricsForMethod`.
unfoldable pub initialize_metrics : CallObject → CallObject
unfolding get_method_name
initialize_metrics c =
    if not c.has_metrics
    then c
    else record c { method_name = get_method_name c.service; has_instances = true }

-- `ObserveHistogram`, and the tests of `RecordProcessingDuration`, `RecordTotalDuration` and
-- `OnRpcComplete`.
abbrev pub observe : CallObject → Sample → World → World
observe c x w = if c.has_metrics && c.has_instances then sample x w else w

-- `RecordCancellation`.
unfoldable pub record_cancellation : CallObject → World → World
record_cancellation c w =
    if c.has_metrics
    then sample
        (cancelled_request (if is_nil c.method_name then codes "unknown" else c.method_name)) w
    else w

-- `OnRpcComplete`.
unfoldable pub on_rpc_complete : CallObject → World → World
on_rpc_complete c w =
    observe c (ok_request c.method_name) (observe c (total_duration c.method_name) w)

module _ (lib : Library) where
  -- `HandleRpc` of the object's class.
  unfoldable pub handle_rpc : Service → Incoming → Option Reply
  unfolding say_hello say_hello_girl
  handle_rpc greeter request = some (hello_reply (say_hello request.hello))
  handle_rpc girl_greeter request = elim (say_hello_girl lib.utf8_to_big5 request.girl) [
    | none ↦ none
    | some r ↦ some (girl_reply r)
  ]

  abbrev pub incoming_size : Service → Incoming → ℕ
  incoming_size greeter request = lib.hello_request_size request.hello
  incoming_size girl_greeter request = lib.girl_request_size request.girl

  -- `OnRequestReceived`: the object as it is behind it, and the world.
  unfoldable pub on_request_received : ℕ → CallObject → Incoming → World → CallObject × World
  unfolding initialize_metrics new_call
  on_request_received k c request w =
      let spawned = new_call c.service c.has_metrics w in
      let c' = initialize_metrics c in
      (
        c',
        observe c' (request_bytes c'.method_name (incoming_size c.service request))
            (store k c' spawned),
      )

  -- `OnRequestProcessed`.
  unfoldable pub on_request_processed : CallObject → Reply → World → World
  on_request_processed c reply w =
      observe c (response_bytes c.method_name (lib.reply_size reply))
        (observe c (processing_duration c.method_name) w)

  -- `case CallStatus::PROCESS`, behind `HandleRpc`.
  unfoldable pub answered : ℕ → CallObject → World → Option Reply → Outcome
  unfolding on_request_processed
  answered k c w none = threw
  answered k c w (some reply) =
      let v = on_request_processed c reply w in
      let u = store k (record c { status = finish }) v in
      returned (start_operation k (record u { replies = reply ∷ u.replies }))

  -- The `switch` of `Proceed(true)`.
  unfoldable pub proceed_ok : CallStatus → ℕ → CallObject → Incoming → World → Outcome
  unfolding register on_request_received handle_rpc answered on_rpc_complete
  proceed_ok create k c request w = returned (register k c w)
  proceed_ok process k c request w =
      let (c', v) = on_request_received k c request w in
      answered k c' v (handle_rpc c.service request)
  proceed_ok finish k c request w = returned (free k (on_rpc_complete c w))

  -- `Proceed` on the object at an address.
  unfoldable pub proceed_at : Option (Option CallObject) → ℕ → Bool → Incoming → World → Outcome
  unfolding proceed_ok record_cancellation
  proceed_at none k ok request w = dangling
  proceed_at (some none) k ok request w = dangling
  proceed_at (some (some c)) k true request w = proceed_ok c.status k c request w
  proceed_at (some (some c)) k false request w = returned (free k (record_cancellation c w))

  unfoldable pub proceed : ℕ → Bool → Incoming → World → Outcome
  unfolding proceed_at
  proceed k ok request w = proceed_at (get_elem? w.heap k) k ok request w
