-- ===== src/CqServer/Objects.antt =====
-- The call objects as they are between two completions, and what `Proceed` does to each of them.
use cpp_grpc_db.Prelude.{
  ℕ, true, false, List, [], ◌∷◌, ◌++◌, Option, none, some, length, get_elem?, set, set-set,
  set-append_length, Bytes, codes, ◌≡◌, refl,
}
use cpp_grpc_db.CallData.{
  Service, greeter, girl_greeter, process, finish, Incoming, Reply, Library, CallObject, Sample,
  ok_request, cancelled_request, total_duration, processing_duration, request_bytes, response_bytes,
  World, Outcome, returned, threw, get_method_name, record_cancellation, on_rpc_complete,
  handle_rpc, incoming_size, on_request_received, on_request_processed, answered, proceed,
}

-- An object that waits for a request, and one that waits until its reply is sent.
abbrev pub accepting : Service → CallObject
accepting s = record {
  service = s;
  has_metrics = true;
  status = process;
  method_name = [];
  has_instances = false;
}

abbrev pub answering : Service → CallObject
answering s = record {
  service = s;
  has_metrics = true;
  status = finish;
  method_name = get_method_name s;
  has_instances = true;
}

-- A deleted object, or one of the two.
pub data IsSound : Option CallObject → Type 0 where
  deleted : IsSound none
  accepts : (s : Service) → IsSound (some (accepting s))
  answers : (s : Service) → IsSound (some (answering s))

-- The worlds that the three completions lead to.
abbrev pub unknown : Bytes
unknown = codes "unknown"

abbrev pub closed : ℕ → List Sample → World → World
closed k xs w = record w { heap = set w.heap k none; samples = xs ++ w.samples }

module _ (lib : Library) where
  -- An answer to a request: a new object accepts in the place of this one.
  abbrev pub opened : ℕ → Service → Incoming → Reply → World → World
  opened k s request reply w = record w {
    heap = set (w.heap ++ some (accepting s) ∷ []) k (some (answering s));
    pending = k ∷ length w.heap ∷ w.pending;
    samples =
        response_bytes (get_method_name s) (lib.reply_size reply)
        ∷ processing_duration (get_method_name s)
        ∷ request_bytes (get_method_name s) (incoming_size lib s request)
        ∷ w.samples;
    replies = reply ∷ w.replies;
  }

  abbrev pub opened_or : ℕ → Service → Incoming → Option Reply → World → Outcome
  opened_or k s request none w = threw
  opened_or k s request (some reply) w = returned (opened k s request reply w)

  answered-accepting :
      (k : ℕ) (s : Service) (request : Incoming) (w : World) (o : Option Reply)
      → (let (c, v) = on_request_received lib k (accepting s) request w in answered lib k c v o)
        ≡ opened_or k s request o w
  unfolding on_request_received answered on_request_processed
  answered-accepting k s request w none = refl
  answered-accepting k s request w (some reply) = simp (set-append_length, set-set)

  pub proceed-accepting :
      (k : ℕ) (s : Service) (request : Incoming) (w : World)
      → get_elem? w.heap k ≡ some (some (accepting s))
      → proceed lib k true request w ≡ opened_or k s request (handle_rpc lib s request) w
  unfolding proceed
  proceed-accepting k s request w at =
      rw at (answered-accepting k s request w (handle_rpc lib s request))

  pub proceed-answering :
      (k : ℕ) (s : Service) (request : Incoming) (w : World)
      → get_elem? w.heap k ≡ some (some (answering s))
      → proceed lib k true request w
        ≡ returned
            (closed k (ok_request (get_method_name s) ∷ total_duration (get_method_name s) ∷ []) w)
  unfolding proceed on_rpc_complete
  proceed-answering k s request w at = rw at refl

  pub proceed-refused :
      (k : ℕ) (s : Service) (request : Incoming) (w : World)
      → get_elem? w.heap k ≡ some (some (accepting s))
      → proceed lib k false request w ≡ returned (closed k (cancelled_request unknown ∷ []) w)
  unfolding proceed record_cancellation
  proceed-refused k s request w at = rw at refl

  pub proceed-cancelled :
      (k : ℕ) (s : Service) (request : Incoming) (w : World)
      → get_elem? w.heap k ≡ some (some (answering s))
      → proceed lib k false request w
        ≡ returned (closed k (cancelled_request (get_method_name s) ∷ []) w)
  unfolding proceed record_cancellation get_method_name
  proceed-cancelled k greeter request w at = rw at refl
  proceed-cancelled k girl_greeter request w at = rw at refl
