-- ===== src/CqServer/Metrics.antt =====
-- What the metrics count, and how many handlers wait for a request, in one round of the loop.
use cpp_grpc_db.Prelude.{
  ℕ, ◌+◌, ◌≤◌, List, [], ◌∷◌, ◌++◌, Option, none, some, get_elem?, get_elem?-append, if◌then◌else◌,
  total, total-set, total-append, same_bytes, Bytes, ◌≡◌, refl, arith,
}
use cpp_grpc_db.CallData.{
  Reply, Service, greeter, girl_greeter, process, finish, Library, CallObject, Sample, ok_request,
  cancelled_request, total_duration, request_bytes, World, get_method_name,
}
use cpp_grpc_db.CqServer.{Completion}
use cpp_grpc_db.CqServer.Objects.{accepting, answering, unknown, closed, opened}
use cpp_grpc_db.CqServer.Effects.{taken}

abbrev pub labelled : Bytes → Bytes → ℕ
labelled name label = if same_bytes label name then 1 else 0

-- The samples of a method: a request was received; one was finished, or cancelled.
abbrev pub receipts : Service → Sample → ℕ
receipts s (request_bytes label n) = labelled (get_method_name s) label
receipts s x = 0

abbrev pub endings : Service → Sample → ℕ
endings s (ok_request label) = labelled (get_method_name s) label
endings s (cancelled_request label) = labelled (get_method_name s) label
endings s x = 0

-- A handler was cancelled before it had a request.
abbrev pub refusals : Sample → ℕ
refusals (cancelled_request label) = labelled unknown label
refusals x = 0

abbrev pub one_of : Service → Service → ℕ
one_of greeter greeter = 1
one_of girl_greeter girl_greeter = 1
one_of s t = 0

-- The objects of a service that answer, and those that accept.
abbrev pub in_flight : Service → Option CallObject → ℕ
in_flight s none = 0
in_flight s (some c) = elim c.status [ finish ↦ one_of s c.service | _ ↦ 0 ]

abbrev pub acceptors : Service → Option CallObject → ℕ
acceptors s none = 0
acceptors s (some c) = elim c.status [ process ↦ one_of s c.service | _ ↦ 0 ]

pub one_of_both : (s : Service) → one_of greeter s + one_of girl_greeter s ≡ 1
one_of_both greeter = refl
one_of_both girl_greeter = refl

pub own_label : (s t : Service) → labelled (get_method_name s) (get_method_name t) ≡ one_of s t
unfolding get_method_name
own_label greeter greeter = refl
own_label greeter girl_greeter = refl
own_label girl_greeter greeter = refl
own_label girl_greeter girl_greeter = refl

pub unknown_label :
    (s : Service)
    → (labelled (get_method_name s) unknown ≡ 0) × (labelled unknown (get_method_name s) ≡ 0)
unfolding get_method_name
unknown_label greeter = (refl, refl)
unknown_label girl_greeter = (refl, refl)

-- For each service: the requests received are those that ended and those in flight, and at most
-- one object accepts. The two services lose an acceptor for each refusal.
pub record Ledger (w : World) : Type 0 where
  pub flow :
      (s : Service)
      → total (receipts s) w.samples ≡ total (endings s) w.samples + total (in_flight s) w.heap
  pub at_most : (s : Service) → total (acceptors s) w.heap ≤ 1
  pub open_to :
      total (acceptors greeter) w.heap
        + total (acceptors girl_greeter) w.heap
        + total refusals w.samples
      ≡ 2

-- What the samples of an ending object add.
pub record Adds (o : CallObject) (xs : List Sample) : Type 0 where
  no_receipt : (t : Service) → total (receipts t) xs ≡ 0
  ends : (t : Service) → total (endings t) xs ≡ in_flight t (some o)
  refuses : total refusals xs ≡ acceptors greeter (some o) + acceptors girl_greeter (some o)

pub closed-Ledger :
    (w : World) (c : Completion) (k : ℕ) (o : CallObject) (xs : List Sample)
    → get_elem? w.heap k ≡ some (some o)
    → Adds o xs
    → Ledger w
    → Ledger (closed k xs (taken w c))
closed-Ledger w c k o xs there adds l = record {
  flow = λ t. omega (
    arith,
    l.flow t,
    adds.no_receipt t,
    adds.ends t,
    total-append (receipts t) xs w.samples,
    total-append (endings t) xs w.samples,
    total-set (in_flight t) w.heap k none {x = some o} there,
  );
  at_most =
      λ t. omega (arith, l.at_most t, total-set (acceptors t) w.heap k none {x = some o} there);
  open_to = omega (
    arith,
    l.open_to,
    adds.refuses,
    total-append refusals xs w.samples,
    total-set (acceptors greeter) w.heap k none {x = some o} there,
    total-set (acceptors girl_greeter) w.heap k none {x = some o} there,
  );
}

pub sent-Adds :
    (s : Service)
    → Adds (answering s) (ok_request (get_method_name s) ∷ total_duration (get_method_name s) ∷ [])
unfolding total
sent-Adds s = record {
  no_receipt = λ t. refl;
  ends = λ t. omega (arith, own_label t s);
  refuses = refl;
}

pub refused-Adds : (s : Service) → Adds (accepting s) (cancelled_request unknown ∷ [])
unfolding total
refused-Adds s = record {
  no_receipt = λ t. refl;
  ends = λ t. omega (arith, (unknown_label t).0);
  refuses = omega (arith, one_of_both s);
}

pub cancelled-Adds : (s : Service) → Adds (answering s) (cancelled_request (get_method_name s) ∷ [])
unfolding total
cancelled-Adds s = record {
  no_receipt = λ t. refl;
  ends = λ t. omega (arith, own_label t s);
  refuses = omega (arith, (unknown_label s).1);
}

pub opened-Ledger :
    (lib : Library) (w : World) (c : Completion) (k : ℕ) (s : Service) (reply : Reply)
    → get_elem? w.heap k ≡ some (some (accepting s))
    → Ledger w
    → Ledger (opened lib k s c.request reply (taken w c))
unfolding total
opened-Ledger lib w c k s reply there l =
    let grown = w.heap ++ some (accepting s) ∷ [] in
    let here = get_elem?-append w.heap (some (accepting s) ∷ []) k {x = some (accepting s)} there in
    let change = λ (f : Option CallObject → ℕ).
      total-set f grown k (some (answering s)) {x = some (accepting s)} here in
    let growth = λ (f : Option CallObject → ℕ). total-append f w.heap (some (accepting s) ∷ []) in
    record {
      flow =
          λ t. omega (arith, l.flow t, own_label t s, change (in_flight t), growth (in_flight t));
      at_most = λ t. omega (arith, l.at_most t, change (acceptors t), growth (acceptors t));
      open_to = omega (
        arith,
        l.open_to,
        change (acceptors greeter),
        growth (acceptors greeter),
        change (acceptors girl_greeter),
        growth (acceptors girl_greeter),
      );
    }
