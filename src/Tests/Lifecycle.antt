-- ===== src/Tests/Lifecycle.antt =====
-- The asynchronous server from its start to its end.
use mathlib.Core.Option.{some-injective}
use cpp_grpc_db.Prelude.{ℕ, true, List, [], ◌∷◌, ◌++◌, some, length, ◌≡◌, refl, arith, subst}
use cpp_grpc_db.Interleaving.{step, run, Follows}
use cpp_grpc_db.CallData.{Incoming, Library, proceed}
use cpp_grpc_db.CqServer.{Completion, spawn_handlers}
use cpp_grpc_db.CqServer
use cpp_grpc_db.CqServer.Draining.{failing}
use cpp_grpc_db.CqServer.Lifecycle.{
  awaiting, proceeding, adding, steps, completes, Event, move, launched, main_program,
}
use cpp_grpc_db.CqServer.Lifecycle.Early.{early, Hangs, early_signal-Hangs}
use cpp_grpc_db.CqServer.Lifecycle.Stopping.{winding_up, Wound, main_program-Wound}
use cpp_grpc_db.CqServer.Lifecycle.Standing.{three}
use cpp_grpc_db.CqServer.Lifecycle.Late.{NoRequest, main_program-late}

abbrev library : Library
library = record {
  utf8_to_big5 = some;
  hello_request_size = λ r. length r.name;
  girl_request_size = λ r. length r.name;
  reply_size = λ r. 7;
}

abbrev eve : Incoming
eve = record {
  hello = record { name = [] };
  girl = record { name = []; spouse = []; first_round = 3; secret_note = [] };
}

-- `Run` up to `Next`.
abbrev up : List (ℕ × Event)
up = (1, steps) ∷ (1, steps) ∷ (1, steps) ∷ []

early_signal-Hangs_example : Hangs (main_program library (early ++ up ++ early))
early_signal-Hangs_example = early_signal-Hangs library (up ++ early)

main_program-Wound_example : Wound (
    main_program library (
      (up ++ early)
      ++ winding_up eve (length (main_program library (up ++ early)).shared.world.pending)))
unfolding run step move spawn_handlers
main_program-Wound_example = main_program-Wound library (up ++ early) eve refl refl refl

-- The greeter's handler gets a request, and proceeds once the queue is shut down.
abbrev late_request : List (ℕ × Event)
late_request =
    up
    ++ (1, completes (record { place = 1; ok = true; request = eve })) ∷ (early ++ (1, steps) ∷ [])

late_request_starts : (main_program library late_request).shared.late ≡ 2
unfolding run step move spawn_handlers CqServer.handle_rpc proceed
late_request_starts = refl

-- The queue is shut down, and an operation completes with `ok` false.
abbrev nothing_late : List (ℕ × Event)
nothing_late = up ++ early ++ (1, completes (failing eve)) ∷ (1, steps) ∷ []

nothing_late-Follows :
    Follows (move library) NoRequest (three launched awaiting adding) nothing_late
unfolding run step move spawn_handlers
nothing_late-Follows = (
  λ pc at. ground arith,
  (
    λ pc at. ground arith,
    (
      λ pc at. ground arith,
      (
        λ pc at. ground arith,
        (
          λ pc at. ground arith,
          (
            λ pc at. ground arith,
            (
              λ pc at. ground arith,
              (
                λ pc at. ground arith,
                (
                  λ pc at.
                      subst
                        (λ q.
                          NoRequest
                            (run (move library) (three launched awaiting adding)
                              (up ++ early)).shared
                            q steps)
                        (some-injective (proceeding (failing eve)) pc at)
                        (λ shut k s here there. refl),
                  tt,
                ),
              ),
            ),
          ),
        ),
      ),
    ),
  ),
)

none_started_late : (main_program library nothing_late).shared.late ≡ 0
none_started_late = main_program-late library nothing_late nothing_late-Follows
