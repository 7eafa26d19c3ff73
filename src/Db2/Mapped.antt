-- ===== src/Db2/Mapped.antt =====
-- include/db2/db2.hpp: `query` and `query_impl`, whose vector grows in the callback of
-- `query_to_callback`. What the mapper makes of a row may depend on all that the driver did so far;
-- if it throws, the vector is lost with the exception.
pub mod Repeats
use cpp_grpc_db.Prelude.{
  ℕ, zero, suc, ◌+◌, Bool, true, false, not, List, [], ◌∷◌, ◌++◌, Option, none, some, if◌then◌else◌,
  length, ◌≡◌, refl, sym, ap, subst, ◌∙◌, arith, Bytes, Bool-cases, inl, inr, append-nil,
  append_assoc, drop, ◌⊎◌, Option-cases,
}
use mathlib.Core.Option.{some-injective}
use cpp_grpc_db.Db2.{
  Call, alloc_stmt, close_cursor, free_stmt, fetch, on_row, Driver, World, Failure, query_failed,
  not_established, Result, done, threw, called, ok, sql_execute, execute_failed, try_reconnect,
  reconnect, linked, disconnect,
}
use cpp_grpc_db.Db2.Statements.{
  ParamValue, Step, again, finished, proceed, is_broken, perform, prepared_calls, binds, recover,
  reconnected,
}
use cpp_grpc_db.Db2.Query.{
  query_calls, Ran, fetch_rows, fetched, run_once, judged, query_rounds, query_to_callback,
  all_freed, after_run,
}

module _ {T : Type 0} (mapper : List Call → T) where
  -- `out.emplace_back(mapper(row))` of every call of `on_row` in a history, the last call first.
  abbrev pub mapped : List Call → List T
  mapped [] = []
  mapped (on_row ∷ calls) = mapped calls ++ mapper calls ∷ []
  mapped (c ∷ calls) = mapped calls

  -- What was appended between two states.
  abbrev pub gathered : World → World → List T
  gathered w v = drop (length (mapped w.calls)) (mapped v.calls)

  abbrev pub with_rows : World → Option (World × Result) → Option (World × (Result × List T))
  with_rows w none = none
  with_rows w (some (v, r)) = some (v, (r, gathered w v))

  unfoldable pub query_impl :
      Driver → ℕ → Bytes → List ParamValue → World → Option (World × (Result × List T))
  unfolding query_to_callback
  query_impl d fuel sql params w = with_rows w (query_to_callback d fuel sql params w)
