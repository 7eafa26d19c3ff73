-- ===== src/Db2/Query.antt =====
-- `query_to_callback`. The number of rows is the driver's, and the loop over them is on fuel.
use cpp_grpc_db.Prelude.{
  ℕ, zero, suc, ◌+◌, not, List, [], ◌∷◌, Option, none, some, if◌then◌else◌, Bytes, codes,
}
use cpp_grpc_db.Db2.{
  Call, alloc_stmt, close_cursor, free_stmt, fetch, on_row, Driver, World, Failure, query_failed,
  row_threw, not_established, Result, done, threw, called, ok,
}
use cpp_grpc_db.Db2.Statements.{
  ParamValue, Step, finished, proceed, perform, recover, direct_calls, prepared_calls,
}

-- `prepared`: the statement is prepared if there are parameters.
unfoldable pub query_calls : Bytes → List ParamValue → List (Call × Failure)
query_calls sql [] = direct_calls sql
query_calls sql (p ∷ params) = prepared_calls sql (p ∷ params)

-- `if (st.empty()) …`
abbrev or_state : Bytes → Bytes → Bytes
or_state [] other = other
or_state (b ∷ s) other = b ∷ s

-- How a run of the query ends: with SQL_NO_DATA, with the SQLSTATE of a failure, or with an exception
-- of `on_row`.
pub data Ending : Type 0 where
  completed escaped : Ending
  failed : Bytes → Ending

abbrev pub Ran : Type 0
Ran = Option (World × Ending)

abbrev pub all_freed : Ran → Ran
all_freed none = none
all_freed (some (w, s)) = some (called free_stmt (called close_cursor w), s)

module _ (d : Driver) where
  abbrev error_state : World → Bytes
  error_state w = or_state (d.stmt_state w.calls) (or_state (d.dbc_state w.calls) (codes "HY000"))

  -- The loop over the rows.
  unfoldable pub fetch_rows : ℕ → World → Ran
  fetch_rows zero w = none
  fetch_rows (suc fuel) w =
      let v = called fetch w in
      let u = called on_row v in
      let rest = fetch_rows fuel u in
      if d.no_data v.calls
      then some (v, completed)
      else if not (ok d v)
      then some (v, failed (error_state v))
      else if d.row_throws u.calls
      then some (u, escaped)
      else rest

  unfoldable pub fetched : ℕ → World × Option Failure → Ran
  unfolding fetch_rows
  fetched fuel (w, none) = fetch_rows fuel w
  fetched fuel (w, some e) = some (w, failed (error_state w))

  -- The lambda `run_once`, with the guard of its statement.
  unfoldable pub run_once : ℕ → List (Call × Failure) → World → Ran
  unfolding fetched
  run_once fuel work w =
      let v = called alloc_stmt w in
      if not (ok d v)
      then some (v, failed (or_state (d.dbc_state v.calls) (codes "HY000")))
      else all_freed (fetched fuel (perform d work v))

  -- One round of the loop behind it.
  unfoldable pub judged : ℕ → World × Ending → World × Step
  judged attempts (w, completed) = (w, finished done)
  judged attempts (w, escaped) = (w, finished (threw row_threw))
  judged attempts (w, failed state) = recover d attempts state query_failed w

  abbrev pub after_run : Ran → (World × Ending → Option (World × Result)) → Option (World × Result)
  after_run none go = none
  after_run (some x) go = go x

  unfoldable pub query_rounds : ℕ → ℕ → List (Call × Failure) → ℕ → World → Option (World × Result)
  unfolding run_once judged
  query_rounds fuel zero work attempts w = none
  query_rounds fuel (suc left) work attempts w =
      after_run (run_once fuel work w)
        (λ x. proceed (judged attempts x) (λ v. query_rounds fuel left work (attempts + 1) v))

  -- `query_to_callback`, with fuel for the rows of each run.
  unfoldable pub query_to_callback : ℕ → Bytes → List ParamValue → World → Option (World × Result)
  unfolding query_rounds
  query_to_callback fuel sql params w =
      if not w.conn.connected
      then some (w, threw not_established)
      else query_rounds fuel 2 (query_calls sql params) 0 w
