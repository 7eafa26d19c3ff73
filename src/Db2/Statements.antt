-- ===== src/Db2/Statements.antt =====
-- src/db2/db2.cpp: `execute` and `execute_prepared_locked`, and what `query_to_callback` shares with them.
use cpp_grpc_db.Prelude.{
  ℕ, zero, suc, ◌+◌, ◌%◌, ◌^◌, Bool, true, false, not, ◌&&◌, ◌||◌, List, [], ◌∷◌, ◌++◌, Option,
  none, some, ◌==◌, if◌then◌else◌, length, max, Bytes, codes, same_bytes,
}
use cpp_grpc_db.Db2.{
  c_char, c_slong, c_sbigint, c_double, varchar, integer, bigint, double, null_data, nts, bytes,
  Binding, Call, alloc_stmt, close_cursor, free_stmt, exec_direct, prepare, bind_parameter,
  sql_execute, Driver, World, Failure, not_established, alloc_failed, exec_direct_failed,
  prepare_failed, bind_failed, execute_failed, Result, done, threw, called, ok, try_reconnect,
}

-- `ParamValue`; the numbers are bit patterns.
pub data ParamValue : Type 0 where
  null_value : ParamValue
  int32 int64 float64 : ℕ → ParamValue
  text : Bytes → ParamValue

unfoldable pub binding : ParamValue → Binding
binding null_value = record {
  c_type = c_char;
  sql_type = varchar;
  col_def = 1;
  buffer_len = 1;
  indicator = null_data;
}
binding (int32 v) = record {
  c_type = c_slong;
  sql_type = integer;
  col_def = 0;
  buffer_len = 4;
  indicator = bytes 4;
}
binding (int64 v) = record {
  c_type = c_sbigint;
  sql_type = bigint;
  col_def = 0;
  buffer_len = 8;
  indicator = bytes 8;
}
binding (float64 v) = record {
  c_type = c_double;
  sql_type = double;
  col_def = 0;
  buffer_len = 8;
  indicator = bytes 8;
}
binding (text s) = record {
  c_type = c_char;
  sql_type = varchar;
  col_def = max (max (length s) 4096) 1;
  buffer_len = length s + 1;
  indicator = nts;
}

abbrev starts_08 : Bytes → Bool
starts_08 (a ∷ b ∷ rest) = (a == b'0') && (b == b'8')
starts_08 s = false

-- `is_connection_broken_sqlstate`.
unfoldable pub is_broken : Bytes → Bool
is_broken s =
    starts_08 s
    || same_bytes s (codes "40003")
    || same_bytes s (codes "HYT00")
    || same_bytes s (codes "HYT01")
    || same_bytes s (codes "58004")

-- The calls on a statement handle, each with the exception that its failure leads to. The number of
-- a parameter is a word of 16 bits.
unfoldable pub binds : ℕ → List ParamValue → List (Call × Failure)
unfolding binding
binds i [] = []
binds i (v ∷ params) = (bind_parameter (i % 2 ^ 16) (binding v), bind_failed) ∷ binds (i + 1) params

abbrev pub direct_calls : Bytes → List (Call × Failure)
direct_calls sql = (exec_direct sql, exec_direct_failed) ∷ []

unfoldable pub prepared_calls : Bytes → List ParamValue → List (Call × Failure)
unfolding binds
prepared_calls sql params =
    (prepare sql, prepare_failed) ∷ (binds 1 params ++ (sql_execute, execute_failed) ∷ [])

-- How a round of a retry loop ends.
pub data Step : Type 0 where
  finished : Result → Step
  again : Step

-- The guard's destructor.
abbrev pub freed : World × Step → World × Step
freed x = (called free_stmt (called close_cursor x.0), x.1)

-- The end of a round: the loop is left, or goes on.
abbrev pub proceed : World × Step → (World → Option (World × Result)) → Option (World × Result)
proceed (w, finished r) go = some (w, r)
proceed (w, again) go = go w

module _ (d : Driver) where
  -- The calls in turn, up to the first that fails.
  unfoldable pub perform : List (Call × Failure) → World → World × Option Failure
  perform [] w = (w, none)
  perform ((c, e) ∷ rest) w =
      let v = called c w in let others = perform rest v in if ok d v then others else (v, some e)

  unfoldable pub reconnected : Failure → World × Bool → World × Step
  reconnected e (w, true) = (w, again)
  reconnected e (w, false) = (w, finished (threw e))

  -- `if (attempts == 0 && … && try_reconnect_locked()) { ++attempts; continue; } throw …`
  unfoldable pub recover : ℕ → Bytes → Failure → World → World × Step
  unfolding reconnected
  recover attempts state e w =
      if attempts == 0 && is_broken state
      then reconnected e (try_reconnect d w)
      else (w, finished (threw e))

  unfoldable pub performed : ℕ → World × Option Failure → World × Step
  unfolding recover
  performed attempts (w, none) = (w, finished done)
  performed attempts (w, some e) = recover attempts (d.stmt_state w.calls) e w

  -- One round of the loop of `execute` or `execute_prepared_locked`. The guard of the statement is
  -- destroyed at the end of the round, behind a reconnection.
  unfoldable pub round : List (Call × Failure) → ℕ → World → World × Step
  unfolding recover performed
  round work attempts w =
      let v = called alloc_stmt w in
      if not (ok d v)
      then recover attempts (d.dbc_state v.calls) alloc_failed v
      else freed (performed attempts (perform work v))

  -- The loop, on fuel.
  unfoldable pub rounds : ℕ → List (Call × Failure) → ℕ → World → Option (World × Result)
  rounds zero work attempts w = none
  rounds (suc fuel) work attempts w =
      proceed (round work attempts w) (λ v. rounds fuel work (attempts + 1) v)

  -- `execute(sql)`.
  unfoldable pub execute : Bytes → World → Option (World × Result)
  execute sql w =
      if not w.conn.connected
      then some (w, threw not_established)
      else rounds 2 (direct_calls sql) 0 w

  -- One round of the loop of `execute(sql, params)`, behind `execute_prepared_locked`.
  unfoldable pub caught : ℕ → World × Result → World × Step
  unfolding recover
  caught attempts (w, done) = (w, finished done)
  caught attempts (w, threw e) = recover attempts (d.dbc_state w.calls) e w

  abbrev pub behind :
      Option (World × Result) → (World × Result → Option (World × Result)) → Option (World × Result)
  behind none go = none
  behind (some x) go = go x

  unfoldable pub outer : ℕ → List (Call × Failure) → ℕ → World → Option (World × Result)
  outer zero work attempts w = none
  outer (suc fuel) work attempts w =
      behind (rounds 2 work 0 w)
        (λ x. proceed (caught attempts x) (λ v. outer fuel work (attempts + 1) v))

  unfoldable pub execute_params : Bytes → List ParamValue → World → Option (World × Result)
  execute_params sql params w =
      if not w.conn.connected
      then some (w, threw not_established)
      else outer 2 (prepared_calls sql params) 0 w
