-- ===== src/Tests/Database.antt =====
-- The DB2 connection.
use cpp_grpc_db.Prelude.{
  ℕ, zero, suc, replicate, ◌++◌, ◌+◌, ◌≤◌, Bool, true, false, List, [], ◌∷◌, some, ◌≡◌, refl, arith,
  codes, leb, le→leb, Bytes, ◌||◌, Option, none,
}
use cpp_grpc_db.Db2.{
  unset, Connection, Call, fetch, exec_direct, sql_execute, sql_connect, dsn_mode, Driver, World,
  Result, done, threw, row_threw, try_reconnect, reconnect, linked, open_connection,
}
use cpp_grpc_db.Db2.Statements.{
  execute, execute_params, int32, text, round, rounds, perform, recover, performed, is_broken,
  reconnected,
}
use cpp_grpc_db.Db2.Retry.{connects, executes, execute_retries, execute_params_retries}
use cpp_grpc_db.Db2.Rows.{fetches, query_retries}
use cpp_grpc_db.Db2.Query.{query_to_callback, query_calls, run_once, fetch_rows, judged}
use cpp_grpc_db.Db2.Mapped.{query_impl}
use cpp_grpc_db.Db2.Mapped.Repeats.{Returned, query_impl-Returned}
use cpp_grpc_db.Db2.Lifetime.{Kept, execute_params-Kept}
use cpp_grpc_db.Db2.QueryLifetime.{query_to_callback-Kept}
use cpp_grpc_db.Db2.Operations.{
  Operation, queries, moved_on, assigned, operate_all, operate_all-open, Ready, connects_dsn,
  executes_sql, disconnects,
}
use cpp_grpc_db.Db2.Getters.{success, success_with_info, counted, Answer, get_string}
use cpp_grpc_db.Db2.Getters.Pieces.{Delivers}
use cpp_grpc_db.Db2.Getters.Texts.{as_read, get_string_lem}

-- A driver whose first connection is broken, and whose result sets have one row.
abbrev flaky_succeeds : List Call → Bool
flaky_succeeds (exec_direct sql ∷ calls) = leb 2 (connects calls)
flaky_succeeds (sql_execute ∷ calls) = leb 2 (connects calls)
flaky_succeeds calls = true

abbrev flaky : Driver
flaky = record {
  succeeds = flaky_succeeds;
  no_data = λ calls. leb 2 (fetches calls);
  dbc_state = λ calls. [];
  stmt_state = λ calls. codes "08001";
  row_throws = λ calls. false;
}

abbrev online : World
online = record {
  conn = record {
    has_env = true;
    has_dbc = true;
    connected = true;
    mode = dsn_mode;
    dsn = codes "SAMPLE";
    uid = codes "user";
    pwd = codes "secret";
    conn_str = [];
  };
  calls = sql_connect (codes "SAMPLE") (codes "user") (codes "secret") ∷ [];
}

execute_retries_example :
    (v : World) × (r : Result) × (execute flaky (codes "DELETE") online ≡ some (v, r))
    × (connects v.calls ≤ connects online.calls + 1)
    × (executes v.calls ≤ executes online.calls + 2)
execute_retries_example = execute_retries flaky (codes "DELETE") online

execute_params_retries_example :
    (v : World) × (r : Result) × (execute_params flaky
        (codes "INSERT")
        (int32 7 ∷ text (codes "a") ∷ [])
        online
      ≡ some (v, r))
    × (connects v.calls ≤ connects online.calls + 3)
    × (executes v.calls ≤ executes online.calls + 4)
execute_params_retries_example =
    execute_params_retries flaky (codes "INSERT") (int32 7 ∷ text (codes "a") ∷ []) online

flaky_query_returns :
    (v : World) × (r : Result) × (query_to_callback flaky 2 (codes "SELECT") [] online
      ≡ some (v, r))
    × (connects v.calls ≤ connects online.calls + 1)
    × (executes v.calls ≤ executes online.calls + 2)
flaky_query_returns =
    query_retries flaky 2 (λ calls. le→leb 2 (fetches calls)) (omega arith) (codes "SELECT") []
      online

query_to_callback-Kept_example :
    (v : World) × (r : Result) × (query_to_callback flaky 2 (codes "SELECT") (int32 7 ∷ []) online
      ≡ some (v, r))
    × Kept flaky online v
query_to_callback-Kept_example =
    query_to_callback-Kept flaky 2 (codes "SELECT") (int32 7 ∷ []) online
      (λ calls. le→leb 2 (fetches calls)) (omega arith)

flaky_execute_is_sound :
    (v : World) × (r : Result) × (execute_params flaky (codes "INSERT") (int32 7 ∷ []) online
      ≡ some (v, r))
    × Kept flaky online v
flaky_execute_is_sound = execute_params-Kept flaky (codes "INSERT") (int32 7 ∷ []) online

-- A connection with its handles, to be moved from.
abbrev another : Connection
another = (open_connection flaky []).0.conn

abbrev several : List Operation
several =
    connects_dsn (codes "SAMPLE") (codes "user") (codes "secret")
    ∷ executes_sql (codes "DELETE")
    ∷ queries (codes "SELECT") []
    ∷ moved_on unset
    ∷ disconnects
    ∷ assigned unset another
    ∷ []

operate_all-open_example : Ready (operate_all flaky 2 (open_connection flaky []).0 several).conn
unfolding open_connection
operate_all-open_example =
    operate_all-open flaky 2 [] several (λ calls. le→leb 2 (fetches calls)) (omega arith)
      (tt, (tt, (tt, (tt, (tt, (record { env = refl; dbc = refl; sound = refl }, tt)))))) refl

-- The retried statement succeeds.
second_try_runs :
    (v : World) × (execute flaky (codes "DELETE") online ≡ some (v, done)) × (executes v.calls ≡ 2)
unfolding execute rounds round perform recover performed reconnected try_reconnect reconnect linked
    is_broken
second_try_runs = (_, refl, refl)

-- A column of 300 bytes, which `SQLGetData` delivers in two pieces.
abbrev long_text : Bytes
long_text = replicate 300 b'x'

abbrev two_pieces : ℕ → ℕ → Answer
two_pieces zero size = record {
  rc = success_with_info;
  buffer = replicate 255 b'x' ++ 0 ∷ [];
  ind = counted 300;
}
two_pieces (suc i) size = record {
  rc = success;
  buffer = replicate 45 b'x' ++ replicate 467 0;
  ind = counted 45;
}

two_pieces-Delivers : Delivers two_pieces long_text
two_pieces-Delivers = record {
  first = record {
    told = refl;
    sized = refl;
    fits = λ small. absurd (omega (arith, small));
    cut = λ large. (refl, refl);
  };
  second = λ large. record {
    told = refl;
    sized = refl;
    fits = λ small. (refl, refl);
    cut = λ wide. absurd (omega (arith, wide));
  };
}

get_string_lem_example : get_string 2 two_pieces ≡ as_read long_text
get_string_lem_example = get_string_lem two_pieces long_text 0 two_pieces-Delivers

-- A driver whose first connection breaks behind the first row, and whose result sets have two rows.
abbrev dropping_succeeds : List Call → Bool
dropping_succeeds (fetch ∷ calls) = leb 2 (connects calls) || leb (fetches (fetch ∷ calls)) 1
dropping_succeeds calls = true

abbrev dropping : Driver
dropping = record flaky { succeeds = dropping_succeeds; no_data = λ calls. leb 3 (fetches calls) }

-- The number of the row in its result set.
abbrev row_number : List Call → ℕ
row_number calls = fetches calls

abbrev landed : Option (World × (Result × List ℕ)) → World
landed none = online
landed (some (v, out)) = v

abbrev read_rows : Option (World × (Result × List ℕ))
read_rows = query_impl row_number dropping 4 (codes "SELECT") [] online

first_row_twice : read_rows ≡ some (landed read_rows, (done, 1 ∷ 1 ∷ 2 ∷ []))
unfolding query_impl try_reconnect reconnect linked recover is_broken reconnected perform run_once
    fetch_rows judged query_calls
first_row_twice = refl

query_impl-Returned_example :
    Returned row_number dropping 4
      (query_calls (codes "SELECT") [])
      online
      (landed read_rows)
      (1 ∷ 1 ∷ 2 ∷ [])
query_impl-Returned_example =
    query_impl-Returned row_number dropping 4 (codes "SELECT") [] online (landed read_rows)
      (1 ∷ 1 ∷ 2 ∷ []) first_row_twice

-- The mapper throws at the first row: there is no second run.
abbrev row_throwing : Driver
row_throwing = record dropping { row_throws = λ calls. true }

throwing_row_ends_query :
    query_to_callback row_throwing 4 (codes "SELECT") [] online
    ≡ some
        (landed (query_impl row_number row_throwing 4 (codes "SELECT") [] online), threw row_threw)
unfolding query_to_callback query_impl perform run_once fetch_rows judged query_calls
throwing_row_ends_query = refl
