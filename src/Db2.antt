-- ===== src/Db2.antt =====
-- src/db2/db2.cpp, include/db2/db2.hpp: `db2::Connection`, over the DB2 call level interface. The
-- interface is the driver's: what a call returns may depend on every call before it, and is a
-- parameter. `SQLGetDiagRec` reads and leaves no trace; a failure stands for the exception, whose text
-- is that of Diagnostics. Every operation holds `mtx_` throughout, so that operations do not interleave.
pub mod Statements
pub mod Getters
pub mod Query
pub mod Rows
pub mod Operations
pub mod Lifetime
pub mod QueryLifetime
pub mod Retry
pub mod Diagnostics
pub mod Mapped
use cpp_grpc_db.Prelude.{ℕ, Bool, true, false, not, ◌&&◌, ◌||◌, List, [], ◌∷◌, if◌then◌else◌, Bytes}

-- What `SQLBindParameter` is told: the C type and the SQL type, the column size, the length of the
-- buffer and the indicator.
pub data CType : Type 0 where
  c_char c_slong c_sbigint c_double : CType

pub data SqlType : Type 0 where
  varchar integer bigint double : SqlType

pub data Indicator : Type 0 where
  null_data nts : Indicator
  bytes : ℕ → Indicator

pub record Binding : Type 0 where
  pub c_type : CType
  pub sql_type : SqlType
  pub col_def : ℕ
  pub buffer_len : ℕ
  pub indicator : Indicator

-- The calls of the driver, and that of `on_row`.
pub data Call : Type 0 where
  alloc_env set_odbc_version alloc_dbc disconnect free_dbc free_env : Call
  sql_connect : Bytes → Bytes → Bytes → Call
  driver_connect : Bytes → Call
  alloc_stmt close_cursor free_stmt : Call
  exec_direct prepare : Bytes → Call
  bind_parameter : ℕ → Binding → Call
  sql_execute fetch on_row : Call

-- The answers, given the calls so far, the last one first: whether that one returned SQL_SUCCESS
-- or SQL_SUCCESS_WITH_INFO, or SQL_NO_DATA, and the first SQLSTATE of the connection and of the
-- statement, which is empty if there is none. `row_throws`: `on_row`, called last, threw.
pub record Driver : Type 0 where
  pub succeeds : List Call → Bool
  pub no_data : List Call → Bool
  pub dbc_state : List Call → Bytes
  pub stmt_state : List Call → Bytes
  pub row_throws : List Call → Bool

pub data ConnMode : Type 0 where
  no_mode dsn_mode conn_str_mode : ConnMode

-- `has_env` and `has_dbc`: `henv_` and `hdbc_` are not 0.
pub record Connection : Type 0 where
  pub has_env : Bool
  pub has_dbc : Bool
  pub connected : Bool
  pub mode : ConnMode
  pub dsn : Bytes
  pub uid : Bytes
  pub pwd : Bytes
  pub conn_str : Bytes

pub record World : Type 0 where
  pub conn : Connection
  pub calls : List Call

pub data Failure : Type 0 where
  env_failed odbc_version_failed dbc_failed : Failure
  not_established connect_failed driver_connect_failed : Failure
  alloc_failed exec_direct_failed prepare_failed bind_failed execute_failed query_failed row_threw :
      Failure

pub data Result : Type 0 where
  done : Result
  threw : Failure → Result

abbrev pub called : Call → World → World
called c w = record w { calls = c ∷ w.calls }

abbrev pub is_nil : Bytes → Bool
is_nil [] = true
is_nil (b ∷ bs) = false

-- A member that holds no handles.
abbrev pub unset : Connection
unset = record {
  has_env = false;
  has_dbc = false;
  connected = false;
  mode = no_mode;
  dsn = [];
  uid = [];
  pwd = [];
  conn_str = [];
}

-- `cleanup_locked`.
unfoldable pub hang_up : World → World
hang_up w =
    if w.conn.connected
    then called disconnect (record w { conn = record w.conn { connected = false } })
    else w

unfoldable pub free_connection : World → World
unfolding hang_up
free_connection w =
    if w.conn.has_dbc
    then (let v = called free_dbc (hang_up w) in
        record v { conn = record v.conn { has_dbc = false } })
    else w

unfoldable pub cleanup : World → World
unfolding free_connection
cleanup w =
    let v = free_connection w in
    if v.conn.has_env
    then called free_env (record v { conn = record v.conn { has_env = false } })
    else v

-- `disconnect`.
unfoldable pub disconnect_now : World → World
disconnect_now w =
    if w.conn.connected && w.conn.has_dbc
    then called disconnect (record w { conn = record w.conn { connected = false } })
    else w

-- The move constructor: the new connection, and what is left of the other one. The contents of a
-- string that was moved from are unspecified, and are those of `rest`.
unfoldable pub move_from : Connection → Connection → Connection × Connection
move_from rest other =
    (other, record rest { has_env = false; has_dbc = false; connected = false; mode = no_mode })

-- The move assignment between two objects; that to itself does nothing.
unfoldable pub assign_from : Connection → World → Connection → World × Connection
unfolding cleanup move_from
assign_from rest w other =
    let v = cleanup w in let (mine, left) = move_from rest other in (record v { conn = mine }, left)

module _ (d : Driver) where
  abbrev pub ok : World → Bool
  ok w = d.succeeds w.calls

  -- The constructor.
  unfoldable pub open_connection : List Call → World × Result
  open_connection calls =
      let w1 = called alloc_env (record { conn = unset; calls = calls }) in
      let w2 = called set_odbc_version w1 in
      let w3 = called alloc_dbc w2 in
      if not (ok w1)
      then (w1, threw env_failed)
      else if not (ok w2)
      then (called free_env w2, threw odbc_version_failed)
      else if not (ok w3)
      then (called free_env w3, threw dbc_failed)
      else (record w3 { conn = record unset { has_env = true; has_dbc = true } }, done)

  unfoldable pub connect_with_dsn : Bytes → Bytes → Bytes → World → World × Result
  connect_with_dsn dsn uid pwd w =
      let v = called (sql_connect dsn uid pwd) w in
      if w.conn.connected then (w, done) else if not (ok v) then (v, threw connect_failed) else (
        record v {
          conn = record v.conn {
            connected = true;
            mode = dsn_mode;
            dsn = dsn;
            uid = uid;
            pwd = pwd;
            conn_str = [];
          };
        },
        done,
      )

  unfoldable pub connect_with_conn_str : Bytes → World → World × Result
  connect_with_conn_str cs w =
      let v = called (driver_connect cs) w in
      if w.conn.connected
      then (w, done)
      else if not (ok v)
      then (v, threw driver_connect_failed)
      else (
        record v {
          conn = record v.conn {
            connected = true;
            mode = conn_str_mode;
            conn_str = cs;
            dsn = [];
            uid = [];
            pwd = [];
          };
        },
        done,
      )

  -- The end of `try_reconnect_locked`, behind the call that connects.
  unfoldable pub linked : World → World × Bool
  linked w =
      if ok w then (record w { conn = record w.conn { connected = true } }, true) else (w, false)

  -- Its `switch`.
  unfoldable pub reconnect : ConnMode → World → World × Bool
  unfolding linked
  reconnect no_mode w = (w, false)
  reconnect dsn_mode w =
      if is_nil w.conn.dsn
      then (w, false)
      else linked (called (sql_connect w.conn.dsn w.conn.uid w.conn.pwd) w)
  reconnect conn_str_mode w =
      if is_nil w.conn.conn_str
      then (w, false)
      else linked (called (driver_connect w.conn.conn_str) w)

  unfoldable pub try_reconnect : World → World × Bool
  unfolding reconnect
  try_reconnect w =
      if not w.conn.has_dbc || not w.conn.has_env
      then (w, false)
      else reconnect w.conn.mode
          (called disconnect (record w { conn = record w.conn { connected = false } }))
