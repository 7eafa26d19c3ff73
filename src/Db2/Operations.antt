-- ===== src/Db2/Operations.antt =====
-- A connection from its constructor on, through any sequence of operations.
use cpp_grpc_db.Prelude.{All, ℕ, ◌<◌, true, List, [], ◌∷◌, Option, none, some, ◌≡◌, arith, Bytes}
use cpp_grpc_db.Db2.{
  Call, Driver, Connection, World, Result, done, open_connection, connect_with_dsn,
  connect_with_conn_str, disconnect_now, move_from, assign_from,
}
use cpp_grpc_db.Db2.Statements.{ParamValue, execute, execute_params}
use cpp_grpc_db.Db2.Query.{query_to_callback}
use cpp_grpc_db.Db2.Rows.{Ends}
use cpp_grpc_db.Db2.QueryLifetime.{query_to_callback-Kept}
use cpp_grpc_db.Db2.Lifetime.{is_sound, Kept, execute-Kept, execute_params-Kept}

-- `moved_on`: the move constructor, whose new object the program goes on with. `assigned`: another
-- connection is move-assigned to this one. The first argument of each is what the strings of the
-- object that was moved from are left with.
pub data Operation : Type 0 where
  connects_dsn : Bytes → Bytes → Bytes → Operation
  connects_str : Bytes → Operation
  disconnects : Operation
  executes_sql : Bytes → Operation
  executes_params : Bytes → List ParamValue → Operation
  queries : Bytes → List ParamValue → Operation
  moved_on : Connection → Operation
  assigned : Connection → Connection → Operation

-- A connection with its handles, which knows how to connect again while it counts as connected.
pub record Ready (c : Connection) : Type 0 where
  pub env : c.has_env ≡ true
  pub dbc : c.has_dbc ≡ true
  pub sound : is_sound c ≡ true

-- What is assigned has its handles, and was not moved from.
abbrev pub BringsReady : Operation → Type 0
BringsReady (assigned rest other) = Ready other
BringsReady x = Unit

-- `n` bounds the rows of a query.
module _ (d : Driver) (n : ℕ) where
  abbrev result_of : World → Option (World × Result) → World
  result_of w none = w
  result_of w (some (v, r)) = v

  -- The connection after one operation, returned or thrown.
  unfoldable pub operate : World → Operation → World
  operate w (connects_dsn dsn uid pwd) = (connect_with_dsn d dsn uid pwd w).0
  operate w (connects_str s) = (connect_with_conn_str d s w).0
  operate w disconnects = disconnect_now w
  operate w (executes_sql sql) = result_of w (execute d sql w)
  operate w (executes_params sql params) = result_of w (execute_params d sql params w)
  operate w (queries sql params) = result_of w (query_to_callback d n sql params w)
  operate w (moved_on rest) = record w { conn = (move_from rest w.conn).0 }
  operate w (assigned rest other) = (assign_from rest w other).0

  unfoldable pub operate_all : World → List Operation → World
  operate_all w [] = w
  operate_all w (x ∷ xs) = operate_all (operate w x) xs

  Kept-Ready : (w v : World) → Kept d w v → Ready w.conn → Ready v.conn
  Kept-Ready w v k h = ground arith

  module _ (ends : Ends d n) (some_fetch : 0 < n) where
    operate-Ready :
        (w : World) (x : Operation) → BringsReady x → Ready w.conn → Ready (operate w x).conn
    unfolding operate connect_with_dsn connect_with_conn_str disconnect_now move_from assign_from
    operate-Ready w (connects_dsn dsn uid pwd) given h = ground arith
    operate-Ready w (connects_str s) given h = ground arith
    operate-Ready w disconnects given h = ground arith
    operate-Ready w (executes_sql sql) given h =
        let (v, r, e, k) = execute-Kept d sql w in rw e (Kept-Ready w v k h)
    operate-Ready w (executes_params sql params) given h =
        let (v, r, e, k) = execute_params-Kept d sql params w in rw e (Kept-Ready w v k h)
    operate-Ready w (queries sql params) given h =
        let (v, r, e, k) = query_to_callback-Kept d n sql params w ends some_fetch in
        rw e (Kept-Ready w v k h)
    operate-Ready w (moved_on rest) given h = h
    operate-Ready w (assigned rest other) given h = given

    operate_all-Ready :
        (w : World) (xs : List Operation)
        → All BringsReady xs
        → Ready w.conn
        → Ready (operate_all w xs).conn
    unfolding operate_all
    operate_all-Ready w [] given h = h
    operate_all-Ready w (x ∷ xs) given h =
        operate_all-Ready (operate w x) xs given.1 (operate-Ready w x given.0 h)

  open_lem :
      (calls : List Call)
      → (open_connection d calls).1 ≡ done
      → Ready (open_connection d calls).0.conn
  unfolding open_connection
  open_lem calls h = ground arith

  -- After a constructor that does not throw, and any sequence of `connect_with_dsn`,
  -- `connect_with_conn_str`, `disconnect`, the two `execute`s, queries, moves to a new object, and move
  -- assignments of another connection that has its handles, whether they return or throw: the
  -- connection has both its handles, and if it counts as connected it knows how it was connected. The
  -- driver answers SQL_NO_DATA to the `n`th fetch of a statement at the latest.
  pub operate_all-open :
      (calls : List Call) (xs : List Operation)
      → Ends d n
      → 0 < n
      → All BringsReady xs
      → (open_connection d calls).1 ≡ done
      → Ready (operate_all (open_connection d calls).0 xs).conn
  operate_all-open calls xs ends some_fetch given h =
      operate_all-Ready ends some_fetch (open_connection d calls).0 xs given (open_lem calls h)
