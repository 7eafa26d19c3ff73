-- ===== src/Db2/Retry.antt =====
-- How often the retry loops connect and execute, and that they end.
use cpp_grpc_db.Prelude.{
  ℕ, zero, suc, ◌+◌, ◌≤◌, Bool, true, false, not, List, [], ◌∷◌, ◌++◌, Option, none, some,
  if◌then◌else◌, ◌≡◌, refl, arith, Bytes, Bool-cases, inl, inr,
}
use cpp_grpc_db.Db2.{
  ok, alloc_failed, execute_failed, not_established, Call, disconnect, sql_connect, driver_connect,
  alloc_stmt, exec_direct, sql_execute, ConnMode, no_mode, dsn_mode, conn_str_mode, Driver, World,
  Failure, Result, done, threw, called, try_reconnect, reconnect, linked,
}
use cpp_grpc_db.Db2.Statements.{
  proceed, ParamValue, Step, finished, again, perform, reconnected, recover, performed, round,
  rounds, execute, caught, outer, execute_params, binds, direct_calls, prepared_calls,
}

-- The calls that connect, and those that execute.
abbrev pub links : Call → ℕ
links (sql_connect a b c) = 1
links (driver_connect s) = 1
links c = 0

abbrev pub runs : Call → ℕ
runs (exec_direct sql) = 1
runs sql_execute = 1
runs c = 0

abbrev pub connects : List Call → ℕ
connects [] = 0
connects (c ∷ calls) = links c + connects calls

abbrev pub executes : List Call → ℕ
executes [] = 0
executes (c ∷ calls) = runs c + executes calls

abbrev pub work_connects : List (Call × Failure) → ℕ
work_connects [] = 0
work_connects ((c, e) ∷ work) = links c + work_connects work

abbrev pub work_executes : List (Call × Failure) → ℕ
work_executes [] = 0
work_executes ((c, e) ∷ work) = runs c + work_executes work

module _ (d : Driver) where
  -- What a round of attempt 0 may connect in addition.
  abbrev pub spare : ℕ → ℕ
  spare zero = 1
  spare (suc a) = 0

  -- The calls from `w` to `v` connect at most `l` times and execute at most `r` times.
  pub record Costs (w v : World) (l r : ℕ) : Type 0 where
    pub linked_at_most : connects v.calls ≤ connects w.calls + l
    pub run_at_most : executes v.calls ≤ executes w.calls + r

  linked-Costs : (w : World) → Costs w (linked d w).0 0 0
  unfolding linked
  linked-Costs w = ground arith

  reconnect-Costs : (m : ConnMode) (w : World) → Costs w (reconnect d m w).0 1 0
  unfolding reconnect linked
  reconnect-Costs no_mode w = ground arith
  reconnect-Costs dsn_mode w = ground arith
  reconnect-Costs conn_str_mode w = ground arith

  try_reconnect-Costs : (w : World) → Costs w (try_reconnect d w).0 1 0
  unfolding try_reconnect
  try_reconnect-Costs w =
      let c =
        reconnect-Costs w.conn.mode
          (called disconnect (record w { conn = record w.conn { connected = false } })) in
      ground arith

  reconnected_lem : (e : Failure) (x : World × Bool) → (reconnected d e x).0 ≡ x.0
  unfolding reconnected
  reconnected_lem e (w, true) = refl
  reconnected_lem e (w, false) = refl

  pub recover-Costs :
      (a : ℕ) (st : Bytes) (e : Failure) (w : World) → Costs w (recover d a st e w).0 (spare a) 0
  unfolding recover
  recover-Costs zero st e w =
      let c = try_reconnect-Costs w in
      let same = reconnected_lem e (try_reconnect d w) in ground arith
  recover-Costs (suc a) st e w = ground arith

  pub recover_last :
      (a : ℕ) (st : Bytes) (e : Failure) (w : World)
      → (recover d (suc a) st e w).1 ≡ finished (threw e)
  unfolding recover
  recover_last a st e w = ground arith

  pub perform-Costs :
      (work : List (Call × Failure)) (w : World)
      → Costs w (perform d work w).0 (work_connects work) (work_executes work)
  unfolding perform
  perform-Costs [] w = ground arith
  perform-Costs ((c, e) ∷ rest) w = let more = perform-Costs rest (called c w) in ground arith

  performed-Costs : (a : ℕ) (x : World × Option Failure) → Costs x.0 (performed d a x).0 (spare a) 0
  unfolding performed
  performed-Costs a (w, none) = ground arith
  performed-Costs a (w, some e) = recover-Costs a (d.stmt_state w.calls) e w

  performed_last :
      (a : ℕ) (x : World × Option Failure) → (r : Result) × ((performed d (suc a) x).1 ≡ finished r)
  unfolding performed
  performed_last a (w, none) = (done, refl)
  performed_last a (w, some e) = (threw e, recover_last a (d.stmt_state w.calls) e w)

  round-Costs :
      (work : List (Call × Failure)) (a : ℕ) (w : World)
      → Costs w (round d work a w).0 (work_connects work + spare a) (work_executes work)
  unfolding round
  round-Costs work a w =
      let v = called alloc_stmt w in
      let lost = recover-Costs a (d.dbc_state v.calls) alloc_failed v in
      let worked = perform-Costs work v in
      let ended = performed-Costs a (perform d work v) in ground arith

  round_last :
      (work : List (Call × Failure)) (a : ℕ) (w : World)
      → (r : Result) × ((round d work (suc a) w).1 ≡ finished r)
  unfolding round
  round_last work a w =
      let v = called alloc_stmt w in
      elim (Bool-cases (ok d v)) [
        | inl got ↦ rw (got, not) (performed_last a (perform d work v))
        | inr missed ↦
            rw (missed, not)
              (threw alloc_failed, recover_last a (d.dbc_state v.calls) alloc_failed v)
      ]

  -- A result with its costs.
  abbrev pub Returns : Option (World × Result) → World → ℕ → ℕ → Type 0
  Returns o w l r = (v : World) × (s : Result) × (o ≡ some (v, s)) × Costs w v l r

  pub proceed_last :
      (x : World × Step) (go : World → Option (World × Result)) (r : Result)
      → x.1 ≡ finished r
      → proceed x go ≡ some (x.0, r)
  proceed_last (w, finished s) go r h = ground arith
  proceed_last (w, again) go r h = ground arith

  rounds_second :
      (work : List (Call × Failure)) (w : World)
      → Returns (rounds d 1 work 1 w) w (work_connects work) (work_executes work)
  unfolding rounds
  rounds_second work w =
      let (r, e) = round_last work 0 w in
      let c = round-Costs work 1 w in
      ((round d work 1 w).0, r, proceed_last (round d work 1 w) _ r e, ground arith)

  pub proceed_first :
      (x : World × Step) (go : World → Option (World × Result)) (w : World) (l r l' r' : ℕ)
      → Costs w x.0 l r
      → ((v : World) → Returns (go v) v l' r')
      → Returns (proceed x go) w (l + l') (r + r')
  proceed_first (v, finished s) go w l r l' r' c more = (v, s, refl, ground arith)
  proceed_first (v, again) go w l r l' r' c more =
      let (u, s, e, c') = more v in (u, s, e, ground arith)

  rounds-Returns :
      (work : List (Call × Failure)) (w : World)
      → Returns
          (rounds d 2 work 0 w)
          w
          (work_connects work + 1 + work_connects work)
          (work_executes work + work_executes work)
  unfolding rounds
  rounds-Returns work w =
      proceed_first (round d work 0 w) (λ v. rounds d 1 work 1 v) w _ _ _ _ (round-Costs work 0 w)
        (rounds_second work)

  pub established_or :
      (b : Bool) (o : Option (World × Result)) (w : World) (l r : ℕ)
      → Returns o w l r
      → Returns (if not b then some (w, threw not_established) else o) w l r
  established_or true o w l r h = h
  established_or false o w l r h = (w, threw not_established, refl, ground arith)

  -- `execute(sql)` returns or throws, whatever the driver answers. It connects at most once and
  -- executes the statement at most twice.
  pub execute_retries :
      (sql : Bytes) (w : World)
      → (v : World) × (s : Result) × (execute d sql w ≡ some (v, s))
        × (connects v.calls ≤ connects w.calls + 1)
        × (executes v.calls ≤ executes w.calls + 2)
  unfolding execute
  execute_retries sql w =
      let (v, s, e, c) =
        established_or w.conn.connected _ w _ _ (rounds-Returns (direct_calls sql) w) in
      (v, s, e, c.linked_at_most, c.run_at_most)

  pub binds-free :
      (i : ℕ) (params : List ParamValue)
      → (work_connects (binds i params ++ (sql_execute, execute_failed) ∷ []) ≡ 0)
        × (work_executes (binds i params ++ (sql_execute, execute_failed) ∷ []) ≡ 1)
  unfolding binds
  binds-free i [] = (refl, refl)
  binds-free i (p ∷ params) = let more = binds-free (i + 1) params in ground arith

  caught-Costs : (a : ℕ) (x : World × Result) → Costs x.0 (caught d a x).0 (spare a) 0
  unfolding caught
  caught-Costs a (w, done) = ground arith
  caught-Costs a (w, threw e) = recover-Costs a (d.dbc_state w.calls) e w

  caught_last : (a : ℕ) (x : World × Result) → (r : Result) × ((caught d (suc a) x).1 ≡ finished r)
  unfolding caught
  caught_last a (w, done) = (done, refl)
  caught_last a (w, threw e) = (threw e, recover_last a (d.dbc_state w.calls) e w)

  module _ (work : List (Call × Failure)) (plain : work_connects work ≡ 0)
      (one : work_executes work ≡ 1) where
    outer_second : (w : World) → Returns (outer d 1 work 1 w) w 1 2
    unfolding outer
    outer_second w =
        let (v, s, e, c) = rounds-Returns work w in
        let (r, last) = caught_last 0 (v, s) in
        let c' = caught-Costs 1 (v, s) in
        rw e ((caught d 1 (v, s)).0, r, proceed_last (caught d 1 (v, s)) _ r last, ground arith)

    outer-Returns : (w : World) → Returns (outer d 2 work 0 w) w 3 4
    unfolding outer
    outer-Returns w =
        let (v, s, e, c) = rounds-Returns work w in
        let c' = caught-Costs 0 (v, s) in
        rw e (
          proceed_first (caught d 0 (v, s)) (λ u. outer d 1 work 1 u) w 2 2 1 2 (ground arith)
            outer_second)

  -- `execute(sql, params)` returns or throws, whatever the driver answers. Its two nested loops
  -- connect at most three times and execute the statement at most four times.
  pub execute_params_retries :
      (sql : Bytes) (params : List ParamValue) (w : World)
      → (v : World) × (s : Result) × (execute_params d sql params w ≡ some (v, s))
        × (connects v.calls ≤ connects w.calls + 3)
        × (executes v.calls ≤ executes w.calls + 4)
  unfolding execute_params prepared_calls
  execute_params_retries sql params w =
      let (free, one) = binds-free 1 params in
      let there =
        outer-Returns (prepared_calls sql params) (omega (arith, free)) (omega (arith, one)) w in
      let (v, s, e, c) = established_or w.conn.connected _ w 3 4 there in
      (v, s, e, c.linked_at_most, c.run_at_most)
