-- ===== src/Db2/Lifetime.antt =====
-- What `execute` and `execute(sql, params)` leave behind: the statement
-- handles, the handles of the connection, and its state.
use cpp_grpc_db.Prelude.{
  ℕ, zero, suc, ◌+◌, Bool, true, false, not, ◌&&◌, List, [], ◌∷◌, ◌++◌, Option, none, some,
  if◌then◌else◌, ◌≡◌, refl, ap, arith, Bytes, Bool-cases, inl, inr,
}
use mathlib.Core.Option.{some-injective}
use cpp_grpc_db.Db2.{
  Call, disconnect, alloc_stmt, free_stmt, sql_execute, ConnMode, no_mode, dsn_mode, conn_str_mode,
  Driver, Connection, World, Failure, alloc_failed, execute_failed, not_established, Result, done,
  threw, called, ok, linked, reconnect, try_reconnect,
}
use cpp_grpc_db.Db2.Statements.{
  ParamValue, Step, finished, again, proceed, behind, perform, reconnected, recover, performed,
  round, rounds, execute, caught, outer, execute_params, binds, direct_calls, prepared_calls,
}
use cpp_grpc_db.Db2.Retry.{execute_retries, execute_params_retries}

-- A connection that counts as connected has its handles and knows how to connect again.
abbrev pub is_sound : Connection → Bool
is_sound c =
    if c.connected
    then c.has_dbc && c.has_env && (elim c.mode [ no_mode ↦ false | _ ↦ true ])
    else true

abbrev pub freed_stmts : List Call → ℕ
freed_stmts [] = 0
freed_stmts (free_stmt ∷ calls) = suc (freed_stmts calls)
freed_stmts (c ∷ calls) = freed_stmts calls

module _ (d : Driver) where
  -- The statement handles that the driver has handed out.
  abbrev pub allocated : List Call → ℕ
  allocated [] = 0
  allocated (alloc_stmt ∷ calls) =
      (if d.succeeds (alloc_stmt ∷ calls) then 1 else 0) + allocated calls
  allocated (c ∷ calls) = allocated calls

  -- From `w` to `v` as many statement handles are freed as handed out, and the connection keeps its
  -- own handles and stays sound.
  pub record Kept (w v : World) : Type 0 where
    pub even : allocated v.calls + freed_stmts w.calls ≡ allocated w.calls + freed_stmts v.calls
    pub same_env : v.conn.has_env ≡ w.conn.has_env
    pub same_dbc : v.conn.has_dbc ≡ w.conn.has_dbc
    pub still_sound : is_sound w.conn ≡ true → is_sound v.conn ≡ true

  Kept-refl : (w : World) → Kept w w
  Kept-refl w = ground arith

  pub Kept-trans : (u v w : World) → Kept u v → Kept v w → Kept u w
  Kept-trans u v w h k = ground arith

  reconnect-Kept :
      (m : ConnMode) (w : World)
      → w.conn.mode ≡ m
      → w.conn.has_dbc ≡ true
      → w.conn.has_env ≡ true
      → Kept w (reconnect d m w).0
  unfolding reconnect linked
  reconnect-Kept no_mode w m b e = ground arith
  reconnect-Kept dsn_mode w m b e = ground arith
  reconnect-Kept conn_str_mode w m b e = ground arith

  try_reconnect-Kept : (w : World) → Kept w (try_reconnect d w).0
  unfolding try_reconnect
  try_reconnect-Kept w =
      let v = called disconnect (record w { conn = record w.conn { connected = false } }) in
      let k : w.conn.has_dbc ≡ true → w.conn.has_env ≡ true → Kept v (reconnect d w.conn.mode v).0 =
        λ b e. reconnect-Kept w.conn.mode v refl b e in
      elim (Bool-cases w.conn.has_dbc) [
        | inl b ↦ elim (Bool-cases w.conn.has_env) [
          | inl e ↦ let kept = k b e in ground arith
          | inr e ↦ ground arith
        ]
        | inr b ↦ ground arith
      ]

  reconnected_lem : (e : Failure) (x : World × Bool) → (reconnected d e x).0 ≡ x.0
  unfolding reconnected
  reconnected_lem e (w, true) = refl
  reconnected_lem e (w, false) = refl

  pub recover-Kept : (a : ℕ) (st : Bytes) (e : Failure) (w : World) → Kept w (recover d a st e w).0
  unfolding recover
  recover-Kept a st e w =
      let k = try_reconnect-Kept w in
      let same = reconnected_lem e (try_reconnect d w) in ground arith

  abbrev pub IsPlain : List (Call × Failure) → Type 0
  IsPlain [] = Unit
  IsPlain ((c, e) ∷ work) =
      ((calls : List Call)
        → (allocated (c ∷ calls) ≡ allocated calls) × (freed_stmts (c ∷ calls) ≡ freed_stmts calls))
      × IsPlain work

  pub perform-Kept :
      (work : List (Call × Failure)) (w : World) → IsPlain work → Kept w (perform d work w).0
  unfolding perform
  perform-Kept [] w plain = ground arith
  perform-Kept ((c, e) ∷ work) w (now, more) =
      let k = perform-Kept work (called c w) more in let (a, f) = now w.calls in ground arith

  performed-Kept : (a : ℕ) (x : World × Option Failure) → Kept x.0 (performed d a x).0
  unfolding performed
  performed-Kept a (w, none) = ground arith
  performed-Kept a (w, some e) = recover-Kept a (d.stmt_state w.calls) e w

  round-Kept :
      (work : List (Call × Failure)) (a : ℕ) (w : World)
      → IsPlain work
      → Kept w (round d work a w).0
  unfolding round
  round-Kept work a w plain =
      let v = called alloc_stmt w in
      let lost = recover-Kept a (d.dbc_state v.calls) alloc_failed v in
      let k = perform-Kept work v plain in
      let k' = performed-Kept a (perform d work v) in
      elim (Bool-cases (ok d v)) [ inl good ↦ ground arith | inr bad ↦ ground arith ]

  pub proceed-Kept :
      (x : World × Step) (go : World → Option (World × Result)) (w v : World) (r : Result)
      → Kept w x.0
      → ((u : World) → go u ≡ some (v, r) → Kept u v)
      → proceed x go ≡ some (v, r)
      → Kept w v
  proceed-Kept (u, finished s) go w v r k more h =
      let same : u ≡ v = ap (λ (y : World × Result). y.0) (some-injective (u, s) (v, r) h) in
      ground arith
  proceed-Kept (u, again) go w v r k more h = Kept-trans w u v k (more u h)

  rounds-Kept :
      (fuel : ℕ) (work : List (Call × Failure)) (a : ℕ) (w v : World) (r : Result)
      → IsPlain work
      → rounds d fuel work a w ≡ some (v, r)
      → Kept w v
  unfolding rounds
  rounds-Kept zero work a w v r plain h = ground arith
  rounds-Kept (suc fuel) work a w v r plain h =
      proceed-Kept (round d work a w) (λ u. rounds d fuel work (a + 1) u) w v r
        (round-Kept work a w plain) (λ u. rounds-Kept fuel work (a + 1) u v r plain) h

  pub established-Kept :
      (b : Bool) (o : Option (World × Result)) (w v : World) (r : Result)
      → (o ≡ some (v, r) → Kept w v)
      → (if not b then some (w, threw not_established) else o) ≡ some (v, r)
      → Kept w v
  established-Kept true o w v r k h = k h
  established-Kept false o w v r k h =
      let same : w ≡ v =
        ap (λ (y : World × Result). y.0) (some-injective (w, threw not_established) (v, r) h) in
      ground arith

  pub binds-IsPlain :
      (i : ℕ) (params : List ParamValue)
      → IsPlain (binds i params ++ (sql_execute, execute_failed) ∷ [])
  unfolding binds
  binds-IsPlain i [] = ((λ calls. (refl, refl)), tt)
  binds-IsPlain i (p ∷ params) = ((λ calls. (refl, refl)), binds-IsPlain (i + 1) params)

  caught-Kept : (a : ℕ) (x : World × Result) → Kept x.0 (caught d a x).0
  unfolding caught
  caught-Kept a (w, done) = ground arith
  caught-Kept a (w, threw e) = recover-Kept a (d.dbc_state w.calls) e w

  behind-Kept :
      (o : Option (World × Result)) (go : World × Result → Option (World × Result)) (w v : World)
      (r : Result)
      → ((x : World × Result) → o ≡ some x → Kept w x.0)
      → ((x : World × Result) → go x ≡ some (v, r) → Kept x.0 v)
      → behind d o go ≡ some (v, r)
      → Kept w v
  behind-Kept none go w v r first more h = ground arith
  behind-Kept (some x) go w v r first more h = Kept-trans w x.0 v (first x refl) (more x h)

  outer-Kept :
      (fuel : ℕ) (work : List (Call × Failure)) (a : ℕ) (w v : World) (r : Result)
      → IsPlain work
      → outer d fuel work a w ≡ some (v, r)
      → Kept w v
  unfolding outer
  outer-Kept zero work a w v r plain h = ground arith
  outer-Kept (suc fuel) work a w v r plain h =
      behind-Kept (rounds d 2 work 0 w) _ w v r (λ x e. rounds-Kept 2 work 0 w x.0 x.1 plain e)
        (λ x e.
          proceed-Kept (caught d a x) (λ u. outer d fuel work (a + 1) u) x.0 v r (caught-Kept a x)
            (λ u. outer-Kept fuel work (a + 1) u v r plain) e)
        h

  -- `execute(sql)` returns or throws, and either way has freed every statement handle that it was
  -- given. The connection keeps its own handles, and if it was sound it is: when it counts as
  -- connected, it has its handles and a way to connect again.
  pub execute-Kept :
      (sql : Bytes) (w : World)
      → (v : World) × (r : Result) × (execute d sql w ≡ some (v, r)) × Kept w v
  unfolding execute
  execute-Kept sql w =
      let (v, r, e, links_few, runs_few) = execute_retries d sql w in
      (
        v,
        r,
        e,
        established-Kept w.conn.connected _ w v r
            (rounds-Kept 2 (direct_calls sql) 0 w v r ((λ calls. (refl, refl)), tt)) e,
      )

  -- The same holds of `execute(sql, params)`.
  pub execute_params-Kept :
      (sql : Bytes) (params : List ParamValue) (w : World)
      → (v : World) × (r : Result) × (execute_params d sql params w ≡ some (v, r)) × Kept w v
  unfolding execute_params prepared_calls
  execute_params-Kept sql params w =
      let (v, r, e, links_few, runs_few) = execute_params_retries d sql params w in
      (
        v,
        r,
        e,
        established-Kept w.conn.connected _ w v r
            (outer-Kept 2 (prepared_calls sql params) 0 w v r
              ((λ calls. (refl, refl)), binds-IsPlain 1 params))
            e,
      )
