-- ===== src/Db2/QueryLifetime.antt =====
-- What a query leaves behind.
use cpp_grpc_db.Prelude.{
  ℕ, zero, suc, ◌+◌, ◌<◌, Bool, true, false, not, List, [], ◌∷◌, Option, none, some, if◌then◌else◌,
  ◌≡◌, refl, ap, arith, Bytes, Bool-cases, inl, inr,
}
use mathlib.Core.Option.{some-injective}
use cpp_grpc_db.Db2.{
  Call, alloc_stmt, close_cursor, free_stmt, fetch, on_row, Driver, World, Failure, query_failed,
  Result, called, ok,
}
use cpp_grpc_db.Db2.Statements.{ParamValue, perform, prepared_calls}
use cpp_grpc_db.Db2.Lifetime.{
  Kept, Kept-trans, IsPlain, perform-Kept, recover-Kept, proceed-Kept, established-Kept,
  binds-IsPlain,
}
use cpp_grpc_db.Db2.Query.{
  query_calls, Ending, completed, escaped, failed, Ran, all_freed, after_run, fetch_rows, fetched,
  run_once, judged, query_rounds, query_to_callback,
}
use cpp_grpc_db.Db2.Rows.{Ends, query_retries}

query_calls-IsPlain :
    (d : Driver) (sql : Bytes) (params : List ParamValue) → IsPlain d (query_calls sql params)
unfolding query_calls prepared_calls
query_calls-IsPlain d sql [] = ((λ calls. (refl, refl)), tt)
query_calls-IsPlain d sql (p ∷ params) = ((λ calls. (refl, refl)), binds-IsPlain d 1 (p ∷ params))

module _ (d : Driver) where
  abbrev Keeps : World → Ran → Type 0
  Keeps w o = (x : World × Ending) → o ≡ some x → Kept d w x.0

  some-Keeps : (w v : World) (s : Ending) → Kept d w v → Keeps w (some (v, s))
  some-Keeps w v s k x e =
      let same : v ≡ x.0 = ap (λ (y : World × Ending). y.0) (some-injective (v, s) x e) in
      ground arith

  no-Keeps : (w : World) → Keeps w none
  no-Keeps w x e = cc

  chosen-Keeps :
      (a b c : Bool) (w v u : World) (s t q : Ending) (rest : Ran)
      → Kept d w v
      → Kept d w u
      → Keeps w rest
      → Keeps w
          (if a then some (v, s) else if b then some (v, t) else if c then some (u, q) else rest)
  chosen-Keeps true b c w v u s t q rest k h more = some-Keeps w v s k
  chosen-Keeps false true c w v u s t q rest k h more = some-Keeps w v t k
  chosen-Keeps false false true w v u s t q rest k h more = some-Keeps w u q h
  chosen-Keeps false false false w v u s t q rest k h more = more

  Keeps-trans : (w v : World) (o : Ran) → Kept d w v → Keeps v o → Keeps w o
  Keeps-trans w v o k more x e = Kept-trans d w v x.0 k (more x e)

  fetch_rows-Keeps : (fuel : ℕ) (w : World) → Keeps w (fetch_rows d fuel w)
  unfolding fetch_rows
  fetch_rows-Keeps zero w = no-Keeps w
  fetch_rows-Keeps (suc fuel) w =
      let v = called fetch w in
      let more = fetch_rows-Keeps fuel (called on_row v) in
      chosen-Keeps (d.no_data v.calls) (not (ok d v)) (d.row_throws (called on_row v).calls) w v
        (called on_row v) completed _ escaped _ (ground arith) (ground arith)
        (Keeps-trans w (called on_row v) _ (ground arith) more)

  fetched-Keeps : (fuel : ℕ) (x : World × Option Failure) → Keeps x.0 (fetched d fuel x)
  unfolding fetched
  fetched-Keeps fuel (w, none) = fetch_rows-Keeps fuel w
  fetched-Keeps fuel (w, some e) = some-Keeps w w _ (ground arith)

  -- The guard frees the statement that was allocated.
  all_freed-Keeps :
      (w : World) (o : Ran)
      → ok d (called alloc_stmt w) ≡ true
      → Keeps (called alloc_stmt w) o
      → Keeps w (all_freed o)
  all_freed-Keeps w none good k = no-Keeps w
  all_freed-Keeps w (some (v, s)) good k =
      let h = k (v, s) refl in
      some-Keeps w (called free_stmt (called close_cursor v)) s (ground arith)

  run_once-Keeps :
      (fuel : ℕ) (work : List (Call × Failure)) (w : World)
      → IsPlain d work
      → Keeps w (run_once d fuel work w)
  unfolding run_once
  run_once-Keeps fuel work w plain =
      let v = called alloc_stmt w in
      let k = perform-Kept d work v plain in
      elim (Bool-cases (ok d v)) [
        | inl good ↦
            rw (good, not)
              (all_freed-Keeps w _ good
                (Keeps-trans v _ _ k (fetched-Keeps fuel (perform d work v))))
        | inr bad ↦ rw (bad, not) (some-Keeps w v _ (ground arith))
      ]

  judged-Kept : (a : ℕ) (x : World × Ending) → Kept d x.0 (judged d a x).0
  unfolding judged
  judged-Kept a (w, completed) = ground arith
  judged-Kept a (w, escaped) = ground arith
  judged-Kept a (w, failed st) = recover-Kept d a st query_failed w

  after_run-Kept :
      (o : Ran) (go : World × Ending → Option (World × Result)) (w v : World) (r : Result)
      → Keeps w o
      → ((x : World × Ending) → go x ≡ some (v, r) → Kept d x.0 v)
      → after_run d o go ≡ some (v, r)
      → Kept d w v
  after_run-Kept none go w v r first more h = ground arith
  after_run-Kept (some x) go w v r first more h = Kept-trans d w x.0 v (first x refl) (more x h)

  query_rounds-Kept :
      (fuel left : ℕ) (work : List (Call × Failure)) (a : ℕ) (w v : World) (r : Result)
      → IsPlain d work
      → query_rounds d fuel left work a w ≡ some (v, r)
      → Kept d w v
  unfolding query_rounds
  query_rounds-Kept fuel zero work a w v r plain h = ground arith
  query_rounds-Kept fuel (suc left) work a w v r plain h =
      after_run-Kept (run_once d fuel work w) _ w v r (run_once-Keeps fuel work w plain)
        (λ x e.
          proceed-Kept d (judged d a x) (λ u. query_rounds d fuel left work (a + 1) u) x.0 v r
            (judged-Kept a x) (λ u. query_rounds-Kept fuel left work (a + 1) u v r plain) e)
        h

  -- If the driver answers SQL_NO_DATA to the `n`th fetch of a statement at the latest, then a query
  -- returns or throws, and either way has freed every statement handle that it was given, those of
  -- a round that it gave up too. The connection keeps its own handles, and if it was sound it is.
  pub query_to_callback-Kept :
      (n : ℕ) (sql : Bytes) (params : List ParamValue) (w : World)
      → Ends d n
      → 0 < n
      → (v : World) × (r : Result) × (query_to_callback d n sql params w ≡ some (v, r)) × Kept d w v
  unfolding query_to_callback
  query_to_callback-Kept n sql params w ends some_fetch =
      let (v, r, e, links_few, runs_few) = query_retries d n ends some_fetch sql params w in
      (
        v,
        r,
        e,
        established-Kept d w.conn.connected _ w v r
            (query_rounds-Kept n 2 (query_calls sql params) 0 w v r
              (query_calls-IsPlain d sql params))
            e,
      )
