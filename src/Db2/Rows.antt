-- ===== src/Db2/Rows.antt =====
-- `query_to_callback` on a driver whose result sets end.
use cpp_grpc_db.Prelude.{
  ℕ, zero, suc, ◌+◌, ◌≤◌, ◌<◌, true, false, not, List, [], ◌∷◌, ◌++◌, Option, none, some, ◌≡◌, refl,
  arith, Bytes, leb, leb→le, Bool-cases, inl, inr, ◌∙◌,
}
use cpp_grpc_db.Db2.{
  Call, alloc_stmt, close_cursor, free_stmt, fetch, on_row, Driver, World, Failure, query_failed,
  row_threw, Result, done, threw, called, ok, sql_execute, execute_failed,
}
use cpp_grpc_db.Db2.Statements.{ParamValue, finished, perform, prepared_calls, binds}
use cpp_grpc_db.Db2.Retry.{
  connects, executes, work_connects, work_executes, Costs, Returns, recover-Costs, perform-Costs,
  recover_last, proceed_first, proceed_last, established_or, binds-free, spare,
}
use cpp_grpc_db.Db2.Query.{
  query_calls, Ending, completed, escaped, failed, Ran, fetch_rows, fetched, run_once, judged,
  query_rounds, query_to_callback,
}

-- The fetches since the statement was allocated.
abbrev pub fetches : List Call → ℕ
fetches [] = 0
fetches (alloc_stmt ∷ calls) = 0
fetches (fetch ∷ calls) = suc (fetches calls)
fetches (c ∷ calls) = fetches calls

abbrev Quiet : List (Call × Failure) → Type 0
Quiet [] = Unit
Quiet ((c, e) ∷ work) = ((calls : List Call) → fetches (c ∷ calls) ≡ fetches calls) × Quiet work

binds-Quiet :
    (i : ℕ) (params : List ParamValue)
    → Quiet (binds i params ++ (sql_execute, execute_failed) ∷ [])
unfolding binds
binds-Quiet i [] = ((λ calls. refl), tt)
binds-Quiet i (p ∷ params) = ((λ calls. refl), binds-Quiet (i + 1) params)

query_calls-Quiet : (sql : Bytes) (params : List ParamValue) → Quiet (query_calls sql params)
unfolding query_calls prepared_calls
query_calls-Quiet sql [] = ((λ calls. refl), tt)
query_calls-Quiet sql (p ∷ params) = ((λ calls. refl), binds-Quiet 1 (p ∷ params))

-- A result set has fewer than `n` rows.
abbrev pub Ends : Driver → ℕ → Type 0
Ends d n = (calls : List Call) → n ≤ fetches calls → d.no_data calls ≡ true

module _ (d : Driver) (n : ℕ) (ends : Ends d n) (some_fetch : 0 < n) where
  perform-fetches :
      (work : List (Call × Failure)) (w : World)
      → Quiet work
      → fetches (perform d work w).0.calls ≡ fetches w.calls
  unfolding perform
  perform-fetches [] w q = refl
  perform-fetches ((c, e) ∷ work) w (q, more) = elim (Bool-cases (ok d (called c w))) [
    | inl good ↦ rw good (perform-fetches work (called c w) more ∙ q w.calls)
    | inr bad ↦ rw bad (q w.calls)
  ]

  abbrev Ended : Ran → World → ℕ → ℕ → Type 0
  Ended o w l r = (x : World × Ending) × (o ≡ some x) × Costs d w x.0 l r

  not_over : (calls : List Call) → d.no_data calls ≡ false → fetches calls < n
  not_over calls more = elim (Bool-cases (leb n (fetches calls))) [
    | inl h ↦ let over = ends calls (leb→le n (fetches calls) h) in cc
    | inr h ↦ ground arith
  ]

  fetch_rows-Ended :
      (fuel : ℕ) (w : World)
      → n ≤ fuel + fetches w.calls
      → fetches w.calls < n
      → Ended (fetch_rows d fuel w) w 0 0
  unfolding fetch_rows
  fetch_rows-Ended zero w enough few = absurd (omega arith)
  fetch_rows-Ended (suc fuel) w enough few =
      let v = called fetch w in
      elim (Bool-cases (d.no_data v.calls)) [
        | inl over ↦ rw over ((v, completed), refl, ground arith)
        | inr more ↦ elim (Bool-cases (ok d v)) [
          | inl good ↦ elim (Bool-cases (d.row_throws (called on_row v).calls)) [
            | inl thrown ↦
                rw (more, good, not, thrown) ((called on_row v, escaped), refl, ground arith)
            | inr fine ↦
                let few' = not_over v.calls more in
                let (x, e, c) = fetch_rows-Ended fuel (called on_row v) (omega arith) few' in
                rw (more, good, not, fine) (x, e, ground arith)
          ]
          | inr bad ↦ rw (more, bad, not) ((v, failed _), refl, ground arith)
        ]
      ]

  fetched-Ended :
      (x : World × Option Failure) → fetches x.0.calls ≡ 0 → Ended (fetched d n x) x.0 0 0
  unfolding fetched
  fetched-Ended (w, none) h = fetch_rows-Ended n w (omega arith) (omega arith)
  fetched-Ended (w, some e) h = ((w, failed _), refl, ground arith)

  module _ (work : List (Call × Failure)) (quiet : Quiet work) (plain : work_connects work ≡ 0)
      (one : work_executes work ≡ 1) where
    run_once-Ended : (w : World) → Ended (run_once d n work w) w 0 1
    unfolding run_once
    run_once-Ended w =
        let v = called alloc_stmt w in
        let p = perform d work v in
        let c = perform-Costs d work v in
        let (x, e, c') = fetched-Ended p (perform-fetches work v quiet) in
        elim (Bool-cases (ok d v)) [
          | inl good ↦
              rw (good, not, e)
                ((called free_stmt (called close_cursor x.0), x.1), refl, ground arith)
          | inr bad ↦ rw (bad, not) ((v, failed _), refl, ground arith)
        ]

    judged-Costs : (a : ℕ) (x : World × Ending) → Costs d x.0 (judged d a x).0 (spare d a) 0
    unfolding judged
    judged-Costs a (w, completed) = ground arith
    judged-Costs a (w, escaped) = ground arith
    judged-Costs a (w, failed st) = recover-Costs d a st query_failed w

    judged_last :
        (a : ℕ) (x : World × Ending) → (r : Result) × ((judged d (suc a) x).1 ≡ finished r)
    unfolding judged
    judged_last a (w, completed) = (done, refl)
    judged_last a (w, escaped) = (threw row_threw, refl)
    judged_last a (w, failed st) = (threw query_failed, recover_last d a st query_failed w)

    query_second : (w : World) → Returns d (query_rounds d n 1 work 1 w) w 0 1
    unfolding query_rounds
    query_second w =
        let (x, e, c) = run_once-Ended w in
        let (r, last) = judged_last 0 x in
        let c' = judged-Costs 1 x in
        rw e ((judged d 1 x).0, r, proceed_last d (judged d 1 x) _ r last, ground arith)

    query-Returns : (w : World) → Returns d (query_rounds d n 2 work 0 w) w 1 2
    unfolding query_rounds
    query-Returns w =
        let (x, e, c) = run_once-Ended w in
        let c' = judged-Costs 0 x in
        rw e (
          proceed_first d (judged d 0 x) (λ v. query_rounds d n 1 work 1 v) w 1 1 0 1 (ground arith)
            query_second)

  query_calls-free :
      (sql : Bytes) (params : List ParamValue)
      → (work_connects (query_calls sql params) ≡ 0) × (work_executes (query_calls sql params) ≡ 1)
  unfolding query_calls prepared_calls
  query_calls-free sql [] = (refl, refl)
  query_calls-free sql (p ∷ params) = let b = binds-free d 1 (p ∷ params) in ground arith

  -- If the driver answers SQL_NO_DATA to the `n`th fetch of a statement at the latest, then a query
  -- returns or throws, whatever else the driver answers. It connects at most once and executes the
  -- statement at most twice.
  pub query_retries :
      (sql : Bytes) (params : List ParamValue) (w : World)
      → (v : World) × (s : Result) × (query_to_callback d n sql params w ≡ some (v, s))
        × (connects v.calls ≤ connects w.calls + 1)
        × (executes v.calls ≤ executes w.calls + 2)
  unfolding query_to_callback
  query_retries sql params w =
      let (free, one) = query_calls-free sql params in
      let there =
        query-Returns (query_calls sql params) (query_calls-Quiet sql params) (omega (arith, free))
          (omega (arith, one)) w in
      let (v, s, e, c) = established_or d w.conn.connected _ w 1 2 there in
      (v, s, e, c.linked_at_most, c.run_at_most)
