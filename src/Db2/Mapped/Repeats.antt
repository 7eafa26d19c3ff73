-- ===== src/Db2/Mapped/Repeats.antt =====
-- include/db2/db2.hpp: the rows in the vector of a query, when it was run twice.
use cpp_grpc_db.Prelude.{
  ℕ, zero, suc, ◌+◌, Bool, true, false, not, List, [], ◌∷◌, ◌++◌, Option, none, some, if◌then◌else◌,
  length, ◌≡◌, refl, sym, ap, subst, ◌∙◌, arith, Bytes, Bool-cases, inl, inr, append-nil,
  append_assoc, drop, ◌⊎◌,
}
use mathlib.Core.Option.{some-injective}
use cpp_grpc_db.Db2.{
  Call, alloc_stmt, fetch, on_row, Driver, World, Failure, query_failed, row_threw, not_established,
  Result, done, threw, called, ok, sql_execute, execute_failed, try_reconnect, reconnect, linked,
}
use cpp_grpc_db.Db2.Statements.{
  ParamValue, Step, again, finished, proceed, is_broken, perform, prepared_calls, binds, recover,
  reconnected,
}
use cpp_grpc_db.Db2.Query.{
  completed, escaped, failed, query_calls, Ran, fetch_rows, fetched, run_once, judged, query_rounds,
  query_to_callback, all_freed, after_run,
}
use cpp_grpc_db.Db2.Mapped.{mapped, gathered, with_rows, query_impl}

drop-append : {A : Type 0} → (xs ys : List A) → drop (length xs) (xs ++ ys) ≡ ys
drop-append [] ys = refl
drop-append (x ∷ xs) ys = drop-append xs ys

module _ {T : Type 0} (mapper : List Call → T) where
  -- The second state has the rows of the first, and some behind them.
  abbrev Appends : World → World → Type 0
  Appends w v = (ts : List T) × (mapped mapper v.calls ≡ mapped mapper w.calls ++ ts)

  abbrev Rowless : List (Call × Failure) → Type 0
  Rowless [] = Unit
  Rowless ((c, e) ∷ work) =
      ((calls : List Call) → mapped mapper (c ∷ calls) ≡ mapped mapper calls) × Rowless work

  binds-Rowless :
      (i : ℕ) (params : List ParamValue)
      → Rowless (binds i params ++ (sql_execute, execute_failed) ∷ [])
  unfolding binds
  binds-Rowless i [] = ((λ calls. refl), tt)
  binds-Rowless i (p ∷ params) = ((λ calls. refl), binds-Rowless (i + 1) params)

  query_calls-Rowless : (sql : Bytes) (params : List ParamValue) → Rowless (query_calls sql params)
  unfolding query_calls prepared_calls
  query_calls-Rowless sql [] = ((λ calls. refl), tt)
  query_calls-Rowless sql (p ∷ params) = ((λ calls. refl), binds-Rowless 1 (p ∷ params))

  module _ (d : Driver) where
    mapped-perform :
        (work : List (Call × Failure)) (w : World)
        → Rowless work
        → mapped mapper (perform d work w).0.calls ≡ mapped mapper w.calls
    unfolding perform
    mapped-perform [] w q = refl
    mapped-perform ((c, e) ∷ work) w (q, more) = elim (Bool-cases (ok d (called c w))) [
      | inl good ↦ rw good (mapped-perform work (called c w) more ∙ q w.calls)
      | inr bad ↦ rw bad (q w.calls)
    ]

    mapped-try_reconnect :
        (w : World) → mapped mapper (try_reconnect d w).0.calls ≡ mapped mapper w.calls
    unfolding try_reconnect reconnect linked
    mapped-try_reconnect w = ground arith

    mapped-recover :
        (a : ℕ) (st : Bytes) (e : Failure) (w : World)
        → mapped mapper (recover d a st e w).0.calls ≡ mapped mapper w.calls
    unfolding recover reconnected
    mapped-recover a st e w = let same = mapped-try_reconnect w in ground arith

    abbrev Stays : World → Ran → Type 0
    Stays w none = Unit
    Stays w (some (v, state)) = Appends w v

    -- The same rows so far.
    from_same :
        (u w : World) (o : Ran)
        → mapped mapper u.calls ≡ mapped mapper w.calls
        → Stays u o
        → Stays w o
    from_same u w none same h = tt
    from_same u w (some (v, state)) same (ts, more) = (ts, more ∙ ap (λ rows. rows ++ ts) same)

    behind_row : (w : World) (o : Ran) → Stays (called on_row (called fetch w)) o → Stays w o
    behind_row w none h = tt
    behind_row w (some (v, state)) (ts, more) = (
      mapper (fetch ∷ w.calls) ∷ ts,
      more ∙ append_assoc (mapped mapper w.calls) (mapper (fetch ∷ w.calls) ∷ []) ts,
    )

    fetch_rows-Stays : (fuel : ℕ) (w : World) → Stays w (fetch_rows d fuel w)
    unfolding fetch_rows
    fetch_rows-Stays zero w = tt
    fetch_rows-Stays (suc fuel) w =
        let v = called fetch w in
        elim (Bool-cases (d.no_data v.calls)) [
          | inl over ↦ rw over ([], sym (append-nil _))
          | inr more ↦ elim (Bool-cases (ok d v)) [
            | inl good ↦ elim (Bool-cases (d.row_throws (called on_row v).calls)) [
              | inl thrown ↦ rw (more, good, not, thrown) (mapper v.calls ∷ [], refl)
              | inr fine ↦
                  rw (more, good, not, fine)
                    (behind_row w (fetch_rows d fuel (called on_row v))
                      (fetch_rows-Stays fuel (called on_row v)))
            ]
            | inr bad ↦ rw (more, bad, not) ([], sym (append-nil _))
          ]
        ]

    fetched-Stays : (fuel : ℕ) (x : World × Option Failure) → Stays x.0 (fetched d fuel x)
    unfolding fetched
    fetched-Stays fuel (w, none) = fetch_rows-Stays fuel w
    fetched-Stays fuel (w, some e) = ([], sym (append-nil _))

    all_freed-Stays : (w : World) (o : Ran) → Stays w o → Stays w (all_freed o)
    all_freed-Stays w none h = tt
    all_freed-Stays w (some (v, state)) h = h

    run_once-Stays :
        (fuel : ℕ) (work : List (Call × Failure)) (w : World)
        → Rowless work
        → Stays w (run_once d fuel work w)
    unfolding run_once
    run_once-Stays fuel work w rowless =
        let v = called alloc_stmt w in
        let p = perform d work v in
        elim (Bool-cases (ok d v)) [
          | inl good ↦
              rw (good, not)
                (all_freed-Stays w (fetched d fuel p) (
                  from_same p.0 w (fetched d fuel p) (mapped-perform work v rowless)
                    (fetched-Stays fuel p)))
          | inr bad ↦ rw (bad, not) ([], sym (append-nil _))
        ]

    gathered_lem :
        (w v : World) (ts : List T)
        → mapped mapper v.calls ≡ mapped mapper w.calls ++ ts
        → gathered mapper w v ≡ ts
    gathered_lem w v ts more = rw more (drop-append (mapped mapper w.calls) ts)

    -- The rows of two runs, with a state between them that has no more rows than the first left.
    gathered_twice :
        (w x y v : World)
        → Appends w x
        → mapped mapper y.calls ≡ mapped mapper x.calls
        → Appends y v
        → gathered mapper w v ≡ gathered mapper w x ++ gathered mapper y v
    gathered_twice w x y v (ts, first) same (us, second) =
        let whole : mapped mapper v.calls ≡ mapped mapper w.calls ++ (ts ++ us) =
          second
          ∙ ap (λ rows. rows ++ us) (same ∙ first)
          ∙ append_assoc (mapped mapper w.calls) ts us in
        let one = gathered_lem w x ts first in
        let other = gathered_lem y v us second in
        rw (one, other) (gathered_lem w v (ts ++ us) whole)

    abbrev GivesUp : Step → Type 0
    GivesUp (finished done) = ⊥
    GivesUp (finished (threw e)) = Unit
    GivesUp again = Unit

    reconnected-GivesUp : (x : World × Bool) → GivesUp (reconnected d query_failed x).1
    unfolding reconnected
    reconnected-GivesUp (w, true) = tt
    reconnected-GivesUp (w, false) = tt

    recover-GivesUp : (st : Bytes) (w : World) → GivesUp (recover d 0 st query_failed w).1
    unfolding recover
    recover-GivesUp st w = elim (Bool-cases (is_broken st)) [
      | inl broken ↦ rw broken (reconnected-GivesUp (try_reconnect d w))
      | inr other ↦ rw other tt
    ]

    goes_again :
        (x : World × Step) (go : World → Option (World × Result)) (v : World)
        → GivesUp x.1
        → proceed x go ≡ some (v, done)
        → (y : World) × (x ≡ (y, again)) × (go y ≡ some (v, done))
    goes_again (w, again) go v up h = (w, refl, h)
    goes_again (w, finished done) go v up h = absurd up
    goes_again (w, finished (threw e)) go v up h =
        let bad : threw e ≡ done = ap (λ z. z.1) (some-injective _ _ h) in absurd cc

    second_run :
        (o : Ran) (v : World)
        → after_run d o (λ x. proceed (judged d 1 x) (λ y. none)) ≡ some (v, done)
        → o ≡ some (v, completed)
    unfolding judged recover
    second_run none v h = cc
    second_run (some (x, completed)) v h = ap (λ z. some (z.0, completed)) (some-injective _ _ h)
    second_run (some (x, escaped)) v h =
        let bad : threw row_threw ≡ done = ap (λ z. z.1) (some-injective _ _ h) in absurd cc
    second_run (some (x, failed st)) v h =
        let bad : threw query_failed ≡ done = ap (λ z. z.1) (some-injective _ _ h) in absurd cc

    -- A run in which every row was fetched, after a run that failed or not.
    abbrev pub Returned : ℕ → List (Call × Failure) → World → World → List T → Type 0
    Returned fuel work w v ts =
        ((run_once d fuel work w ≡ some (v, completed)) × (ts ≡ gathered mapper w v))
        ⊎ ((x : World) × (y : World) × (state : Bytes) × (run_once d fuel work w
              ≡ some (x, failed state))
            × (recover d 0 state query_failed x ≡ (y, again))
            × (run_once d fuel work y ≡ some (v, completed))
            × (ts ≡ gathered mapper w x ++ gathered mapper y v))

    with_rows_done :
        (w v : World) (ts : List T) (o : Option (World × Result))
        → with_rows mapper w o ≡ some (v, (done, ts))
        → (o ≡ some (v, done)) × (ts ≡ gathered mapper w v)
    with_rows_done w v ts none h = cc
    with_rows_done w v ts (some (x, r)) h =
        let e : (x, (r, gathered mapper w x)) ≡ (v, (done, ts)) = some-injective _ _ h in
        (ap (λ z. some (z.0, z.1.0)) e, sym (ap (λ z. z.1.1) e) ∙ ap (λ z. gathered mapper w z.0) e)

    rounds_done :
        (fuel : ℕ) (work : List (Call × Failure)) (w v : World)
        → Rowless work
        → query_rounds d fuel 2 work 0 w ≡ some (v, done)
        → Returned fuel work w v (gathered mapper w v)
    unfolding query_rounds judged
    rounds_done fuel work w v rowless h =
        first_run (run_once d fuel work w) (run_once-Stays fuel work w rowless) refl h
      where
        first_run :
            (o : Ran)
            → Stays w o
            → run_once d fuel work w ≡ o
            → after_run d o (λ x. proceed (judged d 0 x) (λ y. query_rounds d fuel 1 work 1 y))
              ≡ some (v, done)
            → Returned fuel work w v (gathered mapper w v)
        first_run none stays ran h = cc
        first_run (some (x, completed)) stays ran h =
            inl (ran ∙ ap (λ z. some (z.0, completed)) (some-injective _ _ h), refl)
        first_run (some (x, escaped)) stays ran h =
            let bad : threw row_threw ≡ done = ap (λ z. z.1) (some-injective _ _ h) in absurd cc
        first_run (some (x, failed st)) stays ran h =
            let (y, linked_again, rest) =
              goes_again (recover d 0 st query_failed x) _ v (recover-GivesUp st x) h in
            let last = second_run (run_once d fuel work y) v rest in
            let same : mapped mapper y.calls ≡ mapped mapper x.calls =
              ap (λ z. mapped mapper z.0.calls) (sym linked_again)
              ∙ mapped-recover 0 st query_failed x in
            let more : Stays y (some (v, completed)) =
              subst (Stays y) last (run_once-Stays fuel work y rowless) in
            inr (x, y, st, ran, linked_again, last, gathered_twice w x y v stays same more)

    established :
        (connected : Bool) (w v : World) (o : Option (World × Result))
        → (if not connected then some (w, threw not_established) else o) ≡ some (v, done)
        → o ≡ some (v, done)
    established true w v o h = h
    established false w v o h =
        let bad : threw not_established ≡ done = ap (λ z. z.1) (some-injective _ _ h) in absurd cc

    -- What a query that returns has in its vector: the rows of its one run, in their order, or, where
    -- the connection broke and the query was run again, the rows that the first run had already
    -- handed out, and then all those of the second run. So the rows before the break come twice.
    pub query_impl-Returned :
        (fuel : ℕ) (sql : Bytes) (params : List ParamValue) (w v : World) (ts : List T)
        → query_impl mapper d fuel sql params w ≡ some (v, (done, ts))
        → Returned fuel (query_calls sql params) w v ts
    unfolding query_impl query_to_callback
    query_impl-Returned fuel sql params w v ts h =
        let (ended, rows) = with_rows_done w v ts (query_to_callback d fuel sql params w) h in
        let rounds = established w.conn.connected w v _ ended in
        subst (Returned fuel (query_calls sql params) w v) (sym rows)
          (rounds_done fuel (query_calls sql params) w v (query_calls-Rowless sql params) rounds)
