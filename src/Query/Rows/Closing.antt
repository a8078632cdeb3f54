-- ===== src/Query/Rows/Closing.antt =====
-- Rows that are closed, and rows whose page could not be had.
use lake_go.Prelude.{
  ℕ, zero, suc, ◌<◌, ◌≡◌, arith, true, false, none, some, length, inl, inr, Bool-cases, ◌==◌, codes,
  ◌++◌,
}
use lake_go.Prelude.Result.{ok, err}
use lake_go.Client.Errors.{Failure, QueryError, is_canceled, other, query_error_text}
use lake_go.Types.ColumnType.{Parsers}
use lake_go.Query.Response.{QueryResponse, read_finished, buffered_row_count}
use lake_go.Query.Rows.{
  Pager, NextRows, eof, page, wait_loop, wait_for_data, do_close, next, next_of, after_wait,
  first_error,
}

same : (n : ℕ) → (n == n) ≡ true
same n = ground arith

module _ {T S Z E : Type 0} (pager : Pager T S) (lib : Parsers Z T E) (fuel : ℕ) where
  -- Closing a second time changes nothing and asks the server for nothing, and `Next` on closed rows,
  -- with a destination of the right size, gives io.EOF and asks for nothing.
  pub do_close-closed :
      (rows : NextRows Z T) (s t : S)
      → (do_close pager lib (do_close pager lib rows s).0 t ≡ ((do_close pager lib rows s).0, t))
        × (next pager lib fuel (do_close pager lib rows s).0 (length rows.columns) t
            ≡ (err eof, ((do_close pager lib rows s).0, t)))
  unfolding do_close next
  do_close-closed rows s t = elim (Bool-cases rows.is_closed) [
    | inl c ↦ (simp c, simp (c, same (length rows.columns)))
    | inr c ↦ (simp c, simp (c, same (length rows.columns)))
  ]

  -- A page that is waited behind: it holds no row, reports no error and is not the last.
  pub record IsWaiting (r : QueryResponse T) : Type 0 where
    pub no_error : r.error ≡ none
    pub no_row : buffered_row_count r ≡ 0
    pub unfinished : read_finished r ≡ false

  -- So many polls lead from one page to another, each behind a page that is waited behind.
  pub data Polled : ℕ → QueryResponse T → S → QueryResponse T → S → Type 0 where
    none_polled : {r : QueryResponse T} {s : S} → Polled 0 r s r s
    one_polled :
        {n : ℕ} {r r' last : QueryResponse T} {s s' t : S}
        → IsWaiting r
        → pager.poll_query r.next_uri s ≡ (ok r', s')
        → r'.error ≡ none
        → Polled n r' s' last t
        → Polled (suc n) r s last t

  -- How a poll behind a page fails, and what the server is told: the query of the page that was polled is
  -- killed or closed, and that of a page with an error is closed.
  pub data PollFails (r : QueryResponse T) (s : S) : Failure → S → Type 0 where
    poll_canceled :
        {e : Failure} {t : S}
        → pager.poll_query r.next_uri s ≡ (err e, t)
        → is_canceled e ≡ true
        → PollFails r s e (pager.kill_query r.kill_uri t)
    poll_failed :
        {e : Failure} {t : S}
        → pager.poll_query r.next_uri s ≡ (err e, t)
        → is_canceled e ≡ false
        → PollFails r s e (pager.close_query r.final_uri t)
    poll_reported :
        {r' : QueryResponse T} {t : S} {q : QueryError}
        → pager.poll_query r.next_uri s ≡ (ok r', t)
        → r'.error ≡ some q
        → PollFails r s
            (other (codes "query error: " ++ query_error_text q))
            (pager.close_query r'.final_uri t)

  wait_loop_failed :
      (f : ℕ) (r : QueryResponse T) (s u : S) (e : Failure)
      → IsWaiting r
      → PollFails r s e u
      → 0 < f
      → wait_loop pager f r s ≡ (err e, u)
  unfolding wait_loop
  wait_loop_failed zero r s u e w p lt = absurd (omega arith)
  wait_loop_failed (suc k) r s u e w (poll_canceled p c) lt =
      simp (w.unfinished, w.no_error, w.no_row, p, c)
  wait_loop_failed (suc k) r s u e w (poll_failed p c) lt =
      simp (w.unfinished, w.no_error, w.no_row, p, c)
  wait_loop_failed (suc k) r s u e w (poll_reported p q) lt =
      simp (w.unfinished, w.no_error, w.no_row, p, q)

  wait_loop-Polled :
      (f n : ℕ) (r last : QueryResponse T) (s t u : S) (e : Failure)
      → Polled n r s last t
      → IsWaiting last
      → PollFails last t e u
      → n < f
      → wait_loop pager f r s ≡ (err e, u)
  unfolding wait_loop
  wait_loop-Polled f n r last s t u e none_polled w p lt = wait_loop_failed f r s u e w p lt
  wait_loop-Polled zero (suc n) r last s t u e (one_polled v q o ps) w p lt = absurd (omega arith)
  wait_loop-Polled (suc k) (suc n) r last s t u e (one_polled v q o ps) w p lt =
      let rest = wait_loop-Polled k n _ last _ t u e ps w p (omega arith) in
      simp (v.unfinished, v.no_error, v.no_row, q, o, rest)

  -- On open rows with no row at hand, and behind any number of further pages with no row: where a poll
  -- fails, or gives a page with an error, the call fails with that error, once the query was killed by the
  -- URI of the last page where the context was canceled, and closed by it where it was not, or by that of the
  -- page with the error; the next call gives io.EOF and asks the server for nothing. The fuel is more than
  -- the pages before.
  pub next-failed :
      (rows : NextRows Z T) (n : ℕ) (r last : QueryResponse T) (s t u v : S) (e : Failure)
      → rows.is_closed ≡ false
      → rows.resp_data ≡ some r
      → r.error ≡ none
      → buffered_row_count r ≡ 0
      → Polled n r s last t
      → IsWaiting last
      → PollFails last t e u
      → n < fuel
      → (next pager lib fuel rows (length rows.columns) s
          ≡ (err (page e), (record rows { resp_data = none }, u)))
        × (next pager lib fuel (record rows { resp_data = none }) (length rows.columns) v
            ≡ (err eof, (record rows { resp_data = none }, v)))
  unfolding next next_of wait_for_data first_error after_wait
  next-failed rows n r last s t u v e o d x c ps w p lt =
      let k : (buffered_row_count r == 0) ≡ true = ground arith in
      let l = wait_loop-Polled fuel n r last s t u e ps w p lt in
      (simp (same (length rows.columns), o, d, k, x, l), simp (same (length rows.columns), o))
