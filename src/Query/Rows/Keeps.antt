-- ===== src/Query/Rows/Keeps.antt =====
-- What reading and closing rows keeps of the state of the client.
use lake_go.Prelude.{ℕ, zero, suc, not, ◌&&◌, ◌==◌, Option, none, some, length, if_both}
use lake_go.Prelude.Result.{Result, ok, err}
use lake_go.Client.Errors.{Failure, QueryError, is_canceled}
use lake_go.Types.ColumnType.{Parsers}
use lake_go.Query.Response.{QueryResponse, read_finished, buffered_row_count, is_nil}
use lake_go.Query.Sync.Invariant.{PagerKeeps}
use lake_go.Query.Rows.{
  Pager, NextRows, Step, has_error, wait_loop, on_page, after_poll, first_error, wait_for_data,
  close_response, do_close, end_of_rows, take_row, after_wait, next_of, next,
}

module _ {T S : Type 0} (pager : Pager T S) (I : S → Type 0) (keeps : PagerKeeps pager I) where
  abbrev Waits : Result Failure (QueryResponse T) × S → Type 0
  Waits r = I r.1

  on_page_keeps :
      (next : QueryResponse T → S → Result Failure (QueryResponse T) × S) (r : QueryResponse T)
      (e : Option QueryError) (s : S)
      → ((r : QueryResponse T) (s : S) → I s → Waits (next r s))
      → I s
      → Waits (on_page pager next r e s)
  unfolding on_page
  on_page_keeps next r none s k i = k r s i
  on_page_keeps next r (some e) s k i = keeps.close_keeps r.final_uri s i

  after_poll_keeps :
      (next : QueryResponse T → S → Result Failure (QueryResponse T) × S) (r : QueryResponse T)
      (polled : Result Failure (QueryResponse T) × S)
      → ((r : QueryResponse T) (s : S) → I s → Waits (next r s))
      → I polled.1
      → Waits (after_poll pager next r polled)
  unfolding after_poll
  after_poll_keeps next r (err e, s) k i =
      if_both I (is_canceled e) (keeps.kill_keeps r.kill_uri s i)
        (keeps.close_keeps r.final_uri s i)
  after_poll_keeps next r (ok r', s) k i = on_page_keeps next r' r'.error s k i

  wait_loop_keeps :
      (fuel : ℕ) (r : QueryResponse T) (s : S) → I s → Waits (wait_loop pager fuel r s)
  unfolding wait_loop
  wait_loop_keeps zero r s i = i
  wait_loop_keeps (suc n) r s i =
      if_both {A = Result Failure (QueryResponse T) × S} Waits
        (not (read_finished r) && (buffered_row_count r == 0 && not (has_error r.error)))
        (after_poll_keeps (wait_loop pager n) r (pager.poll_query r.next_uri s) (wait_loop_keeps n)
          (keeps.poll_keeps r.next_uri s i))
        i

  first_error_keeps :
      (fuel : ℕ) (r : QueryResponse T) (e : Option QueryError) (s : S)
      → I s
      → Waits (first_error pager fuel r e s)
  unfolding first_error
  first_error_keeps fuel r (some e) s i = i
  first_error_keeps fuel r none s i = wait_loop_keeps fuel r s i

  -- Waiting for a page keeps what the calls of the pager keep.
  pub wait_for_data_keeps :
      (fuel : ℕ) (r : QueryResponse T) (s : S) → I s → Waits (wait_for_data pager fuel r s)
  unfolding wait_for_data
  wait_for_data_keeps fuel r s i = first_error_keeps fuel r r.error s i

  module _ {Z E : Type 0} (lib : Parsers Z T E) where
    close_response_keeps :
        (o : Option (QueryResponse T)) (s : S) → I s → I (close_response pager lib o s)
    unfolding close_response
    close_response_keeps none s i = i
    close_response_keeps (some r) s i =
        if_both I (not (is_nil r.final_uri)) (keeps.detached_keeps r.final_uri s i) i

    -- Closing rows keeps it.
    pub do_close_keeps : (rows : NextRows Z T) (s : S) → I s → I (do_close pager lib rows s).1
    unfolding do_close
    do_close_keeps rows s i =
        if_both {A = NextRows Z T × S} (λ r. I r.1) rows.is_closed i
          (close_response_keeps rows.resp_data s i)

    abbrev Steps : Step pager lib → Type 0
    Steps r = I r.1.1

    take_row_keeps :
        (rows : NextRows Z T) (r : QueryResponse T) (s : S)
        → I s
        → Steps (take_row pager lib rows r s)
    unfolding take_row end_of_rows
    take_row_keeps rows r s i =
        if_both {A = Step pager lib} Steps (buffered_row_count r == 0)
          (do_close_keeps (record rows { resp_data = some r }) s i) i

    after_wait_keeps :
        (rows : NextRows Z T) (r : Result Failure (QueryResponse T) × S)
        → I r.1
        → Steps (after_wait pager lib rows r)
    unfolding after_wait
    after_wait_keeps rows (err e, s) i = i
    after_wait_keeps rows (ok r, s) i = take_row_keeps rows r s i

    next_of_keeps :
        (fuel : ℕ) (rows : NextRows Z T) (o : Option (QueryResponse T)) (s : S)
        → I s
        → Steps (next_of pager lib fuel rows o s)
    unfolding next_of
    next_of_keeps fuel rows none s i = i
    next_of_keeps fuel rows (some r) s i =
        if_both {A = Step pager lib} Steps (buffered_row_count r == 0)
          (after_wait_keeps rows (wait_for_data pager fuel r s) (wait_for_data_keeps fuel r s i))
          (take_row_keeps rows r s i)

    -- Reading a row keeps it.
    pub next_keeps :
        (fuel : ℕ) (rows : NextRows Z T) (dest : ℕ) (s : S)
        → I s
        → Steps (next pager lib fuel rows dest s)
    unfolding next
    next_keeps fuel rows dest s i =
        if_both {A = Step pager lib} Steps (not (dest == length rows.columns)) i (
          if_both {A = Step pager lib} Steps rows.is_closed i
            (next_of_keeps fuel rows rows.resp_data s i))
