-- ===== src/Query/Rows/Stream/Drain.antt =====
-- A reader of the rows gets every row of every page, and the query is closed behind the last one.
use lake_go.Prelude.{
  not, ℕ, ◌<◌, ◌≡◌, refl, arith, true, false, none, some, List, [], ◌∷◌, length, Bytes, ◌==◌, inl,
  inr, if◌then◌else◌, Bool-cases,
}
use lake_go.Query.Rows.{
  Pager, NextRows, eof, wait_loop, wait_for_data, do_close, next, next_of, pop, take_row,
  after_wait, row_result, end_of_rows, first_error, close_response,
}
use lake_go.Prelude.Result.{ok, err}
use lake_go.Types.ColumnType.{Value, Parsers}
use lake_go.Query.Response.{QueryResponse, is_nil, buffered_row_count, typed_of}
use lake_go.Query.Rows.Stream.{
  IsPage, count-IsPage, Streams, Streams-IsPage, pop-Streams, Waited, has_row, no_more,
  wait_loop-Waited, wait_loop_has_row,
}
use lake_go.Query.Materialize.{parse_row}

same : (n : ℕ) → (n == n) ≡ true
same n = ground arith

module _ {T S Z E : Type 0} (pager : Pager T S) (lib : Parsers Z T E) (fuel : ℕ) where
  -- The rows that `Next` gives one after another, up to io.EOF, and the state behind it.
  pub data Drains : NextRows Z T → S → List (List (Value T)) → S → Type 0 where
    ends :
        {rows rows' : NextRows Z T} {s s' : S}
        → next pager lib fuel rows (length rows.columns) s ≡ (err eof, (rows', s'))
        → Drains rows s [] s'
    reads :
        {rows rows' : NextRows Z T} {s s' t : S} {row : List (Value T)}
        {rest : List (List (Value T))}
        → next pager lib fuel rows (length rows.columns) s ≡ (ok row, (rows', s'))
        → Drains rows' s' rest t
        → Drains rows s (row ∷ rest) t

  row_result-row :
      (rows : NextRows Z T) (row : List (Value T))
      → length row ≡ length rows.columns
      → row_result pager lib rows row [] ≡ ok row
  unfolding row_result parse_row
  row_result-row rows [] h = ground (arith)
  row_result-row rows (v ∷ row) h = ground arith

  take_row-row :
      (rows : NextRows Z T) {r : QueryResponse T} (s : S) {row : List (Value T)}
      {ts : List (List (Value T))}
      → IsPage (length rows.columns) r
      → typed_of r.typed_rows ≡ row ∷ ts
      → take_row pager lib rows r s ≡ (ok row, (record rows { resp_data = some (pop r) }, s))
  unfolding take_row
  take_row-row rows {r} s {row} p e =
      let c = count-IsPage p e in
      let w = (rw e at p.wide).0 in
      let h = row_result-row rows row w in
      let k : (buffered_row_count r == 0) ≡ false = ground arith in rw (k, e, p.no_raw, h)

  take_row-end :
      (rows : NextRows Z T) {r : QueryResponse T} (s : S)
      → IsPage (length rows.columns) r
      → typed_of r.typed_rows ≡ []
      → take_row pager lib rows r s
        ≡ (err eof, do_close pager lib (record rows { resp_data = some r }) s)
  unfolding take_row end_of_rows
  take_row-end rows {r} s p e = let c = count-IsPage p e in rw c

  -- `Next` on an open result gives what is behind the wait, which ends at once where a row is left.
  next-after_wait :
      (rows : NextRows Z T) {r : QueryResponse T} (s : S)
      → rows.is_closed ≡ false
      → rows.resp_data ≡ some r
      → r.error ≡ none
      → 0 < fuel
      → next pager lib fuel rows (length rows.columns) s
        ≡ after_wait pager lib rows (wait_loop pager fuel r s)
  unfolding next next_of wait_for_data first_error
  next-after_wait rows {r} s o d e lt = elim (Bool-cases (buffered_row_count r == 0)) [
    | inl c ↦ simp (same (length rows.columns), o, d, e, c)
    | inr c ↦
        simp
          (same (length rows.columns), o, d, c, wait_loop_has_row pager 0 fuel r s lt c, after_wait)
  ]

  -- `CloseQuery` on the last page, where it has a final URI.
  abbrev pub close_at : Bytes → S → S
  close_at uri s = if not (is_nil uri) then pager.close_detached uri s else s

  do_close-eof :
      (rows : NextRows Z T) (r : QueryResponse T) (s : S) {uri : Bytes}
      → rows.is_closed ≡ false
      → r.final_uri ≡ uri
      → (do_close pager lib (record rows { resp_data = some r }) s).1 ≡ close_at uri s
  unfolding do_close close_response
  do_close-eof rows r s o q = rw (o, q)

  next_row :
      (rows : NextRows Z T) {r r' : QueryResponse T} (s s' : S) {row : List (Value T)}
      {ts : List (List (Value T))}
      → rows.is_closed ≡ false
      → rows.resp_data ≡ some r
      → r.error ≡ none
      → 0 < fuel
      → wait_loop pager fuel r s ≡ (ok r', s')
      → IsPage (length rows.columns) r'
      → typed_of r'.typed_rows ≡ row ∷ ts
      → next pager lib fuel rows (length rows.columns) s
        ≡ (ok row, (record rows { resp_data = some (pop r') }, s'))
  unfolding after_wait
  next_row rows s s' o d e lt w p t =
      rw (next-after_wait rows s o d e lt, w) (take_row-row rows s' p t)

  next_eof :
      (rows : NextRows Z T) {r r' : QueryResponse T} (s s' : S)
      → rows.is_closed ≡ false
      → rows.resp_data ≡ some r
      → r.error ≡ none
      → 0 < fuel
      → wait_loop pager fuel r s ≡ (ok r', s')
      → IsPage (length rows.columns) r'
      → typed_of r'.typed_rows ≡ []
      → next pager lib fuel rows (length rows.columns) s
        ≡ (err eof, do_close pager lib (record rows { resp_data = some r' }) s')
  unfolding after_wait
  next_eof rows s s' o d e lt w p t =
      rw (next-after_wait rows s o d e lt, w) (take_row-end rows s' p t)

  drain :
      (all : List (List (Value T))) (rows : NextRows Z T) {r : QueryResponse T} {s u : S}
      {uri : Bytes} {n : ℕ}
      → rows.is_closed ≡ false
      → rows.resp_data ≡ some r
      → IsPage (length rows.columns) r
      → n < fuel
      → Waited pager (length rows.columns) fuel r s all uri u n
      → Drains rows s all (close_at uri u)
  drain [] rows o d pg lt (has_row w st le e) = let (rest, q, st') = pop-Streams pager _ st e in cc
  drain [] rows {r} {s} {u} o d pg lt (no_more {r' = r'} w p n q t) =
      let step = next_eof rows s u o d pg.no_error (omega arith) w p t in
      rw (← do_close-eof rows r' u o q) (ends step)
  drain (row ∷ rest) rows {s = s} {u = u} {uri = uri} o d pg lt
        (has_row {m = m} {r' = r'} {s' = s'} {row = first} w st le e) =
      let (rest', q, popped) = pop-Streams pager _ st e in
      let same_row : row ≡ first = cc in
      let same_rest : rest ≡ rest' = cc in
      let behind : Streams pager (length rows.columns) m (pop r') s' rest uri u =
        rw same_rest popped in
      let step = next_row rows s s' o d pg.no_error (omega arith) w (Streams-IsPage pager _ st) e in
      let waits = wait_loop-Waited pager _ fuel m _ refl behind (omega arith) in
      rw same_row (
        reads step (
          drain rest (record rows { resp_data = some (pop r') }) o refl
            (Streams-IsPage pager _ behind) (omega arith) waits))
  drain (row ∷ rest) rows o d pg lt (no_more w p n q t) = cc

  -- On an open result, and on a chain of pages with no error whose typed rows are as wide as the
  -- result: repeated calls of `Next` give the rows of the page at hand and of every page behind
  -- it, in order and each once, then io.EOF, with the last page's final URI closed. The fuel for
  -- one call is more than the polls of the chain.
  pub next-Drains :
      (all : List (List (Value T))) (rows : NextRows Z T) {r : QueryResponse T} {s u : S}
      {uri : Bytes} (n : ℕ)
      → rows.is_closed ≡ false
      → rows.resp_data ≡ some r
      → Streams pager (length rows.columns) n r s all uri u
      → n < fuel
      → Drains rows s all (close_at uri u)
  next-Drains all rows {r} n o d st lt =
      drain all rows o d (Streams-IsPage pager _ st) lt
        (wait_loop-Waited pager _ fuel n (typed_of r.typed_rows) refl st lt)
