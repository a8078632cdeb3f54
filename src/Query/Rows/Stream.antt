-- ===== src/Query/Rows/Stream.antt =====
-- Waiting for data reaches the next row that the server holds, or the last page.
pub mod Drain
use lake_go.Prelude.{
  take, ◌∙◌, zero, ◌<◌, ℕ, suc, ◌≤◌, ◌≡◌, refl, arith, true, false, not, ◌&&◌, Option, none, some,
  List, [], ◌∷◌, ◌++◌, length, Bytes, ◌==◌, All,
}
use lake_go.Query.Rows.{eof, next, NextRows, Parsers, Pager, wait_loop, pop, tail_rows, tail_typed}
use lake_go.Prelude.Result.{err, ok}
use lake_go.Types.ColumnType.{Value}
use lake_go.Query.Response.{QueryResponse, read_finished, buffered_row_count, row_count, typed_of}

-- A page of typed rows, each as wide as the result, and no error.
pub record IsPage {T : Type 0} (width : ℕ) (r : QueryResponse T) : Type 0 where
  pub no_raw : r.data_rows ≡ []
  pub no_error : r.error ≡ none
  pub wide : All (λ row. length row ≡ width) (typed_of r.typed_rows)

module _ {T : Type 0} where
  count-typed_of :
      (data_rows : List (List (Option Bytes))) (typed : Option (List (List (Value T))))
      → data_rows ≡ []
      → row_count typed data_rows ≡ length (typed_of typed)
  count-typed_of data_rows none h = rw h
  count-typed_of data_rows (some rows) h = refl

  count-IsPage :
      {width : ℕ} {r : QueryResponse T} {ts : List (List (Value T))}
      → IsPage width r
      → typed_of r.typed_rows ≡ ts
      → buffered_row_count r ≡ length ts
  count-IsPage {r = r} p e = rw e at (count-typed_of r.data_rows r.typed_rows p.no_raw)

  typed_of-tail_typed :
      (typed : Option (List (List (Value T))))
      → typed_of (tail_typed typed) ≡ tail_rows (typed_of typed)
  typed_of-tail_typed none = refl
  typed_of-tail_typed (some []) = refl
  typed_of-tail_typed (some (row ∷ rows)) = refl

  typed_of-tail :
      (typed : Option (List (List (Value T)))) {row : List (Value T)} {ts : List (List (Value T))}
      → typed_of typed ≡ row ∷ ts
      → typed_of (tail_typed typed) ≡ ts
  typed_of-tail typed e = rw e at (typed_of-tail_typed typed)

  pop-IsPage :
      {width : ℕ} {r : QueryResponse T} {row : List (Value T)} {ts : List (List (Value T))}
      → IsPage width r
      → typed_of r.typed_rows ≡ row ∷ ts
      → IsPage width (pop r)
  pop-IsPage {width} {r} p e = record {
    no_raw = rw (p.no_raw);
    no_error = p.no_error;
    wide = rw (typed_of-tail r.typed_rows e) ((rw e at (p.wide)).1);
  }

module _ {T S : Type 0} (pager : Pager T S) (width : ℕ) where
  -- The rows that the server holds for a page and behind it, with how many polls they take, the final
  -- URI of the last page and the state there.
  pub data Streams : ℕ → QueryResponse T → S → List (List (Value T)) → Bytes → S → Type 0 where
    last_page :
        {r : QueryResponse T} {s : S}
        → IsPage width r
        → read_finished r ≡ true
        → Streams 0 r s (typed_of r.typed_rows) r.final_uri s
    more_pages :
        {n : ℕ} {r r' : QueryResponse T} {s s' u : S} {all : List (List (Value T))} {uri : Bytes}
        → IsPage width r
        → read_finished r ≡ false
        → pager.poll_query r.next_uri s ≡ (ok r', s')
        → Streams n r' s' all uri u
        → Streams (suc n) r s (typed_of r.typed_rows ++ all) uri u

  pub Streams-IsPage :
      {n : ℕ} {r : QueryResponse T} {s u : S} {all : List (List (Value T))} {uri : Bytes}
      → Streams n r s all uri u
      → IsPage width r
  Streams-IsPage (last_page p f) = p
  Streams-IsPage (more_pages p f e h) = p

  pop-Streams :
      {n : ℕ} {r : QueryResponse T} {s u : S} {all : List (List (Value T))} {uri : Bytes}
      {row : List (Value T)} {ts : List (List (Value T))}
      → Streams n r s all uri u
      → typed_of r.typed_rows ≡ row ∷ ts
      → (rest : List (List (Value T))) × (all ≡ row ∷ rest) × Streams n (pop r) s rest uri u
  unfolding read_finished
  pop-Streams {r = r} (last_page p f) e =
      (_, rw (e, typed_of-tail r.typed_rows e), last_page (pop-IsPage p e) f)
  pop-Streams {r = r} (more_pages p f h st) e =
      (_, rw (e, typed_of-tail r.typed_rows e), more_pages (pop-IsPage p e) f h st)

  -- Where waiting for data ends: at a page with a row, or at the last page with no row.
  data Waited (fuel : ℕ) (r : QueryResponse T) (s : S) (all : List (List (Value T))) (uri : Bytes)
      (u : S) (bound : ℕ) : Type 0 where
    has_row :
        {m : ℕ} {r' : QueryResponse T} {s' : S} {row : List (Value T)} {ts : List (List (Value T))}
        → wait_loop pager fuel r s ≡ (ok r', s')
        → Streams m r' s' all uri u
        → m ≤ bound
        → typed_of r'.typed_rows ≡ row ∷ ts
        → Waited fuel r s all uri u bound
    no_more :
        {r' : QueryResponse T}
        → wait_loop pager fuel r s ≡ (ok r', u)
        → IsPage width r'
        → all ≡ []
        → r'.final_uri ≡ uri
        → typed_of r'.typed_rows ≡ []
        → Waited fuel r s all uri u bound

  wait_loop_stays :
      (f : ℕ) (r : QueryResponse T) (s : S)
      → not (read_finished r) && (buffered_row_count r == 0) ≡ false
      → wait_loop pager (suc f) r s ≡ (ok r, s)
  unfolding wait_loop
  wait_loop_stays f r s h = ground arith

  pub wait_loop_has_row :
      (f : ℕ) (r : QueryResponse T) (s : S)
      → 0 < f
      → (buffered_row_count r == 0) ≡ false
      → wait_loop pager f r s ≡ (ok r, s)
  wait_loop_has_row zero r s lt c = absurd (omega arith)
  wait_loop_has_row (suc f) r s lt c = wait_loop_stays f r s (ground arith)

  wait_loop_polls :
      (f : ℕ) (r r' : QueryResponse T) (s s' : S)
      → read_finished r ≡ false
      → buffered_row_count r ≡ 0
      → r.error ≡ none
      → pager.poll_query r.next_uri s ≡ (ok r', s')
      → r'.error ≡ none
      → wait_loop pager (suc f) r s ≡ wait_loop pager f r' s'
  unfolding wait_loop
  wait_loop_polls f r r' s s' h c e p e' = simp (h, c, e, p, e')

  Waited-polls :
      {n f : ℕ} {r r' : QueryResponse T} {s s' u : S} {all : List (List (Value T))} {uri : Bytes}
      → wait_loop pager (suc f) r s ≡ wait_loop pager f r' s'
      → Waited f r' s' all uri u n
      → Waited (suc f) r s all uri u (suc n)
  Waited-polls e (has_row w st le t) = has_row (e ∙ w) st (omega arith) t
  Waited-polls e (no_more w p n q t) = no_more (e ∙ w) p n q t

  -- So many polls find the next row, or the end.
  wait_loop-Waited :
      (f n : ℕ) (ts : List (List (Value T))) {r : QueryResponse T} {s u : S}
      {all : List (List (Value T))} {uri : Bytes}
      → typed_of r.typed_rows ≡ ts
      → Streams n r s all uri u
      → n < f
      → Waited f r s all uri u n
  wait_loop-Waited zero n ts e h lt = absurd (omega arith)
  wait_loop-Waited (suc f) n (row ∷ ts) {r} {s} e h lt =
      let c = count-IsPage (Streams-IsPage h) e in
      has_row (wait_loop_stays f r s (ground arith)) h (omega arith) e
  wait_loop-Waited (suc f) zero [] {r} {s} e (last_page p fin) lt =
      no_more (wait_loop_stays f r s (ground arith)) p e refl e
  wait_loop-Waited (suc f) (suc n) [] {r} {s} e (more_pages {r' = r'} {s' = s'} p fin poll st) lt =
      let polls =
        wait_loop_polls f r r' s s' fin (count-IsPage p e) p.no_error poll
          (Streams-IsPage st).no_error in
      rw e
        (Waited-polls polls (wait_loop-Waited f n (typed_of r'.typed_rows) refl st (omega arith)))
