-- ===== src/Query/Sync/Gather.antt =====
-- Gathering gives the rows that a reader of the pages gets.
use lake_go.Prelude.{
  ℕ, zero, suc, ◌<◌, ◌≡◌, ◌∙◌, refl, arith, false, Option, none, some, List, [], ◌∷◌, ◌++◌, Bytes,
  append_assoc, append-nil, sym,
}
use lake_go.Prelude.Result.{ok}
use lake_go.Types.ColumnType.{Value}
use lake_go.Query.Response.{QueryResponse, read_finished, typed_of}
use lake_go.Query.Rows.{Pager}
use lake_go.Query.Rows.Stream.{Streams, last_page, more_pages, Streams-IsPage}
use lake_go.Query.Sync.{append_slice, join_page, poll_until_query_end}

typed_of-append_slice :
    {T : Type 0} (xs ys : Option (List (List (Value T))))
    → typed_of (append_slice xs ys) ≡ typed_of xs ++ typed_of ys
typed_of-append_slice (some xs) (some ys) = refl
typed_of-append_slice (some xs) none = sym (append-nil xs)
typed_of-append_slice none (some []) = refl
typed_of-append_slice none (some (y ∷ ys)) = refl
typed_of-append_slice none none = refl

module _ {T S : Type 0} (pager : Pager T S) (width : ℕ) where
  -- Gathering ends with these rows, at the page with this final URI and in this state.
  pub data Gathers (f : ℕ) (r : QueryResponse T) (s : S) (rows : List (List (Value T)))
      (uri : Bytes) (u : S) : Type 0 where
    gathered :
        {l : QueryResponse T}
        → poll_until_query_end pager f r s ≡ (ok l, u)
        → typed_of l.typed_rows ≡ rows
        → l.final_uri ≡ uri
        → Gathers f r s rows uri u

  Gathers-step :
      {f : ℕ} {a b : QueryResponse T} {s s' u : S} {rows rows' : List (List (Value T))}
      {uri : Bytes}
      → poll_until_query_end pager (suc f) a s ≡ poll_until_query_end pager f b s'
      → rows ≡ rows'
      → Gathers f b s' rows uri u
      → Gathers (suc f) a s rows' uri u
  Gathers-step e q (gathered h t p) = gathered (e ∙ h) (t ∙ q) p

  poll_until_query_end-page :
      (f : ℕ) (a r' : QueryResponse T) (s s' : S)
      → read_finished a ≡ false
      → pager.poll_query a.next_uri s ≡ (ok r', s')
      → r'.error ≡ none
      → poll_until_query_end pager (suc f) a s ≡ poll_until_query_end pager f (join_page a r') s'
  unfolding poll_until_query_end
  poll_until_query_end-page f a r' s s' fin poll e = simp (fin, poll, e)

  Gathers-join :
      (n f : ℕ) (q : QueryResponse T) {r : QueryResponse T} {s u : S} {all : List (List (Value T))}
      {uri : Bytes}
      → Streams pager width n r s all uri u
      → n < f
      → Gathers f (join_page q r) s (typed_of q.typed_rows ++ all) uri u
  unfolding poll_until_query_end read_finished
  Gathers-join n zero q h lt = absurd (omega arith)
  Gathers-join zero (suc f) q (last_page {r = r} p fin) lt =
      gathered {l = join_page q r} (simp fin) (typed_of-append_slice q.typed_rows r.typed_rows) refl
  Gathers-join (suc n) (suc f) q
        (more_pages {r = r} {r' = r'} {s = s} {s' = s'} {all = all} p fin poll st) lt =
      let e = typed_of-append_slice q.typed_rows r.typed_rows in
      Gathers-step
        (poll_until_query_end-page f (join_page q r) r' s s' fin poll
          (Streams-IsPage pager width st).no_error)
        (rw e (append_assoc (typed_of q.typed_rows) (typed_of r.typed_rows) all))
        (Gathers-join n f (join_page q r) st (omega arith))

  -- On a chain of pages with no error and typed rows only, polling to the end gives one response
  -- with the rows of all pages in order, those that a reader of the pages gets. The fuel is more
  -- than the polls of the chain.
  pub poll_until_query_end-Streams :
      (n f : ℕ) {r : QueryResponse T} {s u : S} {all : List (List (Value T))} {uri : Bytes}
      → Streams pager width n r s all uri u
      → n < f
      → Gathers f r s all uri u
  unfolding poll_until_query_end
  poll_until_query_end-Streams n zero h lt = absurd (omega arith)
  poll_until_query_end-Streams zero (suc f) (last_page {r = r} p fin) lt =
      gathered {l = r} (simp fin) refl refl
  poll_until_query_end-Streams (suc n) (suc f)
        (more_pages {r = r} {r' = r'} {s = s} {s' = s'} p fin poll st) lt =
      Gathers-step
        (poll_until_query_end-page f r r' s s' fin poll (Streams-IsPage pager width st).no_error)
        refl (Gathers-join n f r st (omega arith))
