-- ===== src/Query/Sync.antt =====
-- client.go: `pollUntilQueryEndWithTransport`, which gathers the rows of all pages.
pub mod Gather
pub mod Invariant
use lake_go.Prelude.{ℕ, zero, suc, Option, none, some, List, [], ◌∷◌, ◌++◌, if◌then◌else◌, codes}
use lake_go.Prelude.Result.{Result, ok, err}
use lake_go.Client.Errors.{Failure, QueryError, wrap, query_failed, out_of_fuel, is_canceled}
use lake_go.Query.Response.{QueryResponse, read_finished}
use lake_go.Query.Rows.{Pager}

-- `append`, which gives nil where there is nothing to hold.
abbrev pub append_slice : {A : Type 0} → Option (List A) → Option (List A) → Option (List A)
append_slice (some xs) (some ys) = some (xs ++ ys)
append_slice (some xs) none = some xs
append_slice none (some []) = none
append_slice none (some (y ∷ ys)) = some (y ∷ ys)
append_slice none none = none

-- The rows so far are put before those of the page.
abbrev pub join_page : {T : Type 0} → QueryResponse T → QueryResponse T → QueryResponse T
join_page r r' = record r' {
  data_rows = r.data_rows ++ r'.data_rows;
  typed_rows = append_slice r.typed_rows r'.typed_rows;
}

module _ {T S : Type 0} (pager : Pager T S) where
  join_or_fail :
      (QueryResponse T → S → Result Failure (QueryResponse T) × S)
      → QueryResponse T
      → QueryResponse T
      → Option QueryError
      → S
      → Result Failure (QueryResponse T) × S
  join_or_fail next r r' (some e) s =
      (err (wrap (codes "query page has error") (query_failed e)), s)
  join_or_fail next r r' none s = next (join_page r r') s

  after_page :
      (QueryResponse T → S → Result Failure (QueryResponse T) × S)
      → QueryResponse T
      → Result Failure (QueryResponse T) × S
      → Result Failure (QueryResponse T) × S
  after_page next r (err e, s) = (err e, if is_canceled e then pager.kill_query r.kill_uri s else s)
  after_page next r (ok r', s) = join_or_fail next r r' r'.error s

  -- The loop, where the fuel bounds the polls.
  unfoldable pub poll_until_query_end :
      ℕ → QueryResponse T → S → Result Failure (QueryResponse T) × S
  unfolding after_page join_or_fail
  poll_until_query_end zero r s = (err out_of_fuel, s)
  poll_until_query_end (suc n) r s =
      let polled = after_page (poll_until_query_end n) r (pager.poll_query r.next_uri s) in
      if read_finished r then (ok r, s) else polled
