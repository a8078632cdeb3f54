-- ===== src/Query/Sync/Invariant.antt =====
-- What the calls of a client keep, gathering keeps.
use lake_go.Prelude.{
  ℕ, zero, suc, Bool, true, false, Option, none, some, inl, inr, Bool-cases, Bytes, if◌then◌else◌,
}
use lake_go.Prelude.Result.{Result, ok, err}
use lake_go.Client.Errors.{Failure, QueryError, is_canceled}
use lake_go.Query.Response.{QueryResponse, read_finished}
use lake_go.Query.Rows.{Pager}
use lake_go.Query.Sync.{join_page, join_or_fail, after_page, poll_until_query_end}

-- Each call of the client keeps the property of the state.
pub record PagerKeeps {T S : Type 0} (pager : Pager T S) (I : S → Type 0) : Type 0 where
  pub poll_keeps : (uri : Bytes) (s : S) → I s → I (pager.poll_query uri s).1
  pub close_keeps : (uri : Bytes) (s : S) → I s → I (pager.close_query uri s)
  pub kill_keeps : (uri : Bytes) (s : S) → I s → I (pager.kill_query uri s)
  pub detached_keeps : (uri : Bytes) (s : S) → I s → I (pager.close_detached uri s)

module _ {T S : Type 0} (pager : Pager T S) (I : S → Type 0) (keeps : PagerKeeps pager I) where
  join_or_fail_keeps :
      (next : QueryResponse T → S → Result Failure (QueryResponse T) × S) (r r' : QueryResponse T)
      (e : Option QueryError) (s : S)
      → ((r : QueryResponse T) (s : S) → I s → I (next r s).1)
      → I s
      → I (join_or_fail pager next r r' e s).1
  unfolding join_or_fail
  join_or_fail_keeps next r r' (some e) s k i = i
  join_or_fail_keeps next r r' none s k i = k (join_page r r') s i

  after_page_keeps :
      (next : QueryResponse T → S → Result Failure (QueryResponse T) × S) (r : QueryResponse T)
      (polled : Result Failure (QueryResponse T) × S)
      → ((r : QueryResponse T) (s : S) → I s → I (next r s).1)
      → I polled.1
      → I (after_page pager next r polled).1
  unfolding after_page
  after_page_keeps next r (err e, s) k i = split (is_canceled e)
    where
      split : (b : Bool) → I (if b then pager.kill_query r.kill_uri s else s)
      split true = keeps.kill_keeps r.kill_uri s i
      split false = i
  after_page_keeps next r (ok r', s) k i = join_or_fail_keeps next r r' r'.error s k i

  pub poll_until_query_end_keeps :
      (fuel : ℕ) (r : QueryResponse T) (s : S) → I s → I (poll_until_query_end pager fuel r s).1
  unfolding poll_until_query_end
  poll_until_query_end_keeps zero r s i = i
  poll_until_query_end_keeps (suc n) r s i = elim (Bool-cases (read_finished r)) [
    | inl f ↦ rw f i
    | inr f ↦ rw f (
        after_page_keeps (poll_until_query_end pager n) r (pager.poll_query r.next_uri s)
          (poll_until_query_end_keeps n) (keeps.poll_keeps r.next_uri s i))
  ]
