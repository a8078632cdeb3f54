-- ===== src/Client/Retry/Attempts.antt =====
-- What `doRetry` returns after so many failures.
use lake_go.Prelude.{ℕ, suc, ◌≡◌, ◌≢◌, ◌⊎◌, true, false}
use lake_go.Prelude.Result.{err}
use lake_go.Client.Errors.{
  Failure, is_canceled, is_deadline, is_do_request, is_read_response, is_proxy_err,
  is_provision_warehouse_timeout,
}
use lake_go.Client.Retry.{RequestType, query, page, final, kill, Action}

-- How many attempts a request has, and the seconds between them.
pub data Budget : RequestType → ℕ → ℕ → Type 0 where
  query_budget : Budget query 5 2
  page_budget : Budget page 3 1
  final_budget : Budget final 3 1
  kill_budget : Budget kill 3 1

-- The errors that another attempt may mend: those of the transport, an answer of the proxy with status 520
-- and, for a new query, a warehouse that is not ready.
pub data IsPassing : RequestType → Failure → Type 0 where
  no_request : {t : RequestType} {e : Failure} → is_do_request e ≡ true → IsPassing t e
  no_answer : {t : RequestType} {e : Failure} → is_read_response e ≡ true → IsPassing t e
  proxy : {t : RequestType} {e : Failure} → is_proxy_err e ≡ true → IsPassing t e
  not_ready : {e : Failure} → is_provision_warehouse_timeout e ≡ true → IsPassing query e

-- An error that is retried: neither of a context that is done.
pub record IsRetried (t : RequestType) (e : Failure) : Type 0 where
  pub not_canceled : is_canceled e ≡ false
  pub in_time : is_deadline e ≡ false
  pub passing : IsPassing t e

-- The errors that end a call at once.
pub data IsFinal : RequestType → Failure → Type 0 where
  canceled_final : {t : RequestType} {e : Failure} → is_canceled e ≡ true → IsFinal t e
  late_final : {t : RequestType} {e : Failure} → is_deadline e ≡ true → IsFinal t e
  other_final :
      {t : RequestType} {e : Failure}
      → is_do_request e ≡ false
      → is_read_response e ≡ false
      → is_proxy_err e ≡ false
      → (t ≢ query) ⊎ (is_provision_warehouse_timeout e ≡ false)
      → IsFinal t e

module _ {S A : Type 0} (pause : ℕ → S → S) (t : RequestType) (delay : ℕ) (f : Action S A) where
  -- So many attempts in a row fail with errors that are retried, with the pauses between them.
  pub data Fails : ℕ → S → S → Type 0 where
    none_failed : {s : S} → Fails 0 s s
    one_failed :
        {n : ℕ} {s s' u : S} {e : Failure}
        → f s ≡ (err e, s')
        → IsRetried t e
        → Fails n (pause delay s') u
        → Fails (suc n) s u
