-- ===== src/Client/Retry.antt =====
-- client.go: `doRetry`. The loop is that of the retry-go package, an argument here, with what its
-- documentation says of the options that the client sets.
pub mod Attempts
pub mod Invariant
use lake_go.Prelude.{ℕ, suc, ◌≡◌, ◌⊎◌, Bool, true, false, ◌&&◌, ◌||◌, if◌then◌else◌}
use lake_go.Prelude.Result.{Result, ok, err}
use lake_go.Client.Errors.{
  Failure, is_canceled, is_deadline, is_do_request, is_read_response, is_proxy_err,
  is_provision_warehouse_timeout,
}

pub data RequestType : Type 0 where
  query page final kill : RequestType

abbrev pub is_query : RequestType → Bool
is_query query = true
is_query _ = false

-- seconds between the attempts
abbrev pub retry_delay : RequestType → ℕ
retry_delay t = if is_query t then 2 else 1

abbrev pub retry_attempts : RequestType → ℕ
retry_attempts t = if is_query t then 5 else 3

-- The function of `retry.RetryIf`.
unfoldable pub retry_if : RequestType → Failure → Bool
retry_if t e =
    if is_canceled e || is_deadline e
    then false
    else if is_do_request e || (is_read_response e || is_proxy_err e)
    then true
    else is_query t && is_provision_warehouse_timeout e

-- An action on a state that may fail, such as one attempt of a request.
abbrev pub Action : Type 0 → Type 0 → Type 0
Action S A = S → Result Failure A × S

-- retry.Do with RetryIf, Delay, Attempts, FixedDelay and LastErrorOnly. `pause` is the delay.
pub record Retrier : Type 1 where
  pub retry_do : {S A : Type 0} → (ℕ → S → S) → ℕ → ℕ → (Failure → Bool) → Action S A → Action S A

-- Its documentation: the action runs again after each failure that `retry_if` accepts, at most so
-- many times in all, and the last error is returned.
pub record IsRetrier (r : Retrier) : Type 1 where
  pub once_ok :
      {S A : Type 0} (pause : ℕ → S → S) (delay left : ℕ) (test : Failure → Bool) (f : Action S A)
      (s : S) (a : A) (s' : S)
      → f s ≡ (ok a, s')
      → r.retry_do pause delay (suc left) test f s ≡ (ok a, s')
  pub give_up :
      {S A : Type 0} (pause : ℕ → S → S) (delay left : ℕ) (test : Failure → Bool) (f : Action S A)
      (s : S) (e : Failure) (s' : S)
      → f s ≡ (err e, s')
      → (test e ≡ false) ⊎ (left ≡ 0)
      → r.retry_do pause delay (suc left) test f s ≡ (err e, s')
  pub again :
      {S A : Type 0} (pause : ℕ → S → S) (delay left : ℕ) (test : Failure → Bool) (f : Action S A)
      (s : S) (e : Failure) (s' : S)
      → f s ≡ (err e, s')
      → test e ≡ true
      → r.retry_do pause delay (suc (suc left)) test f s
        ≡ r.retry_do pause delay (suc left) test f (pause delay s')

unfoldable pub do_retry :
    Retrier → {S A : Type 0} → (ℕ → S → S) → RequestType → Action S A → Action S A
do_retry r pause t f = r.retry_do pause (retry_delay t) (retry_attempts t) (retry_if t) f
