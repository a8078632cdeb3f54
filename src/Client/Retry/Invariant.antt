-- ===== src/Client/Retry/Invariant.antt =====
-- What one attempt keeps, all attempts keep.
use lake_go.Prelude.{Bool, ℕ, zero, suc, ◌≡◌, ◌-◌, refl, inl, inr, arith, Bool-cases}
use lake_go.Prelude.Result.{Result, ok, err}
use lake_go.Client.Errors.{Failure}
use lake_go.Client.Retry.{
  RequestType, retry_delay, retry_attempts, retry_if, Action, Retrier, IsRetrier, do_retry,
}

module _ {S A : Type 0} (Q : S → Type 0) (pause : ℕ → S → S) (f : Action S A)
    (pause_keeps : (n : ℕ) (s : S) → Q s → Q (pause n s)) (f_keeps : (s : S) → Q s → Q (f s).1)
    (r : Retrier) (law : IsRetrier r) (delay : ℕ) (test : Failure → Bool) where
  retry_do_keeps :
      (left : ℕ) (s : S) (out : Result Failure A × S)
      → f s ≡ out
      → Q s
      → Q (r.retry_do pause delay (suc left) test f s).1
  retry_do_keeps left s (ok a, s') e q =
      rw (law.once_ok pause delay left test f s a s' e) (rw e at (f_keeps s q))
  retry_do_keeps zero s (err x, s') e q =
      rw (law.give_up pause delay zero test f s x s' e (inr refl)) (rw e at (f_keeps s q))
  retry_do_keeps (suc left) s (err x, s') e q = elim (Bool-cases (test x)) [
    | inl t ↦ rw (law.again pause delay left test f s x s' e t) (
        retry_do_keeps left (pause delay s') (f (pause delay s')) refl
          (pause_keeps delay s' (rw e at (f_keeps s q))))
    | inr t ↦
        rw (law.give_up pause delay (suc left) test f s x s' e (inl t)) (rw e at (f_keeps s q))
  ]

-- A property of the state that one attempt and one pause keep holds behind `doRetry`.
pub do_retry_keeps :
    {S A : Type 0} (Q : S → Type 0) (r : Retrier) (law : IsRetrier r) (pause : ℕ → S → S)
    (t : RequestType) (f : Action S A) (s : S)
    → ((n : ℕ) (s : S) → Q s → Q (pause n s))
    → ((s : S) → Q s → Q (f s).1)
    → Q s
    → Q (do_retry r pause t f s).1
unfolding do_retry
do_retry_keeps Q r law pause t f s pk fk q =
    let k : retry_attempts t ≡ suc (retry_attempts t - 1) = grind arith in
    rw (k, do_retry)
      (retry_do_keeps Q pause f pk fk r law (retry_delay t) (retry_if t) (retry_attempts t - 1) s
        (f s) refl q)
