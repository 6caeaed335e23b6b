-- ===== src/Books/RetryColumns.antt =====
-- The steps of a retry keep the amounts of the stored operations
-- (internal/application/retry_references.go).
use backend_challenge.Base.{◌+◌, leb, Option, ℕ, none, some}
use backend_challenge.Domain.Wager.{WagerTransaction}
use backend_challenge.Postgres.{find_wallet, PendingReference, Runtime}
use backend_challenge.Books.ProcessColumns.{schedule-Fits, reject_wager-Fits, process_wager-Fits}
use backend_challenge.Books.Columns.{
  Reads-Fits, within_transaction-Fits, Fits, >>=-Fits, lift-Fits, pure-Fits, if-Fits, query-Fits,
}
use backend_challenge.Application.{
  next_attempt, failure_reference_not_found, retry_claimed, last_attempt, retry_references,
  retry_if, Trace,
}
use backend_challenge.Books.Claims.{claim-Reads}
use backend_challenge.Application.Delays.{validate_retry, ReferenceRetryPolicy}

module _ (rt : Runtime) (policy : ReferenceRetryPolicy) where
  last_attempt-Fits :
      (trace : Trace) (attempts : ℕ) (t : WagerTransaction)
      → Fits (last_attempt rt policy trace attempts t)
  unfolding last_attempt
  last_attempt-Fits trace attempts t =
      if-Fits _ _ _ (reject_wager-Fits rt trace t failure_reference_not_found) (pure-Fits t)

  retry_claimed-Fits : (pending : PendingReference) → Fits (retry_claimed rt policy pending)
  unfolding retry_claimed next_attempt find_wallet
  retry_claimed-Fits pending = >>=-Fits _ _ (query-Fits rt _) (λ wallet.
      if-Fits (leb policy.max_attempts pending.attempts) _ _
        (>>=-Fits _ _ (reject_wager-Fits rt _ pending.transaction _) (λ rejected. pure-Fits _))
        (>>=-Fits _ _
          (>>=-Fits _ _ (schedule-Fits rt pending.transaction.id (pending.attempts + 1) _)
            (λ scheduled.
              >>=-Fits _ _ (process_wager-Fits rt _ wallet pending.transaction)
                (λ processed. last_attempt-Fits _ (pending.attempts + 1) processed)))
          (λ processed. pure-Fits _)))

  retry_if-Fits : (claimed : Option PendingReference) → Fits (retry_if rt policy claimed)
  unfolding retry_if
  retry_if-Fits none = pure-Fits none
  retry_if-Fits (some pending) =
      >>=-Fits _ _ (retry_claimed-Fits pending) (λ result. pure-Fits (some result))

  -- The retries keep that the stored amounts fit their column.
  pub retry_references-Fits : Fits (retry_references rt policy)
  unfolding retry_references
  retry_references-Fits = >>=-Fits _ _ (lift-Fits (validate_retry policy)) (λ valid.
      within_transaction-Fits rt _ (>>=-Fits _ _ (Reads-Fits _ (claim-Reads rt)) retry_if-Fits))
