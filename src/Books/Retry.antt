-- ===== src/Books/Retry.antt =====
-- The retry of a waiting operation keeps the books balanced
-- (internal/application/retry_references.go).
use backend_challenge.Base.{
  ◌+◌, leb, Option, sym, ap, Option-cases, ◌≡◌, ℤ, ℕ, refl, none, some, inl, inr,
}
use backend_challenge.Errors.{Result-cases, ok_inj, err_not_ok, ok}
use backend_challenge.Domain.Money
use backend_challenge.Domain.Wallet
use backend_challenge.Domain.Wallet.{Time, Wallet, Uuid}
use backend_challenge.Books.Statements.{statement-Frames, within_transaction-cases}
use backend_challenge.Domain.Wager.{WagerTransaction}
use backend_challenge.Books.Balance.{IsBalanced}
use backend_challenge.Replay.Reads.{Reads}
use backend_challenge.Postgres.{
  called, within_transaction, claim_pending_reference, find_wallet, is_waiting_row, first, World,
  PendingReference, Db, schedule, schedule_reference_retry, Runtime, ◌>>=◌,
}
use backend_challenge.Books.Process.{Balances, process_wager-Balances}
use backend_challenge.Application.Delays.{validate_retry, ReferenceRetryPolicy}
use backend_challenge.Application.{
  process_wager, failure_reference_not_found, ReferenceRetryResult, Trace, retry_if,
  retry_references, last_attempt, retry_claimed, next_attempt,
}
use backend_challenge.Books.Logic.{
  >>=-Frames, Ensures-weaken, if-Ensures, Ensures-given, Frames->>=, bind-ok, bind-err, pure-Frames,
  Frames-Ensures, if-Frames, >>=-Ensures, Ensures, Frames, books,
}
use backend_challenge.Books.Claims.{claim-Reads, claim-Finds, FitColumns, HasMoney, HasClaim, Finds}
use backend_challenge.Books.Outcomes.{reject_wager-Frames}
use backend_challenge.Books.Stored.{find_wallet-Ensures}
use backend_challenge.Books.Movement.{Holds}

module _ (rt : Runtime) (policy : ReferenceRetryPolicy) where
  schedule-books :
      (id : Uuid) (attempts : ℕ) (delay : ℤ) (now : Time) (db : Db) (x : Unit {0}) (after : Db)
      → schedule id attempts delay now db ≡ ok (x, after)
      → books after ≡ books db
  unfolding schedule
  schedule-books id attempts delay now db x after h =
      elim (Option-cases (first (is_waiting_row id) db.wagers)) [
        | inl missing ↦ absurd (err_not_ok (rw (missing, schedule) at h))
        | inr (row, found) ↦ ap (λ r. books r.1) (sym (ok_inj (rw (found, schedule) at h)))
      ]

  schedule-Frames :
      (id : Uuid) (attempts : ℕ) (delay : ℤ)
      → Frames (schedule_reference_retry rt id attempts delay)
  unfolding schedule_reference_retry
  schedule-Frames id attempts delay =
      statement-Frames rt (schedule id attempts delay) (schedule-books id attempts delay)

  last_attempt-Frames :
      (trace : Trace) (attempts : ℕ) (t : WagerTransaction)
      → Frames (last_attempt rt policy trace attempts t)
  unfolding last_attempt
  last_attempt-Frames trace attempts t =
      if-Frames _ _ _ (reject_wager-Frames rt trace t failure_reference_not_found) (pure-Frames t)

  next_attempt-Ensures :
      (trace : Trace) (attempts : ℕ) (wallet : Wallet) (t : WagerTransaction)
      → Wallet.IsValid wallet
      → Money.IsValid t.money
      → Ensures (Holds wallet) (next_attempt rt policy trace attempts wallet t) Balances
  unfolding next_attempt
  next_attempt-Ensures trace attempts wallet t valid hm =
      Frames->>= (Holds wallet) Balances _ _ (schedule-Frames t.id attempts _) (λ scheduled.
        >>=-Ensures (process_wager rt trace wallet t) _ (Holds wallet) Balances Balances
          (process_wager-Balances rt trace wallet valid t hm)
          (λ processed. Frames-Ensures IsBalanced _ (last_attempt-Frames trace attempts processed)))

  retry_claimed-Ensures :
      (pending : PendingReference)
      → Money.IsValid pending.transaction.money
      → Ensures IsBalanced (retry_claimed rt policy pending) Balances
  unfolding retry_claimed
  retry_claimed-Ensures pending hm =
      >>=-Ensures (find_wallet rt pending.transaction.wallet_id) _ IsBalanced _ Balances
        (find_wallet-Ensures rt pending.transaction.wallet_id)
        (λ wallet. Ensures-given (Holds wallet) _ _ Balances (λ valid.
          if-Ensures (leb policy.max_attempts pending.attempts) _ _ (Holds wallet) Balances
            (Ensures-weaken (Holds wallet) _ (λ a. Holds wallet) Balances
              (Frames-Ensures (Holds wallet) _ (
                >>=-Frames _ _ (reject_wager-Frames rt _ pending.transaction _)
                  (λ rejected. pure-Frames _)))
              (λ a b h. h.0))
            (>>=-Ensures _ _ (Holds wallet) Balances Balances
              (next_attempt-Ensures _ (pending.attempts + 1) wallet pending.transaction valid hm)
              (λ processed. Frames-Ensures IsBalanced _ (pure-Frames _)))))

  retry_if-Ensures :
      (claimed : Option PendingReference)
      → HasClaim claimed
      → Ensures IsBalanced (retry_if rt policy claimed) Balances
  unfolding retry_if HasClaim HasMoney
  retry_if-Ensures none claim = Frames-Ensures IsBalanced _ (pure-Frames none)
  retry_if-Ensures (some pending) claim =
      >>=-Ensures (retry_claimed rt policy pending) _ IsBalanced Balances Balances
        (retry_claimed-Ensures pending claim)
        (λ result. Frames-Ensures IsBalanced _ (pure-Frames (some result)))

  -- The unit of work, on tables whose amounts fit their column.
  retried :
      (w : World) (o : Option ReferenceRetryResult)
      → FitColumns w.db.wagers
      → IsBalanced (books w.db)
      → (((claim_pending_reference rt) >>= retry_if rt policy) w).0 ≡ ok o
      → IsBalanced (books (((claim_pending_reference rt) >>= retry_if rt policy) w).1.db)
  unfolding Finds Reads Ensures
  retried w o fit balanced h =
      let claim = claim_pending_reference rt in
      elim (Result-cases (claim w).0) [
        | inr (e, failed) ↦
            absurd (err_not_ok (rw (bind-err claim (retry_if rt policy) w e failed) at h))
        | inl (claimed, found) ↦ rw (bind-ok claim (retry_if rt policy) w claimed found) (
            retry_if-Ensures claimed (claim-Finds rt w.db fit w claimed refl found) (claim w).1 o
              (rw (claim-Reads rt w) balanced)
              (rw (bind-ok claim (retry_if rt policy) w claimed found) at h))
      ]

  transaction-IsBalanced :
      (w : World)
      → FitColumns w.db.wagers
      → IsBalanced (books w.db)
      → IsBalanced (
          books
            (within_transaction rt ((claim_pending_reference rt) >>= retry_if rt policy) w).1.db)
  transaction-IsBalanced w fit balanced =
      let work = (claim_pending_reference rt) >>= retry_if rt policy in
      elim (within_transaction-cases rt work w) [
        | inl (a, worked, done, stored) ↦ rw stored (retried (called w) a fit balanced worked)
        | inr (e, broken, inl restored) ↦ rw restored balanced
        | inr (e, broken, inr (a, worked, stored)) ↦
            rw stored (retried (called w) a fit balanced worked)
      ]

  -- `Execute` of the retries keeps the books balanced whatever fails, where the stored amounts fit
  -- their column, a `bigint`: when it returns, with a result, with nothing to do or with an error,
  -- each wallet's balance is the sum of its ledger entries, if the books were balanced before.
  pub retry_references-IsBalanced :
      (w : World)
      → FitColumns w.db.wagers
      → IsBalanced (books w.db)
      → IsBalanced (books (retry_references rt policy w).1.db)
  unfolding retry_references
  retry_references-IsBalanced w fit balanced = elim (Result-cases (validate_retry policy)) [
    | inr (e, refused) ↦ rw (refused, retry_references) balanced
    | inl (x, valid) ↦ rw (valid, retry_references) (transaction-IsBalanced w fit balanced)
  ]
