-- ===== src/Books/Process.antt =====
-- `processWager` closes the books, whatever its outcome (process_wager.go).
use backend_challenge.Base.{◌≡◌, refl, Option, none, some}
use backend_challenge.Errors.{
  invalid_wager_reference, wager_not_found, reference_not_processed, Result, ok, err, is_error,
}
use backend_challenge.Domain.Money
use backend_challenge.Domain.Wallet
use backend_challenge.Domain.Wallet.{Time, Wallet}
use backend_challenge.Domain.Ledger.{LedgerDirection}
use backend_challenge.Domain.Wager.{is_terminal, is_loss, WagerTransaction, resolve_reference}
use backend_challenge.Domain.Wager.Transitions.{resolve_reference_inv}
use backend_challenge.Postgres.{Runtime, Action}
use backend_challenge.Application.{
  wager_needs_reference, record_movement, settle, Trace, move, after_movement, apply_movement,
  check_reversal, resolved_by, found_reference, process_wager,
}
use backend_challenge.Books.Logic.{
  if-Ensures, if-Frames, Books, Ensures, Frames, >>=-Ensures, Frames->>=, Ensures-given,
  Ensures-weaken, Frames-Ensures, lift-Frames, clock-Frames, attempt-Frames,
}
use backend_challenge.Books.Frames.{find_by_external_id-Frames, has_successful_reversal-Frames}
use backend_challenge.Books.Outcomes.{
  reject_wager-Frames, wait_for_reference-Frames, settle-Frames, refuse_movement-Frames,
}
use backend_challenge.Books.Balance.{IsBalanced}
use backend_challenge.Books.Halfway.{IsHalfway}
use backend_challenge.Books.Movement.{Holds, move-IsMoved, update_wallet-Ensures}
use backend_challenge.Books.Settlement.{Same, settle-Ensures, record_movement-Ensures}

-- The books are balanced after a success.
abbrev pub Balances : {A : Type 0} → A → Books → Type 0
Balances a = IsBalanced

module _ (rt : Runtime) (trace : Trace) (wallet : Wallet) (valid : Wallet.IsValid wallet) where
  abbrev H : Books → Type 0
  H = Holds wallet

  unmoved : (m : Action WagerTransaction) → Frames m → Ensures H m Balances
  unmoved m h = Ensures-weaken H m (λ a. H) Balances (Frames-Ensures H m h) (λ a b p. p.0)

  after_movement-Ensures :
      (t : WagerTransaction) (direction : LedgerDirection) (now : Time) (r : Result Wallet)
      → Money.IsValid t.money
      → move direction now wallet t.money ≡ r
      → Ensures H (after_movement rt trace t direction wallet r) Balances
  unfolding after_movement
  after_movement-Ensures t direction now (err e) hm h =
      unmoved _ (refuse_movement-Frames rt trace t e)
  after_movement-Ensures t direction now (ok after) hm h =
      let moved = move-IsMoved direction now wallet after t.money valid hm h in
      >>=-Ensures _ _ H (λ u. IsHalfway wallet after) Balances
        (update_wallet-Ensures rt wallet after moved)
        (λ u.
          >>=-Ensures (settle rt trace t after)
            (λ processed. record_movement rt trace processed direction wallet after)
            (IsHalfway wallet after) (Same (IsHalfway wallet after) t.money) Balances
            (settle-Ensures rt trace (IsHalfway wallet after) t after)
            (λ processed. Ensures-given (IsHalfway wallet after) _ _ Balances (λ same.
              record_movement-Ensures rt trace processed direction wallet after
                (rw same hm.in_range) valid.balance_valid moved)))

  apply_movement-Ensures :
      (t : WagerTransaction) (reference : Option WagerTransaction)
      → Money.IsValid t.money
      → Ensures H (apply_movement rt trace t reference wallet) Balances
  unfolding apply_movement
  apply_movement-Ensures t reference hm =
      if-Ensures (is_loss t.kind) _ _ H Balances (unmoved _ (settle-Frames rt trace t wallet)) (
        Frames->>= H Balances _ _ (clock-Frames rt)
          (λ now. after_movement-Ensures t _ now _ hm refl))

  check_reversal-Ensures :
      (t reference : WagerTransaction)
      → Money.IsValid t.money
      → Ensures H (check_reversal rt trace t reference wallet) Balances
  unfolding check_reversal
  check_reversal-Ensures t reference hm =
      if-Ensures _ _ _ H Balances
        (Frames->>= H Balances _ _ (has_successful_reversal-Frames rt reference.id) (λ reversed.
          if-Ensures reversed _ _ H Balances (unmoved _ (reject_wager-Frames rt trace t _))
            (apply_movement-Ensures t (some reference) hm)))
        (apply_movement-Ensures t (some reference) hm)

  resolved_by-Ensures :
      (t reference : WagerTransaction) (now : Time) (r : Result WagerTransaction)
      → Money.IsValid t.money
      → resolve_reference now t reference ≡ r
      → Ensures H (resolved_by rt trace t reference wallet r) Balances
  unfolding resolved_by
  resolved_by-Ensures t reference now (ok resolved) hm h =
      check_reversal-Ensures resolved reference
        (rw (resolve_reference_inv now t reference resolved h).2 hm)
  resolved_by-Ensures t reference now (err e) hm h = unmoved _ (
      if-Frames (is_error e reference_not_processed) _ _
        (if-Frames (is_terminal reference) _ _ (reject_wager-Frames rt trace t _)
          (wait_for_reference-Frames rt trace t))
        (if-Frames (is_error e invalid_wager_reference) _ _ (reject_wager-Frames rt trace t _)
          (lift-Frames (err e))))

  found_reference-Ensures :
      (t : WagerTransaction) (r : Result WagerTransaction)
      → Money.IsValid t.money
      → Ensures H (found_reference rt trace t wallet r) Balances
  unfolding found_reference
  found_reference-Ensures t (ok reference) hm =
      Frames->>= H Balances _ _ (clock-Frames rt)
        (λ now. resolved_by-Ensures t reference now _ hm refl)
  found_reference-Ensures t (err e) hm = unmoved _ (
      if-Frames (is_error e wager_not_found) _ _ (wait_for_reference-Frames rt trace t)
        (lift-Frames (err e)))

  -- From balanced books in which the wallet is stored, every success of `processWager` on a valid
  -- wallet and a valid amount leads to balanced books, whichever statements and outcomes it takes.
  pub process_wager-Balances :
      (t : WagerTransaction)
      → Money.IsValid t.money
      → Ensures H (process_wager rt trace wallet t) Balances
  unfolding process_wager
  process_wager-Balances t hm =
      if-Ensures (wager_needs_reference t) _ _ H Balances
        (Frames->>= H Balances _ _ (attempt-Frames _ (find_by_external_id-Frames rt _ _))
          (λ looked_up. found_reference-Ensures t looked_up hm))
        (apply_movement-Ensures t none hm)
