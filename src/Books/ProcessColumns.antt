-- ===== src/Books/ProcessColumns.antt =====
-- The statements and `processWager` keep the amounts of the stored operations
-- (internal/application/process_wager.go).
use backend_challenge.Base.{
  ◌||◌, Option, ap, sym, inr, inl, Option-cases, Bool, ℤ, arith, ℕ, ◌≡◌, refl, none, some,
}
use backend_challenge.Errors.{
  invalid_wager_reference, money_overflow, insufficient_balance, reference_not_processed,
  wager_not_found, is_error, ok_inj, err_not_ok, ok, err, Result, Error,
}
use backend_challenge.Domain.Wager.{
  is_rollback, is_terminal, is_loss, is_refund, reject, mark_pending_reference,
  is_pending_reference, mark_processed, WagerTransaction,
}
use backend_challenge.Domain.Wallet.{Wallet, Time, Uuid}
use backend_challenge.Text.{Text}
use backend_challenge.Postgres.{
  pure, fresh_id, ◌>>◌, later, is_waiting_row, first, clock, set_attempts, has_successful_reversal,
  create_event, create_entry, update_wager, find_by_external_id, insert_entry,
  schedule_reference_retry, set_wallet, update_wallet, schedule, insert_event, Runtime, ◌>>=◌, lift,
  Db,
}
use backend_challenge.Books.Columns.{
  Fits, >>=-Fits, attempt-Fits, update_first-FitColumns, lift-Fits, pure-Fits, if-Fits, clock-Fits,
  fresh_id-Fits, query-Fits, statement-Fits, set_wager-FitColumns,
}
use backend_challenge.Domain.Ledger.{LedgerDirection, WalletLedgerEntry}
use backend_challenge.Domain.Events.{
  new_wager_transaction_rejected, new_wager_transaction_pending_reference,
  new_wager_transaction_processed, IntegrationEvent,
}
use backend_challenge.Application.{
  failure_invalid_reference, failure_money_overflow, failure_already_reversed,
  failure_reference_unsuccessful, insufficient_code, wager_needs_reference, refuse_movement,
  found_reference, process_wager, check_reversal, after_movement, attempt, apply_movement,
  record_movement, resolved_by, wait_first, settle, reject_wager, wait_for_reference, Trace,
}
use backend_challenge.Books.Claims.{FitColumns}

set_wallet-wagers :
    (wallet : Wallet) (now : Time) (db : Db) (x : Unit {0}) (after : Db)
    → set_wallet wallet now db ≡ ok (x, after)
    → after.wagers ≡ db.wagers
unfolding set_wallet
set_wallet-wagers wallet now db x after h = ground arith

insert_entry-wagers :
    (entry : WalletLedgerEntry) (now : Time) (db : Db) (x : Unit {0}) (after : Db)
    → insert_entry entry now db ≡ ok (x, after)
    → after.wagers ≡ db.wagers
unfolding insert_entry
insert_entry-wagers entry now db x after h = ground arith

insert_event-wagers :
    (event : IntegrationEvent) (now : Time) (db : Db) (x : Bool) (after : Db)
    → insert_event event now db ≡ ok (x, after)
    → after.wagers ≡ db.wagers
unfolding insert_event
insert_event-wagers event now db x after h = ground arith

schedule-FitColumns :
    (id : Uuid) (attempts : ℕ) (delay : ℤ) (now : Time) (db : Db) (x : Unit {0}) (after : Db)
    → FitColumns db.wagers
    → schedule id attempts delay now db ≡ ok (x, after)
    → FitColumns after.wagers
unfolding schedule set_attempts
schedule-FitColumns id attempts delay now db x after fit h =
    elim (Option-cases (first (is_waiting_row id) db.wagers)) [
      | inl missing ↦ absurd (err_not_ok (rw (missing, schedule) at h))
      | inr (row, found) ↦ rw (sym (ap (λ r. r.1) (ok_inj (rw (found, schedule) at h)))) (
          update_first-FitColumns (is_waiting_row id) (set_attempts attempts (later now delay))
            (λ row. refl) db.wagers fit)
    ]

module _ (rt : Runtime) where
  update_wager-Fits : (t : WagerTransaction) → Fits (update_wager rt t)
  unfolding update_wager
  update_wager-Fits t = statement-Fits rt _ (set_wager-FitColumns t)

  update_wallet-Fits : (wallet : Wallet) → Fits (update_wallet rt wallet)
  unfolding update_wallet
  update_wallet-Fits wallet =
      statement-Fits rt _
        (λ now db x after fit h. rw (set_wallet-wagers wallet now db x after h) fit)

  create_entry-Fits : (entry : WalletLedgerEntry) → Fits (create_entry rt entry)
  unfolding create_entry
  create_entry-Fits entry =
      statement-Fits rt _
        (λ now db x after fit h. rw (insert_entry-wagers entry now db x after h) fit)

  create_event-Fits : (event : IntegrationEvent) → Fits (create_event rt event)
  unfolding create_event
  create_event-Fits event = >>=-Fits _ _ (lift-Fits _) (λ checked.
      >>=-Fits _ _
        (statement-Fits rt _
          (λ now db x after fit h. rw (insert_event-wagers event now db x after h) fit))
        (λ inserted. if-Fits inserted _ _ (pure-Fits tt) (query-Fits rt _)))

  pub schedule-Fits :
      (id : Uuid) (attempts : ℕ) (delay : ℤ) → Fits (schedule_reference_retry rt id attempts delay)
  unfolding schedule_reference_retry
  schedule-Fits id attempts delay =
      statement-Fits rt (schedule id attempts delay) (schedule-FitColumns id attempts delay)

  find_by_external_id-Fits :
      (provider id : Text) → Fits (attempt (find_by_external_id rt provider id))
  unfolding find_by_external_id
  find_by_external_id-Fits provider id = attempt-Fits _ (query-Fits rt _)

  has_successful_reversal-Fits : (id : Uuid) → Fits (has_successful_reversal rt id)
  unfolding has_successful_reversal
  has_successful_reversal-Fits id = query-Fits rt _

  module _ (trace : Trace) where
    -- A change of the operation, its row and its event.
    changed-Fits :
        (change : Time → Result WagerTransaction)
        (announce : Uuid → WagerTransaction → Result IntegrationEvent)
        → Fits (do
          now ← clock rt
          changed ← lift (change now)
          update_wager rt changed
          id ← fresh_id rt
          event ← lift (announce id changed)
          create_event rt event
          pure changed)
    changed-Fits change announce = >>=-Fits _ _ (clock-Fits rt) (λ now.
        >>=-Fits _ _ (lift-Fits (change now)) (λ changed.
          >>=-Fits _ _ (update_wager-Fits changed) (λ stored. >>=-Fits _ _ (fresh_id-Fits rt) (λ id.
            >>=-Fits _ _ (lift-Fits (announce id changed))
              (λ event. >>=-Fits _ _ (create_event-Fits event) (λ sent. pure-Fits changed))))))

    pub reject_wager-Fits :
        (t : WagerTransaction) (code : Text) → Fits (reject_wager rt trace t code)
    unfolding reject_wager
    reject_wager-Fits t code =
        changed-Fits (λ now. reject now t code)
          (λ id u. new_wager_transaction_rejected id u trace.correlation_id trace.causation_id)

    wait_for_reference-Fits : (t : WagerTransaction) → Fits (wait_for_reference rt trace t)
    unfolding wait_for_reference wait_first
    wait_for_reference-Fits t = if-Fits (is_pending_reference t.status) _ _ (pure-Fits t) (
        changed-Fits (λ now. mark_pending_reference now t)
          (λ id u.
            new_wager_transaction_pending_reference id u trace.correlation_id trace.causation_id))

    settle-Fits : (t : WagerTransaction) (wallet : Wallet) → Fits (settle rt trace t wallet)
    unfolding settle
    settle-Fits t wallet =
        changed-Fits (λ now. mark_processed now t wallet.balance)
          (λ id u. new_wager_transaction_processed id u trace.correlation_id trace.causation_id)

    refuse_movement-Fits : (t : WagerTransaction) (e : Error) → Fits (refuse_movement rt trace t e)
    unfolding refuse_movement
    refuse_movement-Fits t e =
        if-Fits (is_error e insufficient_balance) _ _ (reject_wager-Fits t (insufficient_code t)) (
          if-Fits (is_error e money_overflow) _ _ (reject_wager-Fits t failure_money_overflow)
            (lift-Fits (err e)))

    record_movement-Fits :
        (t : WagerTransaction) (direction : LedgerDirection) (before wallet : Wallet)
        → Fits (record_movement rt trace t direction before wallet)
    unfolding record_movement
    record_movement-Fits t direction before wallet = >>=-Fits _ _ (clock-Fits rt) (λ now.
        >>=-Fits _ _ (fresh_id-Fits rt) (λ entry_id. >>=-Fits _ _ (lift-Fits _) (λ entry.
          >>=-Fits _ _ (create_entry-Fits entry) (λ stored. >>=-Fits _ _ (fresh_id-Fits rt) (λ id.
            >>=-Fits _ _ (lift-Fits _)
              (λ changed. >>=-Fits _ _ (create_event-Fits changed) (λ sent. pure-Fits t)))))))

    after_movement-Fits :
        (t : WagerTransaction) (direction : LedgerDirection) (before : Wallet) (r : Result Wallet)
        → Fits (after_movement rt trace t direction before r)
    unfolding after_movement
    after_movement-Fits t direction before (err e) = refuse_movement-Fits t e
    after_movement-Fits t direction before (ok wallet) =
        >>=-Fits _ _ (update_wallet-Fits wallet) (λ stored.
          >>=-Fits _ _ (settle-Fits t wallet)
            (λ processed. record_movement-Fits processed direction before wallet))

    apply_movement-Fits :
        (t : WagerTransaction) (reference : Option WagerTransaction) (wallet : Wallet)
        → Fits (apply_movement rt trace t reference wallet)
    unfolding apply_movement
    apply_movement-Fits t reference wallet =
        if-Fits (is_loss t.kind) _ _ (settle-Fits t wallet)
          (>>=-Fits _ _ (clock-Fits rt) (λ now. after_movement-Fits t _ wallet _))

    check_reversal-Fits :
        (t reference : WagerTransaction) (wallet : Wallet)
        → Fits (check_reversal rt trace t reference wallet)
    unfolding check_reversal
    check_reversal-Fits t reference wallet =
        if-Fits (is_refund t.kind || is_rollback t.kind) _ _
          (>>=-Fits _ _ (has_successful_reversal-Fits reference.id) (λ reversed.
            if-Fits reversed _ _ (reject_wager-Fits t failure_already_reversed)
              (apply_movement-Fits t (some reference) wallet)))
          (apply_movement-Fits t (some reference) wallet)

    resolved_by-Fits :
        (t reference : WagerTransaction) (wallet : Wallet) (r : Result WagerTransaction)
        → Fits (resolved_by rt trace t reference wallet r)
    unfolding resolved_by
    resolved_by-Fits t reference wallet (ok resolved) =
        check_reversal-Fits resolved reference wallet
    resolved_by-Fits t reference wallet (err e) =
        if-Fits (is_error e reference_not_processed) _ _
          (if-Fits (is_terminal reference) _ _ (reject_wager-Fits t failure_reference_unsuccessful)
            (wait_for_reference-Fits t))
          (if-Fits (is_error e invalid_wager_reference) _ _
            (reject_wager-Fits t failure_invalid_reference) (lift-Fits (err e)))

    found_reference-Fits :
        (t : WagerTransaction) (wallet : Wallet) (r : Result WagerTransaction)
        → Fits (found_reference rt trace t wallet r)
    unfolding found_reference
    found_reference-Fits t wallet (ok reference) =
        >>=-Fits _ _ (clock-Fits rt) (λ now. resolved_by-Fits t reference wallet _)
    found_reference-Fits t wallet (err e) =
        if-Fits (is_error e wager_not_found) _ _ (wait_for_reference-Fits t) (lift-Fits (err e))

    pub process_wager-Fits :
        (wallet : Wallet) (t : WagerTransaction) → Fits (process_wager rt trace wallet t)
    unfolding process_wager
    process_wager-Fits wallet t =
        if-Fits (wager_needs_reference t) _ _
          (>>=-Fits _ _ (find_by_external_id-Fits t.provider_id _)
            (λ looked_up. found_reference-Fits t wallet looked_up))
          (apply_movement-Fits t none wallet)
