-- ===== src/Domain/Wager/Transitions.antt =====
-- What each successful transition of a wager transaction has checked and done
-- (wager_transaction.go).
use backend_challenge.Base.{
  not-false, subst, ◌≡◌, sym, Bool, true, false, not, ◌&&◌, ◌||◌, some, arith, ltb_ℤ, pos,
}
use backend_challenge.Text.{Text, str_eq, is_blank}
use backend_challenge.Errors
use backend_challenge.Errors.{
  invalid_wager_kind, external_opening, Result, ok, ok_inj, then-eq-ok, fail_if, ◌>>=◌, ◌>>◌,
  >>=-eq-ok, fail_if-eq-ok, fail_if-passed, terminal_transaction, invalid_wager_status,
  invalid_wager_money, reference_required, currency_mismatch, invalid_wager_transaction,
}
use backend_challenge.Domain.Money
use backend_challenge.Domain.Money.{Money, money_eq}
use backend_challenge.Domain.Wallet.{Time, Uuid}
use backend_challenge.Domain.Wager.{
  NewWager, new_wager_transaction, pending_wager, known_kind, WagerTransaction, pending_reference,
  processed, rejected, failed, is_opening, is_pending, is_terminal, present, needs_reference,
  validate, can_change, mark_pending_reference, validate_reference, resolve_reference,
  mark_processed, reject, mark_failed,
}
use backend_challenge.Domain.Wager.Validity.{IsValid, validate→IsValid}

-- A valid transaction that is not final.
pub record IsOpen (w : WagerTransaction) : Type 0 where
  pub valid : IsValid w
  pub open_ended : is_terminal w ≡ false

can_change_inv : (w : WagerTransaction) → can_change w ≡ ok tt → IsOpen w
unfolding can_change
can_change_inv w h =
    let (valid, h1) = then-eq-ok (validate w) _ h in
    record {
      valid = validate→IsValid w valid;
      open_ended = fail_if-passed _ terminal_transaction h1;
    }

-- The record that each transition returns.
abbrev pub waiting : Time → WagerTransaction → WagerTransaction
waiting now w = record w { status = pending_reference; updated_at = now }

abbrev pub resolved : Time → WagerTransaction → WagerTransaction → WagerTransaction
resolved now w reference = record w {
  reference_transaction_id = some reference.id;
  updated_at = now;
}

abbrev pub settled : Time → WagerTransaction → Money → WagerTransaction
settled now w balance = record w {
  status = processed;
  result_balance = some balance;
  updated_at = now;
}

abbrev pub refused : Time → WagerTransaction → Text → WagerTransaction
refused now w code = record w { status = rejected; failure_code = some code; updated_at = now }

abbrev pub broken : Time → WagerTransaction → Text → WagerTransaction
broken now w code = record w { status = failed; failure_code = some code; updated_at = now }

-- What `NewWagerTransaction` has checked and built.
pub new_wager_transaction_inv :
    (now : Time) (id : Uuid) (request : NewWager) (t : WagerTransaction)
    → new_wager_transaction now id request ≡ ok t
    → IsValid t
      × (known_kind request.kind ≡ true)
      × (is_opening request.kind ≡ false)
      × (t ≡ pending_wager now id request)
unfolding new_wager_transaction
new_wager_transaction_inv now id request t h =
    let (known, h1) = fail_if-eq-ok _ invalid_wager_kind _ h in
    let (external, h2) = fail_if-eq-ok _ external_opening _ h1 in
    let (funded, h3) = then-eq-ok _ _ h2 in
    let (valid, done) = then-eq-ok (validate (pending_wager now id request)) _ h3 in
    let built = ok_inj done in
    (subst IsValid built (validate→IsValid _ valid), not-false _ known, external, sym built)

waits_if : (a b c : Bool) → (not a || not b || c) ≡ false → (a ≡ true) × (b ≡ true) × (c ≡ false)
waits_if a b c h = ground arith

pub mark_pending_reference_inv :
    (now : Time) (w v : WagerTransaction)
    → mark_pending_reference now w ≡ ok v
    → IsOpen w
      × (is_pending w.status ≡ true)
      × (needs_reference w ≡ true)
      × (present w.reference_transaction_id ≡ false)
      × (v ≡ waiting now w)
unfolding mark_pending_reference
mark_pending_reference_inv now w v h =
    let (checked, h1) = then-eq-ok (can_change w) _ h in
    let (tested, done) = fail_if-eq-ok _ invalid_wager_status _ h1 in
    let (fresh, needed, unresolved) = waits_if _ _ _ tested in
    (can_change_inv w checked, fresh, needed, unresolved, ok_inj (sym done))

pub resolve_reference_inv :
    (now : Time) (w reference v : WagerTransaction)
    → resolve_reference now w reference ≡ ok v
    → IsOpen w × (validate_reference w reference ≡ ok tt) × (v ≡ resolved now w reference)
unfolding resolve_reference
resolve_reference_inv now w reference v h =
    let (checked, h1) = then-eq-ok (can_change w) _ h in
    let (matches, done) = then-eq-ok (validate_reference w reference) _ h1 in
    (can_change_inv w checked, matches, ok_inj (sym done))

-- What `MarkProcessed` tests of the balance.
pub record IsSettlement (w : WagerTransaction) (balance : Money) : Type 0 where
  pub sound : (Errors.failed (Money.validate balance) || ltb_ℤ balance.amount (pos 0)) ≡ false
  pub referenced : (needs_reference w && not (present w.reference_transaction_id)) ≡ false
  pub same_currency : not (str_eq balance.currency w.money.currency) ≡ false
  pub opening_kept : (is_opening w.kind && not (money_eq balance w.money)) ≡ false

pub mark_processed_inv :
    (now : Time) (w : WagerTransaction) (balance : Money) (v : WagerTransaction)
    → mark_processed now w balance ≡ ok v
    → IsOpen w × IsSettlement w balance × (v ≡ settled now w balance)
unfolding mark_processed
mark_processed_inv now w balance v h =
    let (checked, h1) = then-eq-ok (can_change w) _ h in
    let (sound, h2) = fail_if-eq-ok _ invalid_wager_money _ h1 in
    let (referenced, h3) = fail_if-eq-ok _ reference_required _ h2 in
    let (same, h4) = fail_if-eq-ok _ currency_mismatch _ h3 in
    let (kept, done) = fail_if-eq-ok _ invalid_wager_money _ h4 in
    (
      can_change_inv w checked,
      record { sound = sound; referenced = referenced; same_currency = same; opening_kept = kept },
      ok_inj (sym done),
    )

pub reject_inv :
    (now : Time) (w : WagerTransaction) (code : Text) (v : WagerTransaction)
    → reject now w code ≡ ok v
    → IsOpen w × (is_blank code ≡ false) × (v ≡ refused now w code)
unfolding reject
reject_inv now w code v h =
    let (checked, h1) = then-eq-ok (can_change w) _ h in
    let (named, done) = fail_if-eq-ok _ invalid_wager_transaction _ h1 in
    (can_change_inv w checked, named, ok_inj (sym done))

pub mark_failed_inv :
    (now : Time) (w : WagerTransaction) (code : Text) (v : WagerTransaction)
    → mark_failed now w code ≡ ok v
    → IsOpen w × (is_blank code ≡ false) × (v ≡ broken now w code)
unfolding mark_failed
mark_failed_inv now w code v h =
    let (checked, h1) = then-eq-ok (can_change w) _ h in
    let (named, done) = fail_if-eq-ok _ invalid_wager_transaction _ h1 in
    (can_change_inv w checked, named, ok_inj (sym done))
