-- ===== src/Domain/Wager/Steps.antt =====
-- The construction and the transitions of a wager transaction (wager_transaction.go).
use backend_challenge.Base.{
  Bool, true, false, not, ◌&&◌, ◌||◌, Option, none, some, ◌==◌, pos, ltb_ℤ,
}
use backend_challenge.Text.{Text, str_eq, is_blank}
use backend_challenge.Errors
use backend_challenge.Errors.{
  Result, ok, fail, fail_if, ◌>>=◌, ◌>>◌, external_opening, terminal_transaction,
  invalid_wager_kind, invalid_wager_status, invalid_wager_reference, reference_not_processed,
  invalid_wager_money, reference_required, currency_mismatch, invalid_wager_transaction,
}
use backend_challenge.Domain.Money
use backend_challenge.Domain.Money.{Money, money_eq}
use backend_challenge.Domain.Wallet.{Uuid, Time}
use backend_challenge.Domain.Wager.Data.{
  WagerKind, WagerTransaction, win, refund, rollback, pending, pending_reference, processed,
  rejected, failed, known_kind, is_opening, is_bet, is_win, is_refund, is_pending, is_processed,
  is_terminal, present, needs_reference,
}
use backend_challenge.Domain.Wager.Rules.{validate_wager_money, validate}

-- The arguments of `NewWagerTransaction`.
pub record NewWager : Type 0 where
  pub provider_id : Text
  pub external_transaction_id : Text
  pub idempotency_key : Text
  pub payload_hash : Text
  pub wallet_id : Uuid
  pub player_id : Uuid
  pub round_id : Text
  pub game_id : Text
  pub kind : WagerKind
  pub money : Money
  pub reference_external_transaction_id : Option Text

-- The transaction that `NewWagerTransaction` builds, with the values of `time.Now` and `uuid.New`.
abbrev pub pending_wager : Time → Uuid → NewWager → WagerTransaction
pending_wager now id request = record {
  id = id;
  external_transaction_id = request.external_transaction_id;
  provider_id = request.provider_id;
  idempotency_key = request.idempotency_key;
  payload_hash = request.payload_hash;
  wallet_id = request.wallet_id;
  player_id = request.player_id;
  round_id = request.round_id;
  game_id = request.game_id;
  kind = request.kind;
  money = request.money;
  reference_external_transaction_id = request.reference_external_transaction_id;
  reference_transaction_id = none;
  status = pending;
  failure_code = none;
  result_balance = none;
  created_at = now;
  updated_at = now;
}

unfoldable pub new_wager_transaction : Time → Uuid → NewWager → Result WagerTransaction
new_wager_transaction now id request = do
  fail_if (not (known_kind request.kind)) invalid_wager_kind
  fail_if (is_opening request.kind) external_opening
  validate_wager_money request.kind request.money request.reference_external_transaction_id
  let transaction = pending_wager now id request
  validate transaction
  ok transaction

unfoldable pub can_change : WagerTransaction → Result (Unit {0})
can_change w = do validate w; fail_if (is_terminal w) terminal_transaction

unfoldable pub mark_pending_reference : Time → WagerTransaction → Result WagerTransaction
mark_pending_reference now w = do
  can_change w
  fail_if
      (not (is_pending w.status) || not (needs_reference w) || present w.reference_transaction_id)
      invalid_wager_status
  ok (record w { status = pending_reference; updated_at = now })

-- `externalTransactionID != *w.referenceExternalTransactionID`; the pointer is not nil where a
-- reference is needed.
abbrev pub names_reference : Option Text → Text → Bool
names_reference none external = false
names_reference (some reference) external = str_eq external reference

-- `w.referenceTransactionID != nil && *w.referenceTransactionID != reference.id`
abbrev pub resolved_otherwise : Option Uuid → Uuid → Bool
resolved_otherwise none id = false
resolved_otherwise (some resolved) id = not (resolved == id)

-- The `switch` of `validateReference`: the kinds that each kind may refer to.
unfoldable pub may_refer : WagerKind → WagerKind → Bool
may_refer win kind = is_bet kind
may_refer refund kind = is_bet kind
may_refer rollback kind = is_bet kind || is_win kind || is_refund kind
may_refer other kind = true

unfoldable pub validate_reference : WagerTransaction → WagerTransaction → Result (Unit {0})
unfolding may_refer
validate_reference w reference = do
  fail_if (not (needs_reference w)) invalid_wager_reference
  fail_if (Errors.failed (validate reference) || reference.id == w.id) invalid_wager_reference
  fail_if
      (not (str_eq reference.provider_id w.provider_id)
        || not
            (names_reference w.reference_external_transaction_id reference.external_transaction_id))
      invalid_wager_reference
  fail_if (not (reference.wallet_id == w.wallet_id) || not (reference.player_id == w.player_id))
      invalid_wager_reference
  fail_if
      (not (str_eq reference.money.currency w.money.currency)
        || not (str_eq reference.round_id w.round_id))
      invalid_wager_reference
  fail_if (resolved_otherwise w.reference_transaction_id reference.id) invalid_wager_reference
  fail_if (not (is_processed reference.status)) reference_not_processed
  fail_if (not (may_refer w.kind reference.kind)) invalid_wager_reference
  fail_if (not (is_win w.kind) && not (money_eq reference.money w.money)) invalid_wager_reference

unfoldable pub resolve_reference :
    Time → WagerTransaction → WagerTransaction → Result WagerTransaction
resolve_reference now w reference = do
  can_change w
  validate_reference w reference
  ok (record w { reference_transaction_id = some reference.id; updated_at = now })

unfoldable pub mark_processed : Time → WagerTransaction → Money → Result WagerTransaction
mark_processed now w balance = do
  can_change w
  fail_if (Errors.failed (Money.validate balance) || ltb_ℤ balance.amount (pos 0))
      invalid_wager_money
  fail_if (needs_reference w && not (present w.reference_transaction_id)) reference_required
  fail_if (not (str_eq balance.currency w.money.currency)) currency_mismatch
  fail_if (is_opening w.kind && not (money_eq balance w.money)) invalid_wager_money
  ok (record w { status = processed; result_balance = some balance; updated_at = now })

unfoldable pub reject : Time → WagerTransaction → Text → Result WagerTransaction
reject now w failure_code = do
  can_change w
  fail_if (is_blank failure_code) invalid_wager_transaction
  ok (record w { status = rejected; failure_code = some failure_code; updated_at = now })

-- `Fail`
unfoldable pub mark_failed : Time → WagerTransaction → Text → Result WagerTransaction
mark_failed now w failure_code = do
  can_change w
  fail_if (is_blank failure_code) invalid_wager_transaction
  ok (record w { status = failed; failure_code = some failure_code; updated_at = now })
