-- ===== src/Domain/Wager/Rules.antt =====
-- The validity of a wager transaction: `validateWagerMoney` and `validate`.
use backend_challenge.Base.{
  Bool, true, false, not, ◌&&◌, ◌||◌, Option, none, some, ◌==◌, pos, ltb_ℤ,
}
use backend_challenge.Text.{Text, str_eq, is_empty, is_blank}
use backend_challenge.Errors.{
  Result, ok, fail, fail_if, ◌>>=◌, ◌>>◌, invalid_wager_money, reference_required,
  invalid_wager_kind, invalid_wager_transaction, invalid_wager_reference, invalid_wager_status,
  currency_mismatch,
}
use backend_challenge.Errors
use backend_challenge.Domain.Money
use backend_challenge.Domain.Money.{Money, money_eq}
use backend_challenge.Domain.Wallet.{Uuid, is_nil, is_zero_time, before}
use backend_challenge.Domain.Wager.Data.{
  WagerKind, WagerStatus, WagerTransaction, opening, bet, win, loss, refund, rollback, pending,
  pending_reference, processed, rejected, failed, known_kind, is_opening, present, needs_reference,
}

-- `reference == nil || strings.TrimSpace(*reference) == ""`
abbrev absent_or_blank : Option Text → Bool
absent_or_blank none = true
absent_or_blank (some reference) = is_blank reference

-- `reference != nil && strings.TrimSpace(*reference) == ""`
abbrev present_and_blank : Option Text → Bool
present_and_blank none = false
present_and_blank (some reference) = is_blank reference

-- The `switch` of `validateWagerMoney`.
kind_money : WagerKind → Money → Option Text → Result (Unit {0})
kind_money opening money reference = fail_if (not (Money.is_positive money)) invalid_wager_money
kind_money bet money reference = fail_if (not (Money.is_positive money)) invalid_wager_money
kind_money win money reference = fail_if (not (Money.is_positive money)) invalid_wager_money
kind_money loss money reference = fail_if (not (Money.is_zero money)) invalid_wager_money
kind_money refund money reference = do
  fail_if (not (Money.is_positive money)) invalid_wager_money
  fail_if (absent_or_blank reference) reference_required
kind_money rollback money reference = do
  fail_if (not (Money.is_positive money)) invalid_wager_money
  fail_if (absent_or_blank reference) reference_required
kind_money (WagerKind.unknown name) money reference = fail invalid_wager_kind

unfoldable pub validate_wager_money : WagerKind → Money → Option Text → Result (Unit {0})
unfolding kind_money
validate_wager_money kind money reference = do
  fail_if (Errors.failed (Money.validate money)) invalid_wager_money
  fail_if (present_and_blank reference) reference_required
  kind_money kind money reference

-- The identity of the provider's side: all empty for an opening, none blank for the others.
unfoldable pub validate_origin : WagerTransaction → Bool → Result (Unit {0})
validate_origin w true = do
  fail_if
      (not (is_empty w.provider_id)
        || not (is_empty w.external_transaction_id)
        || not (is_empty w.idempotency_key)
        || not (is_empty w.payload_hash))
      invalid_wager_transaction
  fail_if
      (not (is_empty w.round_id)
        || not (is_empty w.game_id)
        || present w.reference_external_transaction_id
        || present w.reference_transaction_id)
      invalid_wager_transaction
validate_origin w false = do
  fail_if (is_blank w.provider_id || is_blank w.external_transaction_id) invalid_wager_transaction
  fail_if (is_blank w.idempotency_key || is_blank w.payload_hash) invalid_wager_transaction
  fail_if (is_blank w.round_id || is_blank w.game_id) invalid_wager_transaction

unfoldable pub validate_resolved : WagerTransaction → Option Uuid → Result (Unit {0})
validate_resolved w none = ok tt
validate_resolved w (some reference) =
    fail_if (is_nil reference || reference == w.id || not (needs_reference w))
      invalid_wager_reference

unfoldable pub validate_result_balance : WagerTransaction → Option Money → Result (Unit {0})
validate_result_balance w none = ok tt
validate_result_balance w (some balance) = do
  fail_if (Errors.failed (Money.validate balance) || ltb_ℤ balance.amount (pos 0))
      invalid_wager_money
  fail_if (not (str_eq balance.currency w.money.currency)) currency_mismatch

-- `w.kind == WagerKindOpening && *w.resultBalance != w.money`
abbrev opening_differs : WagerTransaction → Option Money → Bool
opening_differs w none = false
opening_differs w (some balance) = is_opening w.kind && not (money_eq balance w.money)

-- The last `switch` of `validate`.
unfoldable pub validate_status : WagerTransaction → WagerStatus → Result (Unit {0})
validate_status w pending =
    fail_if (present w.failure_code || present w.result_balance) invalid_wager_status
validate_status w pending_reference = do
  fail_if (present w.failure_code || present w.result_balance) invalid_wager_status
  fail_if (not (needs_reference w)) invalid_wager_status
validate_status w processed = do
  fail_if (present w.failure_code || not (present w.result_balance)) invalid_wager_status
  fail_if (needs_reference w && not (present w.reference_transaction_id)) reference_required
  fail_if (opening_differs w w.result_balance) invalid_wager_money
validate_status w rejected =
    fail_if (absent_or_blank w.failure_code || present w.result_balance) invalid_wager_status
validate_status w failed =
    fail_if (absent_or_blank w.failure_code || present w.result_balance) invalid_wager_status
validate_status w (WagerStatus.unknown name) = fail invalid_wager_status

unfoldable pub validate : WagerTransaction → Result (Unit {0})
unfolding known_kind
validate w = do
  fail_if (is_nil w.id || is_nil w.wallet_id || is_nil w.player_id) invalid_wager_transaction
  fail_if (not (known_kind w.kind)) invalid_wager_kind
  fail_if (is_zero_time w.created_at || before w.updated_at w.created_at) invalid_wager_transaction
  validate_wager_money w.kind w.money w.reference_external_transaction_id
  validate_origin w (is_opening w.kind)
  validate_resolved w w.reference_transaction_id
  validate_result_balance w w.result_balance
  validate_status w w.status
