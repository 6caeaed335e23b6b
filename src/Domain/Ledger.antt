-- ===== src/Domain/Ledger.antt =====
-- Ledger entries (internal/domain/wallet_ledger_entry.go).
pub mod Balance
pub mod Entry
use backend_challenge.Base.{ℕ, ◌≡◌, ◌≢◌, Bool, true, false, not, ◌||◌, ℤ, eqb_ℤ, neg}
use backend_challenge.Text.{Text, str_eq}
use backend_challenge.Errors.{
  Result, ok, fail, fail_if, ◌>>=◌, ◌>>◌, invalid_ledger_direction, invalid_ledger_entry,
  invalid_ledger_balance, currency_mismatch,
}
use backend_challenge.Domain.Money
use backend_challenge.Domain.Money.{Money}
use backend_challenge.Domain.Wallet.{Uuid, Time, is_nil}

-- A `LedgerDirection` is a string; `unknown` is any but the two that the program names.
pub data LedgerDirection : Type 0 where
  debit credit : LedgerDirection
  unknown : Text → LedgerDirection

pub record WalletLedgerEntry : Type 0 where
  pub id : Uuid
  pub wallet_id : Uuid
  pub transaction_id : Uuid
  pub direction : LedgerDirection
  pub money : Money
  pub balance_before : Money
  pub balance_after : Money
  pub created_at : Time

-- `IsValid` of a direction
unfoldable pub known_direction : LedgerDirection → Bool
known_direction debit = true
known_direction credit = true
known_direction (unknown name) = false

unfoldable pub validate_ledger_balance : LedgerDirection → Money → Money → Money → Result (Unit {0})
validate_ledger_balance debit money balance_before balance_after = do
  expected ← Money.sub balance_before money
  fail_if (not (eqb_ℤ expected.amount balance_after.amount)) invalid_ledger_balance
validate_ledger_balance credit money balance_before balance_after = do
  expected ← Money.add balance_before money
  fail_if (not (eqb_ℤ expected.amount balance_after.amount)) invalid_ledger_balance
validate_ledger_balance (unknown name) money balance_before balance_after =
    fail invalid_ledger_direction

-- `NewWalletLedgerEntry`, with the values of `time.Now` and `uuid.New`
unfoldable pub new_wallet_ledger_entry :
    Time → Uuid → Uuid → Uuid → LedgerDirection → Money → Money → Money → Result WalletLedgerEntry
unfolding known_direction
new_wallet_ledger_entry now id wallet_id transaction_id direction money balance_before
      balance_after =
    do
      fail_if (is_nil wallet_id || is_nil transaction_id) invalid_ledger_entry
      fail_if (not (known_direction direction)) invalid_ledger_direction
      fail_if (not (Money.is_positive money)) invalid_ledger_entry
      fail_if
          (not (str_eq money.currency balance_before.currency)
            || not (str_eq money.currency balance_after.currency))
          currency_mismatch
      validate_ledger_balance direction money balance_before balance_after
      ok (record {
        id = id;
        wallet_id = wallet_id;
        transaction_id = transaction_id;
        direction = direction;
        money = money;
        balance_before = balance_before;
        balance_after = balance_after;
        created_at = now;
      })

-- What an entry adds to the balance of its wallet.
abbrev pub signed_amount : LedgerDirection → ℤ → ℤ
signed_amount debit amount = neg amount
signed_amount credit amount = amount
signed_amount (unknown name) amount = neg amount
