-- ===== src/Tests/Domain.antt =====
-- Money, wallets and ledger entries at concrete amounts.
use backend_challenge.Base.{
  all, ℕ, ◌≡◌, refl, ◌≤◌, ◌⊎◌, ◌↔◌, pos, neg, ◌+ℤ◌, ◌-ℤ◌, ◌≤ℤ◌, ◌<ℤ◌, max_int64, arith, true, some,
  add64, sub64, wrap64,
}
use backend_challenge.Text.{text, str_eq, value_from, print_int, parse_int, is_digit}
use backend_challenge.Text.DecimalLaws.{parse_int-print_int}
use backend_challenge.Errors.{invalid_money, ok, fail, insufficient_balance, money_overflow}
use backend_challenge.Domain.Money
use backend_challenge.Domain.Money.{Money, new_money, to_string, valid_currency, validate}
use backend_challenge.Domain.Money.Arithmetic.{IsExact, add-IsExact, sub-IsExact, negate-IsExact}
use backend_challenge.Domain.Money.Grammar.{
  spelled, IsWritten, tenths, value_of, Notation, new_money-IsExact,
}
use backend_challenge.Domain.Money.RoundTrip.{new_money-to_string}
use backend_challenge.Domain.Wallet
use backend_challenge.Domain.Wallet.{Wallet, credit, debit, validate_movement}
use backend_challenge.Domain.Wallet.Movement.{IsMovement, moved, credit_outcome, debit_outcome}
use backend_challenge.Domain.Wallet.Invariant.{credit-IsValid, debit-IsValid}
use backend_challenge.Domain.Ledger
use backend_challenge.Domain.Ledger.{
  WalletLedgerEntry, LedgerDirection, known_direction, signed_amount, validate_ledger_balance,
  new_wallet_ledger_entry,
}
use backend_challenge.Domain.Ledger.Balance.{validate_ledger_balance_iff}
use backend_challenge.Domain.Ledger.Entry.{new_wallet_ledger_entry_inv}
use backend_challenge.Tests.Scenario.{brl, money, wallet}

brl_accepted : valid_currency brl ≡ true
unfolding valid_currency str_eq
brl_accepted = refl

same_brl : str_eq brl brl ≡ true
unfolding str_eq
same_brl = refl

money-IsValid : (n : ℕ) → n ≤ 9223372036854775807 → Money.IsValid (money n)
money-IsValid n h = record { accepted = brl_accepted; in_range = (omega arith, omega (arith, h)) }

parsed_back : parse_int (print_int (pos 1250)) ≡ some (pos 1250)
parsed_back = parse_int-print_int 1250 (omega arith)

add-IsExact_example : IsExact (Money.add (money 1250) (money 250)) (pos 1250 +ℤ pos 250) brl
add-IsExact_example =
    add-IsExact (money 1250) (money 250) (money-IsValid 1250 (omega arith))
      (money-IsValid 250 (omega arith)) same_brl

sub-IsExact_example : IsExact (Money.sub (money 1250) (money 250)) (pos 1250 -ℤ pos 250) brl
sub-IsExact_example =
    sub-IsExact (money 1250) (money 250) (money-IsValid 1250 (omega arith))
      (money-IsValid 250 (omega arith)) same_brl

negate-IsExact_example : IsExact (Money.negate (money 1250)) (neg (pos 1250)) brl
negate-IsExact_example = negate-IsExact (money 1250) (money-IsValid 1250 (omega arith))

digits_all : all is_digit (text "12") ≡ true
unfolding is_digit
digits_all = refl

digit_five : is_digit b'5' ≡ true
unfolding is_digit
digit_five = refl

digit_zero : is_digit b'0' ≡ true
unfolding is_digit
digit_zero = refl

new_money-IsExact_example :
    ((n : Notation) × IsWritten n
      × (spelled n ≡ text "12.5")
      × IsExact (new_money (text "12.5") brl) (pos (value_of n)) brl)
    ⊎ (((n : Notation) → IsWritten n → ¬ (spelled n ≡ text "12.5"))
        × (new_money (text "12.5") brl ≡ fail invalid_money))
new_money-IsExact_example = new_money-IsExact (text "12.5") brl brl_accepted

-- One digit behind the point is that of the tenths.
tenths_run : value_of (tenths (text "12") b'5') ≡ 1250
unfolding value_of value_from
tenths_run = refl

new_money-to_string_example : new_money (to_string (money 1250)) brl ≡ ok (money 1250)
new_money-to_string_example = new_money-to_string 1250 brl brl_accepted (omega arith)

wallet-IsValid : Wallet.IsValid wallet
wallet-IsValid = record {
  identified = omega arith;
  owned = omega arith;
  balance_valid = money-IsValid 1250 (omega arith);
  nonneg = omega arith;
  versioned = (omega arith, omega arith);
  created = omega arith;
  ordered = omega arith;
}

movement : IsMovement wallet (money 250)
movement = record {
  wallet_valid = wallet-IsValid;
  money_valid = money-IsValid 250 (omega arith);
  amount_pos = omega arith;
  same_currency = same_brl;
  can_grow = omega arith;
}

credit_outcome_example :
    ((pos 1250 +ℤ pos 250 ≤ℤ max_int64)
      × (credit 9 wallet (money 250) ≡ ok (moved 9 wallet (pos 1250 +ℤ pos 250))))
    ⊎ ((max_int64 <ℤ pos 1250 +ℤ pos 250) × (credit 9 wallet (money 250) ≡ fail money_overflow))
credit_outcome_example = credit_outcome 9 wallet (money 250) movement

debit_outcome_example :
    ((pos 250 ≤ℤ pos 1250)
      × (debit 9 wallet (money 250) ≡ ok (moved 9 wallet (pos 1250 -ℤ pos 250))))
    ⊎ ((pos 1250 <ℤ pos 250) × (debit 9 wallet (money 250) ≡ fail insufficient_balance))
debit_outcome_example = debit_outcome 9 wallet (money 250) movement

abbrev credited : Wallet
credited = record wallet { balance = money 1500; version = 2; updated_at = 9 }

abbrev debited : Wallet
debited = record wallet { balance = money 1000; version = 2; updated_at = 9 }

credit_runs : credit 9 wallet (money 250) ≡ ok credited
unfolding credit validate_movement str_eq Money.validate valid_currency Money.is_positive Money.add
    Money.compatible add64 sub64 wrap64 ◌+ℤ◌ ◌-ℤ◌
credit_runs = refl

debit_runs : debit 9 wallet (money 250) ≡ ok debited
unfolding debit validate_movement str_eq Money.validate valid_currency Money.is_positive Money.sub
    Money.less_than Money.compatible add64 sub64 wrap64 ◌+ℤ◌ ◌-ℤ◌
debit_runs = refl

credit-IsValid_example : Wallet.IsValid credited
credit-IsValid_example =
    credit-IsValid 9 wallet credited (money 250) wallet-IsValid (money-IsValid 250 (omega arith))
      (omega arith) credit_runs

debit-IsValid_example : Wallet.IsValid debited
debit-IsValid_example =
    debit-IsValid 9 wallet debited (money 250) wallet-IsValid (money-IsValid 250 (omega arith))
      (omega arith) debit_runs

known : known_direction Ledger.debit ≡ true
unfolding known_direction
known = refl

validate_ledger_balance_iff_example :
    (validate_ledger_balance Ledger.debit (money 250) (money 1250) (money 1000) ≡ ok tt)
    ↔ (pos 1000 ≡ pos 1250 +ℤ neg (pos 250))
validate_ledger_balance_iff_example =
    validate_ledger_balance_iff Ledger.debit (money 250) (money 1250) (money 1000) known
      (money-IsValid 250 (omega arith)) (money-IsValid 1250 (omega arith))
      (money-IsValid 1000 (omega arith)) same_brl

abbrev entry : WalletLedgerEntry
entry = record {
  id = 1;
  wallet_id = 102;
  transaction_id = 5;
  direction = Ledger.debit;
  money = money 250;
  balance_before = money 1250;
  balance_after = money 1000;
  created_at = 9;
}

entry_runs :
    new_wallet_ledger_entry 9 1 102 5 Ledger.debit (money 250) (money 1250) (money 1000) ≡ ok entry
unfolding new_wallet_ledger_entry known_direction str_eq Money.validate valid_currency
    Money.is_positive Money.sub Money.compatible validate_ledger_balance add64 sub64 wrap64 ◌+ℤ◌
    ◌-ℤ◌
entry_runs = refl

new_wallet_ledger_entry_inv_example :
    (entry ≡ record {
      id = 1;
      wallet_id = 102;
      transaction_id = 5;
      direction = Ledger.debit;
      money = money 250;
      balance_before = money 1250;
      balance_after = money 1000;
      created_at = 9;
    })
    × (Money.is_positive (money 250) ≡ true)
    × (pos 1000 ≡ pos 1250 +ℤ signed_amount entry.direction entry.money.amount)
new_wallet_ledger_entry_inv_example =
    new_wallet_ledger_entry_inv 9 1 102 5 Ledger.debit (money 250) (money 1250) (money 1000) entry
      (omega arith, omega arith) (money-IsValid 1250 (omega arith))
      (money-IsValid 1000 (omega arith)) entry_runs
