-- ===== src/Tests/Wagers.antt =====
-- A rejected bet, a refund of a processed bet, and the reconciliation of the opened wallet.
use backend_challenge.Base.{[], ◌∷◌, ◌+ℤ◌, ◌≡◌, refl, ◌↔◌, arith, true, false, some}
use backend_challenge.Text.{text, str_eq, is_blank}
use backend_challenge.Errors.{ok}
use backend_challenge.Domain.Money
use backend_challenge.Domain.Wager.{
  WagerTransaction, rejected, validate, validate_wager_money, validate_origin, validate_resolved,
  validate_result_balance, validate_status, known_kind, needs_reference, is_terminal, can_change,
  reject, validate_reference,
}
use backend_challenge.Domain.Wager.Lifecycle.{Transition, refuses, Transition-validate}
use backend_challenge.Domain.Wager.Edges.{Edge, SameOperation, Transition-Edge}
use backend_challenge.Domain.Wager.Reference.{IsReference, validate_reference_iff}
use backend_challenge.Postgres.{World, first}
use backend_challenge.Application.{reconcile_wallet, ledger_sum}
use backend_challenge.Books.Logic.{books}
use backend_challenge.Books.Balance.{has_wallet_id, IsBalanced}
use backend_challenge.Books.Halfway.{insert_entry-IsBalanced}
use backend_challenge.Books.Opening.{IsNew, insert_wallet-IsHalfway}
use backend_challenge.Domain.Ledger.{WalletLedgerEntry, credit}
use backend_challenge.Books.Reconcile.{reconcile_wallet-IsOutcome, IsOutcome}
use backend_challenge.Postgres.{Db}
use backend_challenge.Tests.Scenario.{
  runtime, money, pending_bet, processed_bet, pending_refund, wallet, empty_db,
}

abbrev rejected_bet : WagerTransaction
rejected_bet = record pending_bet {
  status = rejected;
  failure_code = some (text "INSUFFICIENT_BALANCE");
  updated_at = 4;
}

bet_is_rejected : Transition 4 pending_bet rejected_bet
unfolding reject can_change is_terminal validate validate_wager_money validate_origin
    validate_resolved validate_result_balance validate_status known_kind is_blank needs_reference
    Money.is_positive Money.validate Money.valid_currency str_eq
bet_is_rejected = refuses (text "INSUFFICIENT_BALANCE") refl

Transition-validate_example : validate rejected_bet ≡ ok tt
Transition-validate_example =
    Transition-validate 4 pending_bet rejected_bet (omega arith) bet_is_rejected

Transition-Edge_example :
    (is_terminal pending_bet ≡ false)
    × Edge pending_bet.status rejected_bet.status
    × SameOperation pending_bet rejected_bet
Transition-Edge_example = Transition-Edge 4 pending_bet rejected_bet bet_is_rejected

validate_reference_iff_example :
    (validate_reference pending_refund processed_bet ≡ ok tt)
    ↔ IsReference pending_refund processed_bet
validate_reference_iff_example = validate_reference_iff pending_refund processed_bet

refund_is_accepted : validate_reference pending_refund processed_bet ≡ ok tt
unfolding validate_reference validate validate_wager_money validate_origin validate_resolved
    validate_result_balance validate_status known_kind is_blank needs_reference Money.is_positive
    Money.validate Money.valid_currency Money.money_eq str_eq
refund_is_accepted = refl

abbrev opening_entry : WalletLedgerEntry
opening_entry = record {
  id = 1;
  wallet_id = 102;
  transaction_id = 1102;
  direction = credit;
  money = money 1250;
  balance_before = money 0;
  balance_after = money 1250;
  created_at = 2;
}

abbrev pub opened_db : Db
opened_db = record empty_db { wallets = wallet ∷ []; ledger = opening_entry ∷ [] }

brl_accepted : Money.valid_currency wallet.balance.currency ≡ true
unfolding Money.valid_currency str_eq
brl_accepted = refl

wallet-IsNew : IsNew wallet
wallet-IsNew = record {
  valid = record { accepted = brl_accepted; in_range = (omega arith, omega arith) };
  first_version = refl;
}

no_books : IsBalanced (books empty_db)
unfolding first ledger_sum
no_books = record { backed = λ id row found. absurd cc; unowned = λ id missing. refl }

pub opened_db-IsBalanced : IsBalanced (books opened_db)
unfolding ◌+ℤ◌ first
opened_db-IsBalanced =
    insert_entry-IsBalanced (record wallet { balance = money 0 }) wallet
      (record { wallets = wallet ∷ []; ledger = [] }) opening_entry
      (insert_wallet-IsHalfway wallet (books empty_db) wallet-IsNew no_books refl) refl refl

wallet_is_stored : first (has_wallet_id 102) opened_db.wallets ≡ some wallet
unfolding first
wallet_is_stored = refl

-- The world of the wallet that was opened.
abbrev opened_world : World
opened_world = record { db = opened_db; calls = 0 }

reconcile_wallet-IsOutcome_example :
    ((reconcile_wallet runtime 102 opened_world).1.db ≡ opened_db)
    × IsOutcome (opening_entry ∷ []) wallet (reconcile_wallet runtime 102 opened_world).0
reconcile_wallet-IsOutcome_example =
    reconcile_wallet-IsOutcome runtime 102 opened_world wallet refl refl wallet_is_stored
      wallet-IsNew.valid
