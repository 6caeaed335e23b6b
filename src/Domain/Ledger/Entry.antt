-- ===== src/Domain/Ledger/Entry.antt =====
-- What the construction of a ledger entry has checked (wallet_ledger_entry.go).
use backend_challenge.Base.{
  ◌∙◌, ap, not-false, subst, sym, ◌≡◌, sym, Bool, true, false, not, ◌||◌, arith, ◌+ℤ◌, IsInt64,
}
use backend_challenge.Errors.{
  ok_inj, then-eq-ok, ok, fail_if-eq-ok, invalid_ledger_entry, invalid_ledger_direction,
  currency_mismatch,
}
use backend_challenge.Domain.Money
use backend_challenge.Domain.Money.{Money}
use backend_challenge.Domain.Wallet.{Uuid, Time}
use backend_challenge.Domain.Ledger.{
  LedgerDirection, WalletLedgerEntry, signed_amount, new_wallet_ledger_entry,
  validate_ledger_balance,
}
use backend_challenge.Domain.Ledger.Balance.{validate_ledger_balance_iff}

accepted_if_positive :
    (m : Money) → Money.is_positive m ≡ true → Money.valid_currency m.currency ≡ true
unfolding Money.is_positive Money.validate
accepted_if_positive m h = ground arith

both_equal : (a b : Bool) → (not a || not b) ≡ false → (a ≡ true) × (b ≡ true)
both_equal a b h = ground arith

-- An entry that is constructed, of amounts of the machine's type and valid balances, has the id,
-- the wallet, the operation, the direction, the amount, the balances before and after it and the
-- time that were given; its amount is positive, and its balance after is the exact sum of its
-- balance before and its signed amount.
pub new_wallet_ledger_entry_inv :
    (now : Time) (id wallet_id transaction_id : Uuid) (direction : LedgerDirection)
    (money before after : Money) (entry : WalletLedgerEntry)
    → IsInt64 money.amount
    → Money.IsValid before
    → Money.IsValid after
    → new_wallet_ledger_entry now id wallet_id transaction_id direction money before after
      ≡ ok entry
    → (entry ≡ record {
      id = id;
      wallet_id = wallet_id;
      transaction_id = transaction_id;
      direction = direction;
      money = money;
      balance_before = before;
      balance_after = after;
      created_at = now;
    })
      × (Money.is_positive entry.money ≡ true)
      × (entry.balance_after.amount
          ≡ entry.balance_before.amount +ℤ signed_amount entry.direction entry.money.amount)
unfolding new_wallet_ledger_entry
new_wallet_ledger_entry_inv now id wallet_id transaction_id direction money before after entry range
      hb ha h =
    let (given, h1) = fail_if-eq-ok _ invalid_ledger_entry _ h in
    let (known, h2) = fail_if-eq-ok _ invalid_ledger_direction _ h1 in
    let (positive, h3) = fail_if-eq-ok _ invalid_ledger_entry _ h2 in
    let (currencies, h4) = fail_if-eq-ok _ currency_mismatch _ h3 in
    let (checked, done) = then-eq-ok (validate_ledger_balance direction money before after) _ h4 in
    let is_pos = not-false _ positive in
    let balance =
      (validate_ledger_balance_iff direction money before after (not-false _ known)
          (record { accepted = accepted_if_positive money is_pos; in_range = range }) hb ha
          (both_equal _ _ currencies).0).0
        checked in
    (
      sym (ok_inj done),
      subst (λ (e : WalletLedgerEntry). Money.is_positive e.money ≡ true) (ok_inj done) is_pos,
      subst
          (λ (e : WalletLedgerEntry).
            e.balance_after.amount
            ≡ e.balance_before.amount +ℤ signed_amount e.direction e.money.amount)
          (ok_inj done) balance,
    )

-- The same of the balances that were given.
pub new_wallet_ledger_entry_change :
    (now : Time) (id wallet_id transaction_id : Uuid) (direction : LedgerDirection)
    (money before after : Money) (entry : WalletLedgerEntry)
    → IsInt64 money.amount
    → Money.IsValid before
    → Money.IsValid after
    → new_wallet_ledger_entry now id wallet_id transaction_id direction money before after
      ≡ ok entry
    → (entry.wallet_id ≡ wallet_id)
      × (after.amount ≡ before.amount +ℤ signed_amount entry.direction entry.money.amount)
new_wallet_ledger_entry_change now id wallet_id transaction_id direction money before after entry
      range hb ha h =
    let (built, positive, balance) =
      new_wallet_ledger_entry_inv now id wallet_id transaction_id direction money before after entry
        range hb ha h in
    (
      ap (λ (e : WalletLedgerEntry). e.wallet_id) built,
      sym (ap (λ (e : WalletLedgerEntry). e.balance_after.amount) built)
          ∙ balance
          ∙ ap
              (λ (e : WalletLedgerEntry).
                e.balance_before.amount +ℤ signed_amount entry.direction entry.money.amount)
              built,
    )
