-- ===== src/Domain/Ledger/Balance.antt =====
-- What the checks of a ledger entry mean (wallet_ledger_entry.go).
use backend_challenge.Base.{
  sym, ◌≡◌, ◌↔◌, inl, inr, true, false, not, arith, ℤ, eqb_ℤ, ◌+ℤ◌, ◌-ℤ◌, neg, int_laws, IsInt64,
}
use backend_challenge.Text.{str_eq, str_eq_flip}
use backend_challenge.Errors.{Result, ok, fail_if, invalid_ledger_balance}
use backend_challenge.Domain.Money
use backend_challenge.Domain.Money.{Money}
use backend_challenge.Domain.Money.Arithmetic.{IsExact, add-IsExact, sub-IsExact}
use backend_challenge.Domain.Ledger.{
  LedgerDirection, debit, credit, unknown, signed_amount, validate_ledger_balance, known_direction,
}

eqb_eq : (a b : ℤ) → not (eqb_ℤ a b) ≡ false → a ≡ b
eqb_eq a b h = ground arith

eq_eqb : (a b : ℤ) → a ≡ b → not (eqb_ℤ a b) ≡ false
eq_eqb a b h = ground arith

-- The check of an exact result against the balance after it.
checked_balance :
    (r : Result Money) (total after : ℤ) (currency : backend_challenge.Text.Text)
    → IsExact r total currency
    → IsInt64 after
    → ((backend_challenge.Errors.◌>>=◌ r
          (λ expected. fail_if (not (eqb_ℤ expected.amount after)) invalid_ledger_balance))
        ≡ ok tt)
      ↔ (after ≡ total)
checked_balance r total after currency (inl (range, e)) h =
    rw e (λ p. ground (arith, eqb_eq total after), λ p. rw (eq_eqb total after (sym p)))
checked_balance r total after currency (inr (out, e)) h =
    rw e (λ p. absurd (cc), λ p. absurd (out (rw p at h)))

pub sub_as_neg : (a b : ℤ) → a -ℤ b ≡ a +ℤ neg b
sub_as_neg a b = omega int_laws

-- For valid amounts of one currency and a known direction, an entry's check passes just where the
-- balance after it is the exact balance before it plus the signed amount.
pub validate_ledger_balance_iff :
    (direction : LedgerDirection) (money before after : Money)
    → known_direction direction ≡ true
    → Money.IsValid money
    → Money.IsValid before
    → Money.IsValid after
    → str_eq money.currency before.currency ≡ true
    → (validate_ledger_balance direction money before after ≡ ok tt)
      ↔ (after.amount ≡ before.amount +ℤ signed_amount direction money.amount)
unfolding validate_ledger_balance
validate_ledger_balance_iff debit money before after k hm hb ha c =
    rw (← sub_as_neg before.amount money.amount) (
      checked_balance (Money.sub before money) _ after.amount before.currency
        (sub-IsExact before money hb hm (str_eq_flip _ _ c)) ha.in_range)
validate_ledger_balance_iff credit money before after k hm hb ha c =
    checked_balance (Money.add before money) _ after.amount before.currency
      (add-IsExact before money hb hm (str_eq_flip _ _ c)) ha.in_range
validate_ledger_balance_iff (unknown name) money before after k hm hb ha c =
    absurd (unfold known_direction in cc)
