-- ===== src/Domain/Wallet/Invariant.antt =====
-- What a successful credit or debit has done, and that it keeps a wallet valid (wallet.go).
use backend_challenge.Base.{
  not-false, ℤ, ◌≤◌, ◌≡◌, ◌≢◌, inl, inr, true, false, arith, pos, ◌≤ℤ◌, ◌<ℤ◌, ◌+ℤ◌, ◌-ℤ◌, int_laws,
  max_int64, not,
}
use backend_challenge.Text.{str_eq}
use backend_challenge.Errors.{◌>>◌, fail_if-eq-ok, >>=-eq-ok, Result, ok, fail_if, wallet_currency}
use backend_challenge.Domain.Money
use backend_challenge.Domain.Money.{Money}
use backend_challenge.Domain.Wallet.{
  Wallet, IsValid, Time, max_version, validate_movement, credit, debit,
}
use backend_challenge.Domain.Wallet.Movement.{IsMovement, moved, credit_outcome, debit_outcome}

positive_amount : (m : Money) → Money.is_positive m ≡ true → pos 0 <ℤ m.amount
unfolding Money.is_positive
positive_amount m h = ground arith

validated_movement :
    (w : Wallet) (money : Money)
    → validate_movement w money ≡ ok tt
    → (Money.is_positive money ≡ true) × (w.version ≢ max_version)
unfolding validate_movement
validated_movement w money h = (ground arith, ground arith)

-- A movement that passes the checks of `Credit` and `Debit` is one that the wallet can take.
IsMovement-of_checks :
    (w : Wallet) (money : Money)
    → IsValid w
    → Money.IsValid money
    → validate_movement w money ≡ ok tt
    → not (str_eq money.currency w.balance.currency) ≡ false
    → IsMovement w money
IsMovement-of_checks w money hw hm checked same =
    let (positive, not_last) = validated_movement w money checked in
    record {
      wallet_valid = hw;
      money_valid = hm;
      amount_pos = positive_amount money positive;
      same_currency = not-false _ same;
      can_grow = omega (arith, hw.versioned, not_last);
    }

abbrev Checked : Wallet → Money → Type 0
Checked w money =
    (validate_movement w money ≡ ok tt) × (not (str_eq money.currency w.balance.currency) ≡ false)

checks_of_chain :
    (w v : Wallet) (money : Money) (rest : Result Wallet)
    → (validate_movement w money
        >> (fail_if (not (str_eq money.currency w.balance.currency)) wallet_currency >> rest))
      ≡ ok v
    → Checked w money
checks_of_chain w v money rest e =
    let (u, checked, e') = >>=-eq-ok (validate_movement w money) _ e in
    (checked, (fail_if-eq-ok _ wallet_currency rest e').0)

credit_checks :
    (now : Time) (w v : Wallet) (money : Money) → credit now w money ≡ ok v → Checked w money
unfolding credit
credit_checks now w v money e = checks_of_chain w v money _ e

debit_checks :
    (now : Time) (w v : Wallet) (money : Money) → debit now w money ≡ ok v → Checked w money
unfolding debit
debit_checks now w v money e = checks_of_chain w v money _ e

-- What a successful `Credit` has done.
pub credit_inv :
    (now : Time) (w v : Wallet) (money : Money)
    → IsValid w
    → Money.IsValid money
    → credit now w money ≡ ok v
    → IsMovement w money
      × (v ≡ moved now w (w.balance.amount +ℤ money.amount))
      × (w.balance.amount +ℤ money.amount ≤ℤ max_int64)
credit_inv now w v money hw hm e =
    let (checked, same) = credit_checks now w v money e in
    let movement = IsMovement-of_checks w money hw hm checked same in
    elim (credit_outcome now w money movement) [
      | inl (fits, done) ↦ (movement, cc, fits)
      | inr (over, refused) ↦ absurd (cc)
    ]

-- What a successful `Debit` has done.
pub debit_inv :
    (now : Time) (w v : Wallet) (money : Money)
    → IsValid w
    → Money.IsValid money
    → debit now w money ≡ ok v
    → IsMovement w money
      × (v ≡ moved now w (w.balance.amount -ℤ money.amount))
      × (money.amount ≤ℤ w.balance.amount)
debit_inv now w v money hw hm e =
    let (checked, same) = debit_checks now w v money e in
    let movement = IsMovement-of_checks w money hw hm checked same in
    elim (debit_outcome now w money movement) [
      | inl (enough, done) ↦ (movement, cc, enough)
      | inr (short, refused) ↦ absurd (cc)
    ]

moved-IsValid :
    (now : Time) (w : Wallet) (money : Money) (amount : ℤ)
    → IsMovement w money
    → w.created_at ≤ now
    → pos 0 ≤ℤ amount
    → amount ≤ℤ max_int64
    → IsValid (moved now w amount)
moved-IsValid now w money amount h t low high = record {
  identified = h.wallet_valid.identified;
  owned = h.wallet_valid.owned;
  balance_valid = record {
    accepted = h.wallet_valid.balance_valid.accepted;
    in_range = omega (arith, low, high);
  };
  nonneg = low;
  versioned = omega (arith, h.wallet_valid.versioned, h.can_grow);
  created = h.wallet_valid.created;
  ordered = t;
}

-- A credit that succeeds on a valid wallet, with a valid amount and a clock that is not behind the
-- wallet's creation, leaves a valid wallet: its balance is neither negative nor past `MaxInt64`.
pub credit-IsValid :
    (now : Time) (w v : Wallet) (money : Money)
    → IsValid w
    → Money.IsValid money
    → w.created_at ≤ now
    → credit now w money ≡ ok v
    → IsValid v
credit-IsValid now w v money hw hm t e =
    let (movement, done, fits) = credit_inv now w v money hw hm e in
    rw done (
      moved-IsValid now w money _ movement t (omega (int_laws, hw.nonneg, movement.amount_pos))
        fits)

-- A debit that succeeds on a valid wallet, with a valid amount and a clock that is not behind the
-- wallet's creation, leaves a valid wallet: its balance is not negative.
pub debit-IsValid :
    (now : Time) (w v : Wallet) (money : Money)
    → IsValid w
    → Money.IsValid money
    → w.created_at ≤ now
    → debit now w money ≡ ok v
    → IsValid v
debit-IsValid now w v money hw hm t e =
    let (movement, done, enough) = debit_inv now w v money hw hm e in
    rw done (
      moved-IsValid now w money _ movement t (omega (int_laws, enough))
        (omega (int_laws, hw.balance_valid.in_range, movement.amount_pos)))
