-- ===== src/Domain/Wallet/Movement.antt =====
-- Credits and debits (wallet.go): their outcome on every branch, and the invariant.
use backend_challenge.Base.{
  Bool, ℤ, ℕ, suc, ◌+◌, ◌≤◌, ◌<◌, ◌≡◌, ◌≢◌, refl, ◌⊎◌, inl, inr, true, false, arith, Bool-cases,
  ltb, pos, ltb_ℤ, ◌≤ℤ◌, ◌<ℤ◌, ◌+ℤ◌, ◌-ℤ◌, int_laws, -ℤ_parts, +ℤ_parts, IsInt64, max_int64, not,
}
use backend_challenge.Text.{str_eq_flip, str_eq}
use backend_challenge.Errors.{ok, fail, failed, insufficient_balance, money_overflow}
use backend_challenge.Domain.Money
use backend_challenge.Domain.Money.{Money}
use backend_challenge.Domain.Money.Arithmetic.{add-IsExact, sub-IsExact, compatible_ok}
use backend_challenge.Domain.Wallet.{
  Wallet, IsValid, Time, max_version, validate_movement, credit, debit,
}

-- A movement that the wallet can take: a positive amount of the wallet's currency, and a version
-- that can still grow.
pub record IsMovement (w : Wallet) (money : Money) : Type 0 where
  pub wallet_valid : IsValid w
  pub money_valid : Money.IsValid money
  pub amount_pos : pos 0 <ℤ money.amount
  pub same_currency : str_eq money.currency w.balance.currency ≡ true
  pub can_grow : w.version < max_version

validate_valid : (m : Money) → Money.IsValid m → failed (Money.validate m) ≡ false
unfolding Money.validate
validate_valid m h = ground (arith, h.accepted)

is_positive_valid : (m : Money) → Money.IsValid m → pos 0 <ℤ m.amount → Money.is_positive m ≡ true
unfolding Money.is_positive
is_positive_valid m h p = ground (arith, h.accepted)

validate_movement_ok :
    (w : Wallet) (money : Money) → IsMovement w money → validate_movement w money ≡ ok tt
unfolding validate_movement
validate_movement_ok w money h = ground (
  arith,
  validate_valid w.balance h.wallet_valid.balance_valid,
  is_positive_valid money h.money_valid h.amount_pos,
)

above_max : (a b : ℤ) → pos 0 ≤ℤ a → pos 0 <ℤ b → ¬ IsInt64 (a +ℤ b) → max_int64 <ℤ a +ℤ b
above_max a b ha hb out = elim (Bool-cases (ltb_ℤ max_int64 (a +ℤ b))) [
  | inl above ↦ ground arith
  | inr within ↦ absurd (out (ground (arith, +ℤ_parts a b)))
]

less_than_valid :
    (w : Wallet) (money : Money)
    → IsMovement w money
    → Money.less_than w.balance money ≡ ok (ltb_ℤ w.balance.amount money.amount)
unfolding Money.less_than
less_than_valid w money h = rw (
    compatible_ok w.balance money h.wallet_valid.balance_valid h.money_valid
      (str_eq_flip _ _ h.same_currency))

-- The wallet after a movement that leaves the given balance.
abbrev pub moved : Time → Wallet → backend_challenge.Base.ℤ → Wallet
moved now w amount = record w {
  balance = record { amount = amount; currency = w.balance.currency };
  version = w.version + 1;
  updated_at = now;
}

-- A credit of a movement that the wallet can take adds its amount exactly and counts the version
-- up, or is refused with the overflow error just where the sum passes `MaxInt64`.
pub credit_outcome :
    (now : Time) (w : Wallet) (money : Money)
    → IsMovement w money
    → let total = w.balance.amount +ℤ money.amount in
      ((total ≤ℤ max_int64) × (credit now w money ≡ ok (moved now w total)))
      ⊎ ((max_int64 <ℤ total) × (credit now w money ≡ fail money_overflow))
unfolding credit
credit_outcome now w money h =
    rw (validate_movement_ok w money h, h.same_currency)
      (elim (add-IsExact w.balance money h.wallet_valid.balance_valid h.money_valid
        (str_eq_flip _ _ h.same_currency)) [
          | inl (range, e) ↦ rw e (inl (range.1, refl))
          | inr (out, e) ↦ rw e (inr (above_max _ _ h.wallet_valid.nonneg h.amount_pos out, refl))
        ])

-- A debit of a movement that the wallet can take is refused just where the balance is smaller
-- than the amount, and otherwise subtracts the amount exactly and counts the version up.
pub debit_outcome :
    (now : Time) (w : Wallet) (money : Money)
    → IsMovement w money
    → ((money.amount ≤ℤ w.balance.amount)
        × (debit now w money ≡ ok (moved now w (w.balance.amount -ℤ money.amount))))
      ⊎ ((w.balance.amount <ℤ money.amount) × (debit now w money ≡ fail insufficient_balance))
unfolding debit
debit_outcome now w money h =
    rw (validate_movement_ok w money h, h.same_currency)
      (rw (less_than_valid w money h) (elim (Bool-cases (ltb_ℤ w.balance.amount money.amount)) [
        | inl short ↦ rw short (inr (ground arith, refl))
        | inr enough ↦
            rw enough
              (elim (sub-IsExact w.balance money h.wallet_valid.balance_valid h.money_valid
                (str_eq_flip _ _ h.same_currency)) [
                  | inl (range, e) ↦ rw e (inl (ground arith, refl))
                  | inr (out, e) ↦ absurd (
                      out (
                        ground (
                          arith,
                          -ℤ_parts w.balance.amount money.amount,
                          h.wallet_valid.nonneg,
                          h.amount_pos,
                          h.wallet_valid.balance_valid.in_range,
                        )))
                ])
      ]))
