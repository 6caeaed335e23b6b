-- ===== src/Domain/Money/Range.antt =====
-- `NewMoney` (money.go) gives an amount of the machine's type.
use backend_challenge.Base.{
  ◌≡◌, subst, ℤ, IsInt64, add64, wrap64-IsInt64, not, ltb_ℤ, sub64, max_int64,
}
use backend_challenge.Text.{Text, split, parse_int}
use backend_challenge.Errors.{
  ok, ok_inj, fail_if-eq-ok, fail_if, >>=-eq-ok, ◌>>◌, invalid_money, money_overflow,
}
use backend_challenge.Domain.Money.{
  Money, new_money, valid_currency, money_pattern, or_fail, cents_of, first_part, times_100,
  quot_100,
}

pub add64-IsInt64 : (a b : ℤ) → IsInt64 (add64 a b)
unfolding add64
add64-IsInt64 a b = wrap64-IsInt64 _

module _ (value currency : Text) (m : Money) where
  assemble-IsInt64 :
      (whole cents : ℤ)
      → (fail_if (ltb_ℤ (quot_100 (sub64 max_int64 cents)) whole) money_overflow
          >> ok (record { amount = add64 (times_100 whole) cents; currency = currency }))
        ≡ ok m
      → IsInt64 m.amount
  assemble-IsInt64 whole cents h =
      let (fits, done) =
        fail_if-eq-ok (ltb_ℤ (quot_100 (sub64 max_int64 cents)) whole) money_overflow _ h in
      subst (λ (m : Money). IsInt64 m.amount) (ok_inj done) (add64-IsInt64 (times_100 whole) cents)

  pub new_money-IsInt64 : new_money value currency ≡ ok m → IsInt64 m.amount
  unfolding new_money
  new_money-IsInt64 h =
      let (known, h1) = fail_if-eq-ok (not (valid_currency currency)) invalid_money _ h in
      let (formed, h2) = fail_if-eq-ok (not (money_pattern value)) invalid_money _ h1 in
      let parts = split b'.' value in
      let (whole, parsed, h3) =
        >>=-eq-ok (or_fail (parse_int (first_part parts)) money_overflow) _ h2 in
      let (cents, read, h4) = >>=-eq-ok (cents_of parts) _ h3 in assemble-IsInt64 whole cents h4
