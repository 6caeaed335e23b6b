-- ===== src/Domain/Money/RoundTrip.antt =====
-- Printing an amount of money and reading it back (money.go).
use backend_challenge.Base.{
  suc, ◌≤◌, ◌/◌, ◌%◌, ℕ, ◌+◌, ◌-◌, ◌*◌, ◌/◌, ◌<◌, ◌≡◌, inl, inr, true, false, [], ◌∷◌, ◌++◌, arith,
  ltb, Bool-cases, pos, ltb_ℤ, two63,
}
use backend_challenge.Text.{digits, print_int, print_02, int64_digits, Text}
use backend_challenge.Text.DecimalLaws.{
  value_from-digits, is_digit-add, length-digits-pos, all-is_digit-digits,
}
use backend_challenge.Errors.{Result, ok}
use backend_challenge.Domain.Money.{to_string, Money, new_money, valid_currency}
use backend_challenge.Domain.Money.Notation.{new_money_cents}
use backend_challenge.Domain.Money.Arithmetic.{IsExact}

digits_small : (f n : ℕ) → n < 10 → digits (suc f) n ≡ (b'0' + n) ∷ []
unfolding digits
digits_small f n h = ground arith

digits_two :
    (c : ℕ) → c < 100 → 10 ≤ c → digits int64_digits c ≡ (b'0' + c / 10) ∷ (b'0' + c % 10) ∷ []
unfolding digits
digits_two c h k = ground (arith, digits_small 18 (c / 10))

print_02-eq : (c : ℕ) → c < 100 → print_02 (pos c) ≡ (b'0' + c / 10) ∷ (b'0' + c % 10) ∷ []
unfolding print_02
print_02-eq c h = elim (Bool-cases (ltb c 10)) [
  | inl small ↦ rw (small, digits_small 19 c (ground arith)) (ground arith)
  | inr large ↦ rw large (digits_two c h (ground arith))
]

-- The exact amount, where it is known to fit.
IsExact-ok :
    (r : Result Money) (n k : ℕ) (currency : Text)
    → IsExact r (pos k) currency
    → k ≡ n
    → n < two63
    → r ≡ ok (record { amount = pos n; currency = currency })
IsExact-ok r n k currency (inl (range, e)) same h = rw (← same) e
IsExact-ok r n k currency (inr (out, e)) same h = absurd (out (omega arith))

two_digits_value : (c : ℕ) → (b'0' + c / 10 - b'0') * 10 + (b'0' + c % 10 - b'0') ≡ c
two_digits_value c = omega arith

-- The text of an amount that is not negative: its whole part, a point and two digits.
pub to_string-pos :
    (n : ℕ) (currency : Text)
    → to_string (record { amount = pos n; currency = currency })
      ≡ digits int64_digits (n / 100) ++ (b'.' ∷ (b'0' + n % 100 / 10) ∷ (b'0' + n % 100 % 10) ∷ [])
unfolding to_string print_int
to_string-pos n currency =
    let nonneg : ltb_ℤ (pos n) (pos 0) ≡ false = ground arith in
    rw (nonneg, print_02-eq (n % 100) (omega arith))

-- `NewMoney` reads back what `String` prints, for every amount in cents that is not negative and
-- every accepted currency.
pub new_money-to_string :
    (n : ℕ) (currency : Text)
    → valid_currency currency ≡ true
    → n < two63
    → new_money (to_string (record { amount = pos n; currency = currency })) currency
      ≡ ok (record { amount = pos n; currency = currency })
new_money-to_string n currency hc h =
    let c = n % 100 in
    let w = digits int64_digits (n / 100) in
    rw (to_string-pos n currency) (
      IsExact-ok _ n _ currency
        (new_money_cents w (b'0' + c / 10) (b'0' + c % 10) currency hc
          (all-is_digit-digits int64_digits (n / 100)) (length-digits-pos 19 (n / 100))
          (is_digit-add (c / 10) (omega arith)) (is_digit-add (c % 10) (omega arith)))
        (rw (value_from-digits int64_digits (n / 100) (omega arith), two_digits_value c)
          (omega arith))
        h)
