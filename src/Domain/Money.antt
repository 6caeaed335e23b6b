-- ===== src/Domain/Money.antt =====
-- Amounts of money in minor units (internal/domain/money.go): construction, arithmetic with
-- overflow checks, and the decimal notation.
pub mod Arithmetic
pub mod Range
pub mod Notation
pub mod Grammar
pub mod RoundTrip
mod Tests
use backend_challenge.Base.{
  ℕ, suc, ◌+◌, ◌/◌, ◌%◌, ◌≡◌, refl, Bool, true, false, not, ◌&&◌, ◌||◌, Option, none, some, List,
  [], ◌∷◌, ◌++◌, ◌==◌, leb, if◌then◌else◌, ℤ, pos, negsuc, pos_part, ltb_ℤ, eqb_ℤ, neg, max_int64,
  min_int64, add64, sub64, neg64, wrap64, IsInt64,
}
use backend_challenge.Text.{
  Text, text, str_eq, is_empty, split, is_digit, parse_int, print_int, print_02,
}
use backend_challenge.Errors.{
  Result, ok, err, fail, fail_if, failed, ◌>>=◌, ◌>>◌, invalid_money, currency_mismatch,
  money_overflow,
}

pub record Money : Type 0 where
  pub amount : ℤ
  pub currency : Text

unfoldable pub valid_currency : Text → Bool
valid_currency currency = str_eq currency (text "BRL") || str_eq currency (text "USD")

unfoldable pub validate : Money → Result (Unit {0})
unfolding valid_currency
validate m = fail_if (not (valid_currency m.currency)) invalid_money

-- `^\d+(\.\d{1,2})?$`: what may follow the point, what may follow the first digit, and the whole.
fraction : Text → Bool
fraction [] = false
fraction (a ∷ []) = is_digit a
fraction (a ∷ b ∷ []) = is_digit a && is_digit b
fraction (a ∷ b ∷ c ∷ s) = false

after_digit : Text → Bool
unfolding fraction
after_digit [] = true
after_digit (c ∷ s) = if is_digit c then after_digit s else c == b'.' && fraction s

unfoldable pub money_pattern : Text → Bool
unfolding after_digit
money_pattern [] = false
money_pattern (c ∷ s) = is_digit c && after_digit s

-- Go's `/ 100` and `% 100`, which round towards zero.
unfoldable pub quot_100 : ℤ → ℤ
quot_100 (pos n) = pos (n / 100)
quot_100 (negsuc n) = neg (pos (suc n / 100))

unfoldable pub rem_100 : ℤ → ℤ
rem_100 (pos n) = pos (n % 100)
rem_100 (negsuc n) = neg (pos (suc n % 100))

-- `whole * 100`
abbrev pub times_100 : ℤ → ℤ
times_100 (pos n) = wrap64 (pos (backend_challenge.Base.◌*◌ n 100))
times_100 (negsuc n) = wrap64 (neg (pos (backend_challenge.Base.◌*◌ (suc n) 100)))

-- `decimal += "0"` if one digit follows the point
abbrev pad_cents : Text → Text
pad_cents (d ∷ []) = d ∷ b'0' ∷ []
pad_cents decimal = decimal

unfoldable pub or_fail : Option ℤ → backend_challenge.Errors.Sentinel → Result ℤ
or_fail none s = fail s
or_fail (some a) s = ok a

-- The cents of the two parts around the point, if there are two.
unfoldable pub cents_of : List Text → Result ℤ
unfolding or_fail
cents_of (whole ∷ decimal ∷ []) = or_fail (parse_int (pad_cents decimal)) invalid_money
cents_of parts = ok (pos 0)

abbrev pub first_part : List Text → Text
first_part [] = []
first_part (p ∷ ps) = p

unfoldable pub new_money : Text → Text → Result Money
unfolding valid_currency money_pattern or_fail cents_of
new_money value currency = do
  fail_if (not (valid_currency currency)) invalid_money
  fail_if (not (money_pattern value)) invalid_money
  let parts = split b'.' value
  whole ← or_fail (parse_int (first_part parts)) money_overflow
  cents ← cents_of parts
  fail_if (ltb_ℤ (quot_100 (sub64 max_int64 cents)) whole) money_overflow
  ok (record { amount = add64 (times_100 whole) cents; currency = currency })

unfoldable pub money_from_minor_units : ℤ → Text → Result Money
unfolding valid_currency
money_from_minor_units amount currency = do
  fail_if (not (valid_currency currency)) invalid_money
  ok (record { amount = amount; currency = currency })

unfoldable pub zero_money : Text → Result Money
unfolding money_from_minor_units
zero_money currency = money_from_minor_units (pos 0) currency

unfoldable pub compatible : Money → Money → Result (Unit {0})
unfolding validate
compatible m other = do
  fail_if (failed (validate m) || failed (validate other)) invalid_money
  fail_if (not (str_eq m.currency other.currency)) currency_mismatch

unfoldable pub add : Money → Money → Result Money
unfolding compatible
add m other = do
  compatible m other
  fail_if (ltb_ℤ (pos 0) other.amount && ltb_ℤ (sub64 max_int64 other.amount) m.amount)
      money_overflow
  fail_if (ltb_ℤ other.amount (pos 0) && ltb_ℤ m.amount (sub64 min_int64 other.amount))
      money_overflow
  ok (record { amount = add64 m.amount other.amount; currency = m.currency })

unfoldable pub sub : Money → Money → Result Money
unfolding compatible
sub m other = do
  compatible m other
  fail_if (ltb_ℤ (pos 0) other.amount && ltb_ℤ m.amount (add64 min_int64 other.amount))
      money_overflow
  fail_if (ltb_ℤ other.amount (pos 0) && ltb_ℤ (add64 max_int64 other.amount) m.amount)
      money_overflow
  ok (record { amount = sub64 m.amount other.amount; currency = m.currency })

unfoldable pub is_zero : Money → Bool
unfolding validate
is_zero m = not (failed (validate m)) && eqb_ℤ m.amount (pos 0)

unfoldable pub is_positive : Money → Bool
unfolding validate
is_positive m = not (failed (validate m)) && ltb_ℤ (pos 0) m.amount

unfoldable pub less_than : Money → Money → Result Bool
unfolding compatible
less_than m other = do compatible m other; ok (ltb_ℤ m.amount other.amount)

unfoldable pub negate : Money → Result Money
unfolding validate
negate m = do
  validate m
  fail_if (eqb_ℤ m.amount min_int64) money_overflow
  ok (record { amount = neg64 m.amount; currency = m.currency })

-- `String`
unfoldable pub to_string : Money → Text
unfolding quot_100 rem_100
to_string m =
    let whole = quot_100 m.amount in
    let cents = rem_100 m.amount in
    if ltb_ℤ m.amount (pos 0)
    then b'-' ∷ (print_int (neg64 whole) ++ (b'.' ∷ print_02 (neg64 cents)))
    else print_int whole ++ (b'.' ∷ print_02 cents)

-- `m == other` on two structs
unfoldable pub money_eq : Money → Money → Bool
money_eq m other = eqb_ℤ m.amount other.amount && str_eq m.currency other.currency

-- A currency that the program accepts, and an amount of the machine's type.
pub record IsValid (m : Money) : Type 0 where
  pub accepted : valid_currency m.currency ≡ true
  pub in_range : IsInt64 m.amount
