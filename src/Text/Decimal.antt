-- ===== src/Text/Decimal.antt =====
-- `strconv.ParseInt(s, 10, 64)` and the verbs `%d` and `%02d` of `fmt.Sprintf`.
use backend_challenge.Base.{
  ℕ, zero, suc, ◌+◌, ◌-◌, ◌*◌, ◌/◌, ◌%◌, Bool, ◌&&◌, Option, none, some, [], ◌∷◌, ◌++◌, leb, ltb,
  ◌==◌, all, if◌then◌else◌, ℤ, pos, negsuc, neg, two63,
}
use backend_challenge.Text.Bytes.{Text}

unfoldable pub is_digit : ℕ → Bool
is_digit c = leb b'0' c && leb c b'9'

-- The number that a string of digits denotes, after those read so far.
unfoldable pub value_from : ℕ → Text → ℕ
value_from acc [] = acc
value_from acc (c ∷ s) = value_from (acc * 10 + (c - b'0')) s

-- A string of one or more digits, without a sign.
unfoldable pub parse_digits : Text → Option ℕ
unfolding is_digit value_from
parse_digits [] = none
parse_digits (c ∷ s) = if all is_digit (c ∷ s) then some (value_from 0 (c ∷ s)) else none

positive : Option ℕ → Option ℤ
positive none = none
positive (some n) = if ltb n two63 then some (pos n) else none

negative : Option ℕ → Option ℤ
negative none = none
negative (some n) = if leb n two63 then some (neg (pos n)) else none

-- `strconv.ParseInt(s, 10, 64)`; `none` is an error, of syntax or of range.
unfoldable pub parse_int : Text → Option ℤ
unfolding parse_digits positive negative
parse_int [] = none
parse_int (c ∷ s) =
    if c == b'-'
    then negative (parse_digits s)
    else if c == b'+'
    then positive (parse_digits s)
    else positive (parse_digits (c ∷ s))

-- The decimal digits of a number below 10 ^ fuel.
unfoldable pub digits : ℕ → ℕ → Text
digits zero n = []
digits (suc fuel) n =
    let more = digits fuel (n / 10) ++ (b'0' + n % 10) ∷ [] in
    if ltb n 10 then (b'0' + n) ∷ [] else more

-- Twenty digits are enough for every number below 2 ^ 64.
abbrev pub int64_digits : ℕ
int64_digits = 20

-- `%d`
unfoldable pub print_int : ℤ → Text
print_int (pos n) = digits int64_digits n
print_int (negsuc n) = b'-' ∷ digits int64_digits (suc n)

-- `%02d`, whose width counts the sign
unfoldable pub print_02 : ℤ → Text
unfolding print_int
print_02 (pos n) = if ltb n 10 then b'0' ∷ digits int64_digits n else digits int64_digits n
print_02 (negsuc n) = print_int (negsuc n)
