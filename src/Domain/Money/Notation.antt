-- ===== src/Domain/Money/Notation.antt =====
-- Money in decimal notation (money.go): what `NewMoney` makes of each form of it.
use backend_challenge.Base.{
  ◌/◌, ℕ, ◌+◌, ◌-◌, ◌*◌, ◌/◌, ◌<◌, ◌≡◌, refl, ◌∙◌, inl, inr, true, false, [], ◌∷◌, ◌++◌, some,
  arith, ◌==◌, ltb, all, length, Bool-cases, ℤ, pos, ltb_ℤ, -ℤ_parts, max_int64, two63, add64,
  sub64, wrap64, wrap64-eq, sub64-eq, add64-eq, ◌+ℤ◌,
}
use backend_challenge.Text.{Text, split, is_digit, parse_int, value_from}
use backend_challenge.Text.DecimalLaws.{parse_int-eq, parse_int-ge}
use backend_challenge.Errors.{Result, ok, fail_if, ◌>>=◌, ◌>>◌, money_overflow}
use backend_challenge.Domain.Money.{
  Money, new_money, valid_currency, money_pattern, after_digit, or_fail, times_100, quot_100,
}
use backend_challenge.Domain.Money.Arithmetic.{IsExact}

after_digit-append : (s t : Text) → all is_digit s ≡ true → after_digit (s ++ t) ≡ after_digit t
unfolding after_digit
after_digit-append [] t d = refl
after_digit-append (c ∷ s) t d = ground (arith, after_digit-append s t)

point-not_digit : is_digit b'.' ≡ false
unfolding is_digit
point-not_digit = refl

digit-not_point : (c : ℕ) → is_digit c ≡ true → (c == b'.') ≡ false
unfolding is_digit
digit-not_point c d = ground arith

split_digits : (s : Text) → all is_digit s ≡ true → split b'.' s ≡ s ∷ []
unfolding split
split_digits [] d = refl
split_digits (c ∷ s) d = ground (arith, split_digits s, digit-not_point c)

split-append :
    (s t : Text)
    → all is_digit s ≡ true
    → all is_digit t ≡ true
    → split b'.' (s ++ (b'.' ∷ t)) ≡ s ∷ t ∷ []
unfolding split
split-append [] t d e = rw (split_digits t e)
split-append (c ∷ s) t d e = ground (arith, split-append s t, digit-not_point c)

pattern_digits :
    (s t : Text) → all is_digit s ≡ true → 0 < length s → money_pattern (s ++ t) ≡ after_digit t
unfolding money_pattern
pattern_digits [] t d h = absurd (omega arith)
pattern_digits (c ∷ s) t d h = ground (arith, after_digit-append s t)

pattern_fraction :
    (a b : ℕ) → is_digit a ≡ true → is_digit b ≡ true → after_digit (b'.' ∷ a ∷ b ∷ []) ≡ true
unfolding after_digit
pattern_fraction a b ha hb = ground (arith, point-not_digit)

-- The steps of `NewMoney` once its argument is split.
abbrev assemble : Result ℤ → ℤ → Text → Result Money
assemble whole cents currency = do
  w ← whole
  fail_if (ltb_ℤ (quot_100 (sub64 max_int64 cents)) w) money_overflow
  ok (record { amount = add64 (times_100 w) cents; currency = currency })

add_pos : (a b : ℕ) → pos a +ℤ pos b ≡ pos (a + b)
unfolding ◌+ℤ◌
add_pos a b = ground arith

module _ (v c : ℕ) (small : c < 100) (currency : Text) where
  limit : quot_100 (sub64 max_int64 (pos c)) ≡ pos ((9223372036854775807 - c) / 100)
  unfolding quot_100
  limit = ground (arith, sub64-eq max_int64 (pos c), -ℤ_parts max_int64 (pos c))

  exact_sum : v * 100 + c < two63 → add64 (wrap64 (pos (v * 100))) (pos c) ≡ pos (v * 100 + c)
  exact_sum h =
      rw (wrap64-eq (pos (v * 100)) (omega arith))
        (add64-eq (pos (v * 100)) (pos c) (rw add_pos (omega arith)) ∙ add_pos (v * 100) c)

  assemble-IsExact : IsExact (assemble (ok (pos v)) (pos c) currency) (pos (v * 100 + c)) currency
  assemble-IsExact = rw limit (elim (Bool-cases (ltb ((9223372036854775807 - c) / 100) v)) [
    | inl above ↦ inr (ground arith, ground arith)
    | inr within ↦ inl (ground arith, ground (arith, exact_sum))
  ])

  -- Whole parts that are no `int64` are refused as well.
  assemble_parsed :
      (w : Text)
      → all is_digit w ≡ true
      → 0 < length w
      → v ≡ value_from 0 w
      → IsExact
          (assemble (or_fail (parse_int w) money_overflow) (pos c) currency)
          (pos (v * 100 + c))
          currency
  unfolding or_fail
  assemble_parsed w d h e = elim (Bool-cases (ltb v two63)) [
    | inl below ↦ rw (parse_int-eq w d h (ground arith), ← e) assemble-IsExact
    | inr above ↦ inr (ground arith, rw (parse_int-ge w d (ground arith)))
  ]

two_digits :
    (a b : ℕ)
    → is_digit a ≡ true
    → is_digit b ≡ true
    → parse_int (a ∷ b ∷ []) ≡ some (pos ((a - b'0') * 10 + (b - b'0')))
two_digits a b ha hb =
    parse_int-eq (a ∷ b ∷ []) (ground arith) (omega arith)
      (unfold value_from is_digit in ground arith)
    ∙ unfold value_from in ground arith

-- Digits, a point and two digits of cents denote the amount that they spell in decimal; `NewMoney`
-- gives just that amount, and the overflow error just where it is no `int64`.
pub new_money_cents :
    (w : Text) (a b : ℕ) (currency : Text)
    → valid_currency currency ≡ true
    → all is_digit w ≡ true
    → 0 < length w
    → is_digit a ≡ true
    → is_digit b ≡ true
    → IsExact
        (new_money (w ++ (b'.' ∷ a ∷ b ∷ [])) currency)
        (pos (value_from 0 w * 100 + ((a - b'0') * 10 + (b - b'0'))))
        currency
unfolding new_money
new_money_cents w a b currency hc d h ha hb =
    rw (pattern_digits w (b'.' ∷ a ∷ b ∷ []) d h, pattern_fraction a b ha hb)
      (rw (hc, split-append w (a ∷ b ∷ []) d (ground arith), two_digits a b ha hb)
        (assemble_parsed (value_from 0 w) ((a - b'0') * 10 + (b - b'0'))
          (unfold is_digit in ground arith) currency w d h refl))

pub new_money_tenths :
    (w : Text) (a : ℕ) (currency : Text)
    → valid_currency currency ≡ true
    → all is_digit w ≡ true
    → 0 < length w
    → is_digit a ≡ true
    → new_money (w ++ (b'.' ∷ a ∷ [])) currency ≡ new_money (w ++ (b'.' ∷ a ∷ b'0' ∷ [])) currency
unfolding new_money is_digit
new_money_tenths w a currency hc d h ha =
    rw (pattern_digits w (b'.' ∷ a ∷ []) d h, pattern_digits w (b'.' ∷ a ∷ b'0' ∷ []) d h)
      (rw
        (
          pattern_fraction a b'0' ha refl,
          split-append w (a ∷ []) d (ground arith),
          split-append w (a ∷ b'0' ∷ []) d (ground arith),
        )
        (unfold after_digit in ground arith))

after_digits : (s : Text) → all is_digit s ≡ true → after_digit s ≡ true
unfolding after_digit
after_digits [] d = refl
after_digits (c ∷ s) d = ground (arith, after_digits s)

pub pattern_whole : (s : Text) → all is_digit s ≡ true → 0 < length s → money_pattern s ≡ true
unfolding money_pattern
pattern_whole [] d h = absurd (omega arith)
pattern_whole (c ∷ s) d h = ground (arith, after_digits s)

pub pattern_tenths :
    (w : Text) (a : ℕ)
    → all is_digit w ≡ true
    → 0 < length w
    → is_digit a ≡ true
    → money_pattern (w ++ (b'.' ∷ a ∷ [])) ≡ true
unfolding after_digit
pattern_tenths w a d h ha =
    pattern_digits w (b'.' ∷ a ∷ []) d h ∙ ground (arith, point-not_digit, ha)

pub pattern_cents :
    (w : Text) (a b : ℕ)
    → all is_digit w ≡ true
    → 0 < length w
    → is_digit a ≡ true
    → is_digit b ≡ true
    → money_pattern (w ++ (b'.' ∷ a ∷ b ∷ [])) ≡ true
pattern_cents w a b d h ha hb =
    pattern_digits w (b'.' ∷ a ∷ b ∷ []) d h ∙ pattern_fraction a b ha hb

pub zero_digit : is_digit b'0' ≡ true
unfolding is_digit
zero_digit = refl

parse_cents : parse_int (b'0' ∷ b'0' ∷ []) ≡ some (pos 0)
parse_cents = two_digits b'0' b'0' zero_digit zero_digit

pub new_money_whole :
    (w : Text) (currency : Text)
    → all is_digit w ≡ true
    → 0 < length w
    → new_money w currency ≡ new_money (w ++ (b'.' ∷ b'0' ∷ b'0' ∷ [])) currency
unfolding new_money
new_money_whole w currency d h =
    rw (pattern_whole w d h, pattern_cents w b'0' b'0' d h zero_digit zero_digit)
      (rw (split_digits w d, split-append w (b'0' ∷ b'0' ∷ []) d (ground (arith, zero_digit)))
        (rw parse_cents))
