-- ===== src/Domain/Money/Grammar.antt =====
-- The decimal notations that `NewMoney` reads, and what it makes of any text (money.go).
use backend_challenge.Base.{
  sym, false-not_true, ap, subst, ◌∙◌, Bool-cases, refl, all, [], length, pos, Bool, arith, ◌∷◌, ℕ,
  ◌+◌, ◌-◌, ◌*◌, ◌<◌, ◌≡◌, ◌⊎◌, inl, inr, true, false, ◌++◌, ◌&&◌, ◌==◌, [], ◌∷◌,
}
use backend_challenge.Text.{Text, is_digit, value_from}
use backend_challenge.Errors.{fail, invalid_money}
use backend_challenge.Domain.Money.{new_money, valid_currency, money_pattern, after_digit, fraction}
use backend_challenge.Domain.Money.Arithmetic.{IsExact}
use backend_challenge.Domain.Money.Notation.{
  new_money_cents, new_money_tenths, new_money_whole, pattern_whole, pattern_cents, pattern_tenths,
  zero_digit,
}

-- An amount in decimal notation: a whole number, one with a digit of tenths, or one with two digits
-- of cents. The characters are those of the digits.
pub data Notation : Type 0 where
  whole : Text → Notation
  tenths : Text → ℕ → Notation
  cents : Text → ℕ → ℕ → Notation

unfoldable pub spelled : Notation → Text
spelled (whole w) = w
spelled (tenths w a) = w ++ (b'.' ∷ a ∷ [])
spelled (cents w a b) = w ++ (b'.' ∷ a ∷ b ∷ [])

-- The amount in cents.
unfoldable pub value_of : Notation → ℕ
value_of (whole w) = value_from 0 w * 100
value_of (tenths w a) = value_from 0 w * 100 + (a - b'0') * 10
value_of (cents w a b) = value_from 0 w * 100 + (a - b'0') * 10 + (b - b'0')

abbrev whole_part : Notation → Text
whole_part (whole w) = w
whole_part (tenths w a) = w
whole_part (cents w a b) = w

abbrev fraction_part : Notation → Text
fraction_part (whole w) = []
fraction_part (tenths w a) = a ∷ []
fraction_part (cents w a b) = a ∷ b ∷ []

-- All of the notation's characters are digits, and there is one in front of the point.
pub record IsWritten (n : Notation) : Type 0 where
  pub digits : all is_digit (whole_part n) ≡ true
  pub begun : 0 < length (whole_part n)
  pub fraction_digits : all is_digit (fraction_part n) ≡ true

split_and : (x y : Bool) → (x && y) ≡ true → (x ≡ true) × (y ≡ true)
split_and x y h = ground arith

equal_codes : (a b : ℕ) → (a == b) ≡ true → a ≡ b
equal_codes a b h = ground arith

both_digits :
    (a b : ℕ) → all is_digit (a ∷ b ∷ []) ≡ true → (is_digit a ≡ true) × (is_digit b ≡ true)
both_digits a b h = ground arith

one_digit : (a : ℕ) → all is_digit (a ∷ []) ≡ true → is_digit a ≡ true
one_digit a h = ground arith

-- Every notation fits the pattern.
written-pattern : (n : Notation) → IsWritten n → money_pattern (spelled n) ≡ true
unfolding spelled
written-pattern (whole w) h = pattern_whole w h.digits h.begun
written-pattern (tenths w a) h = pattern_tenths w a h.digits h.begun (one_digit a h.fraction_digits)
written-pattern (cents w a b) h =
    let (first, second) = both_digits a b h.fraction_digits in
    pattern_cents w a b h.digits h.begun first second

-- A digit in front of a notation.
put : ℕ → Notation → Notation
put c (whole w) = whole (c ∷ w)
put c (tenths w a) = tenths (c ∷ w) a
put c (cents w a b) = cents (c ∷ w) a b

spelled-put : (c : ℕ) (n : Notation) → spelled (put c n) ≡ c ∷ spelled n
unfolding spelled put
spelled-put c (whole w) = refl
spelled-put c (tenths w a) = refl
spelled-put c (cents w a b) = refl

-- What may follow a digit.
record Follows (s : Text) (n : Notation) : Type 0 where
  digits : all is_digit (whole_part n) ≡ true
  fraction_digits : all is_digit (fraction_part n) ≡ true
  text_eq : spelled n ≡ s

put-Follows :
    (c : ℕ) (s : Text) (n : Notation) → is_digit c ≡ true → Follows s n → Follows (c ∷ s) (put c n)
unfolding put
put-Follows c s (whole w) d h = record {
  digits = ground (arith, h.digits);
  fraction_digits = h.fraction_digits;
  text_eq = spelled-put c (whole w) ∙ ap (λ s. c ∷ s) h.text_eq;
}
put-Follows c s (tenths w a) d h = record {
  digits = ground (arith, h.digits);
  fraction_digits = h.fraction_digits;
  text_eq = spelled-put c (tenths w a) ∙ ap (λ s. c ∷ s) h.text_eq;
}
put-Follows c s (cents w a b) d h = record {
  digits = ground (arith, h.digits);
  fraction_digits = h.fraction_digits;
  text_eq = spelled-put c (cents w a b) ∙ ap (λ s. c ∷ s) h.text_eq;
}

put-begun : (c : ℕ) (n : Notation) → 0 < length (whole_part (put c n))
unfolding put
put-begun c (whole w) = ground arith
put-begun c (tenths w a) = ground arith
put-begun c (cents w a b) = ground arith

fraction_inv : (s : Text) → fraction s ≡ true → (n : Notation) × Follows (b'.' ∷ s) n
unfolding fraction
fraction_inv [] h = absurd cc
fraction_inv (a ∷ []) h = (
  tenths [] a,
  record { digits = refl; fraction_digits = ground (arith, h); text_eq = unfold spelled in refl },
)
fraction_inv (a ∷ b ∷ []) h = (
  cents [] a b,
  record { digits = refl; fraction_digits = ground (arith, h); text_eq = unfold spelled in refl },
)
fraction_inv (a ∷ b ∷ c ∷ s) h = absurd cc

after_digit_inv : (s : Text) → after_digit s ≡ true → (n : Notation) × Follows s n
unfolding after_digit
after_digit_inv [] h =
    (whole [], record { digits = refl; fraction_digits = refl; text_eq = unfold spelled in refl })
after_digit_inv (c ∷ s) h = elim (Bool-cases (is_digit c)) [
  | inl digit ↦
      let (n, follows) = after_digit_inv s (rw digit at h) in
      (put c n, put-Follows c s n digit follows)
  | inr other ↦
      let (point, rest) = split_and (c == b'.') (fraction s) (rw other at h) in
      let (n, follows) = fraction_inv s rest in
      (n, subst (λ c. Follows (c ∷ s) n) (sym (equal_codes c b'.' point)) follows)
]

-- Whatever fits the pattern is a notation.
pattern_inv : (s : Text) → money_pattern s ≡ true → (n : Notation) × IsWritten n × (spelled n ≡ s)
unfolding money_pattern
pattern_inv [] h = absurd cc
pattern_inv (c ∷ s) h =
    let (digit, rest) = split_and (is_digit c) (after_digit s) h in
    let (n, follows) = after_digit_inv s rest in
    let put_follows = put-Follows c s n digit follows in
    (
      put c n,
      record {
        digits = put_follows.digits;
        begun = put-begun c n;
        fraction_digits = put_follows.fraction_digits;
      },
      put_follows.text_eq,
    )

written-IsExact :
    (n : Notation) (currency : Text)
    → valid_currency currency ≡ true
    → IsWritten n
    → IsExact (new_money (spelled n) currency) (pos (value_of n)) currency
unfolding spelled value_of
written-IsExact (whole w) currency hc h = rw (new_money_whole w currency h.digits h.begun) (
    subst (λ v. IsExact (new_money (w ++ (b'.' ∷ b'0' ∷ b'0' ∷ [])) currency) (pos v) currency)
      (omega arith)
      (new_money_cents w b'0' b'0' currency hc h.digits h.begun zero_digit zero_digit))
written-IsExact (tenths w a) currency hc h =
    rw (new_money_tenths w a currency hc h.digits h.begun (one_digit a h.fraction_digits)) (
      subst (λ v. IsExact (new_money (w ++ (b'.' ∷ a ∷ b'0' ∷ [])) currency) (pos v) currency)
        (omega arith)
        (new_money_cents w a b'0' currency hc h.digits h.begun (one_digit a h.fraction_digits)
          zero_digit))
written-IsExact (cents w a b) currency hc h =
    let (first, second) = both_digits a b h.fraction_digits in
    subst (λ v. IsExact (new_money (w ++ (b'.' ∷ a ∷ b ∷ [])) currency) (pos v) currency)
      (omega arith) (new_money_cents w a b currency hc h.digits h.begun first second)

unfit : (s currency : Text) → money_pattern s ≡ false → new_money s currency ≡ fail invalid_money
unfolding new_money
unfit s currency h = ground (arith, h)

-- With a currency that is accepted, every text is the decimal notation of an amount, a whole number
-- or one with one digit of tenths or two digits of cents, or it is none. `NewMoney` gives just the
-- amount of a notation, or the overflow error just where it is no `int64`, and refuses the text as
-- no money where it is no notation.
pub new_money-IsExact :
    (s currency : Text)
    → valid_currency currency ≡ true
    → ((n : Notation) × IsWritten n
        × (spelled n ≡ s)
        × IsExact (new_money s currency) (pos (value_of n)) currency)
      ⊎ (((n : Notation) → IsWritten n → ¬ (spelled n ≡ s))
          × (new_money s currency ≡ fail invalid_money))
new_money-IsExact s currency hc = elim (Bool-cases (money_pattern s)) [
  | inl fits ↦
      let (n, written, same) = pattern_inv s fits in
      inl (
        n,
        written,
        same,
        subst (λ s. IsExact (new_money s currency) (pos (value_of n)) currency) same
            (written-IsExact n currency hc written),
      )
  | inr misfit ↦ inr (
    λ n written same. false-not_true (ap money_pattern same ∙ misfit) (written-pattern n written),
    unfit s currency misfit,
  )
]
