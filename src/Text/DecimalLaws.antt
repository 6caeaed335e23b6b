-- ===== src/Text/DecimalLaws.antt =====
-- Printing a number and reading it back.
use native.Mathlib.Nat.{pow-suc}
use backend_challenge.Base.{
  ℕ, zero, suc, ◌+◌, ◌-◌, ◌*◌, ◌/◌, ◌%◌, ◌^◌, ◌≤◌, ◌<◌, ◌≡◌, refl, ◌∙◌, true, none, some, [], ◌∷◌,
  ◌++◌, arith, ltb, all, Bool-cases, inl, inr, length, length-append, lt→ltb, ℤ, pos, two63,
}
use backend_challenge.Text.Bytes.{Text}
use backend_challenge.Text.Decimal.{
  is_digit, value_from, parse_digits, parse_int, digits, int64_digits, print_int,
}

pub value_from-append :
    (acc : ℕ) (s t : Text) → value_from acc (s ++ t) ≡ value_from (value_from acc s) t
unfolding value_from
value_from-append acc [] t = refl
value_from-append acc (c ∷ s) t = value_from-append (acc * 10 + (c - b'0')) s t

pub all-is_digit-append :
    (s t : Text) → all is_digit s ≡ true → all is_digit t ≡ true → all is_digit (s ++ t) ≡ true
all-is_digit-append [] t h k = k
all-is_digit-append (c ∷ s) t h k = ground (arith, all-is_digit-append s t)

pub is_digit-add : (d : ℕ) → d < 10 → is_digit (b'0' + d) ≡ true
unfolding is_digit
is_digit-add d h = ground arith

pub all-is_digit-digits : (fuel n : ℕ) → all is_digit (digits fuel n) ≡ true
unfolding digits
all-is_digit-digits zero n = refl
all-is_digit-digits (suc fuel) n = elim (Bool-cases (ltb n 10)) [
  | inl small ↦ rw small (ground (arith, is_digit-add n))
  | inr large ↦ rw large (
      all-is_digit-append (digits fuel (n / 10)) _ (all-is_digit-digits fuel (n / 10))
        (ground (arith, is_digit-add (n % 10))))
]

tenth-lt : (n p : ℕ) → n < p * 10 → n / 10 < p
tenth-lt n p h = omega arith

pub value_from-digits : (fuel n : ℕ) → n < 10 ^ fuel → value_from 0 (digits fuel n) ≡ n
unfolding digits
value_from-digits zero n h = unfold value_from in omega arith
value_from-digits (suc fuel) n h = elim (Bool-cases (ltb n 10)) [
  | inl small ↦ rw small (unfold value_from in omega arith)
  | inr large ↦ rw large (
      rw
        (
          value_from-append 0 (digits fuel (n / 10)),
          value_from-digits fuel (n / 10) (tenth-lt n _ (rw pow-suc at h)),
        )
        (unfold value_from in omega arith))
]

pub length-digits-pos : (fuel n : ℕ) → 0 < length (digits (suc fuel) n)
unfolding digits
length-digits-pos fuel n = elim (Bool-cases (ltb n 10)) [
  | inl small ↦ rw small (omega arith)
  | inr large ↦ rw (large, length-append) (omega arith)
]

pub parse_digits-eq :
    (s : Text) → all is_digit s ≡ true → 0 < length s → parse_digits s ≡ some (value_from 0 s)
unfolding parse_digits
parse_digits-eq [] d h = absurd (omega arith)
parse_digits-eq (c ∷ s) d h = rw d

first-is_digit : (c : ℕ) (s : Text) → all is_digit (c ∷ s) ≡ true → (b'0' ≤ c) × (c ≤ b'9')
unfolding is_digit
first-is_digit c s d = ground arith

-- A string of digits below 2 ^ 63 is read as the number that it denotes.
pub parse_int-eq :
    (s : Text)
    → all is_digit s ≡ true
    → 0 < length s
    → value_from 0 s < two63
    → parse_int s ≡ some (pos (value_from 0 s))
unfolding parse_int
parse_int-eq [] d h r = absurd (omega arith)
parse_int-eq (c ∷ s) d h r =
    ground (arith, first-is_digit c s d, parse_digits-eq (c ∷ s) d h, lt→ltb _ _ r)

-- A string of digits that denotes 2 ^ 63 or more is out of range.
pub parse_int-ge : (s : Text) → all is_digit s ≡ true → two63 ≤ value_from 0 s → parse_int s ≡ none
unfolding parse_int
parse_int-ge [] d h = refl
parse_int-ge (c ∷ s) d h =
    ground (arith, first-is_digit c s d, parse_digits-eq (c ∷ s) d (omega arith))

-- What is read from a string of digits is the number that it denotes, and it fits.
pub parse_int_inv :
    (s : Text) (a : ℤ)
    → all is_digit s ≡ true
    → parse_int s ≡ some a
    → (a ≡ pos (value_from 0 s)) × (value_from 0 s < two63)
unfolding parse_int
parse_int_inv [] a d e = ground arith
parse_int_inv (c ∷ s) a d e =
    ground (arith, first-is_digit c s d, parse_digits-eq (c ∷ s) d (omega arith))

-- `strconv.ParseInt` reads back the decimal digits of every `int64` that is not negative.
pub parse_int-print_int : (n : ℕ) → n < two63 → parse_int (print_int (pos n)) ≡ some (pos n)
unfolding print_int
parse_int-print_int n h =
    let e = value_from-digits int64_digits n (omega arith) in
    parse_int-eq (digits int64_digits n) (all-is_digit-digits int64_digits n)
      (length-digits-pos 19 n) (rw e h)
    ∙ rw e
