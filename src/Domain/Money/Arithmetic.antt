-- ===== src/Domain/Money/Arithmetic.antt =====
-- Addition, subtraction and negation of money (money.go) are exact, or refused: the guards in
-- front of the machine arithmetic decide just whether the exact result is an `int64`.
use backend_challenge.Base.{
  ◌≡◌, refl, ◌⊎◌, inl, inr, Bool, true, false, ◌&&◌, ◌||◌, arith, ℤ, pos, ◌+ℤ◌, ◌-ℤ◌, neg, ltb_ℤ,
  eqb_ℤ, +ℤ_parts, -ℤ_parts, neg_parts, IsInt64, max_int64, min_int64, add64, sub64, neg64,
  add64-eq, sub64-eq, neg64-eq,
}
use backend_challenge.Text.{Text, str_eq}
use backend_challenge.Errors.{Result, ok, fail, fail_if, ◌>>◌, money_overflow}
use backend_challenge.Domain.Money.{Money, IsValid, validate, compatible, add, sub, negate}

-- The exact amount if it is an `int64`, and the overflow error if it is not.
abbrev pub IsExact : Result Money → ℤ → Text → Type 0
IsExact r total currency =
    (IsInt64 total × (r ≡ ok (record { amount = total; currency = currency })))
    ⊎ ((¬ IsInt64 total) × (r ≡ fail money_overflow))

module _ (a b : ℤ) (ha : IsInt64 a) (hb : IsInt64 b) where
  add_high : (ltb_ℤ (pos 0) b && ltb_ℤ (sub64 max_int64 b) a) ≡ ltb_ℤ max_int64 (a +ℤ b)
  add_high = ground (arith, +ℤ_parts a b, -ℤ_parts max_int64 b, sub64-eq max_int64 b)

  add_low : (ltb_ℤ b (pos 0) && ltb_ℤ a (sub64 min_int64 b)) ≡ ltb_ℤ (a +ℤ b) min_int64
  add_low = ground (arith, +ℤ_parts a b, -ℤ_parts min_int64 b, sub64-eq min_int64 b)

  sub_low : (ltb_ℤ (pos 0) b && ltb_ℤ a (add64 min_int64 b)) ≡ ltb_ℤ (a -ℤ b) min_int64
  sub_low = ground (arith, -ℤ_parts a b, +ℤ_parts min_int64 b, add64-eq min_int64 b)

  sub_high : (ltb_ℤ b (pos 0) && ltb_ℤ (add64 max_int64 b) a) ≡ ltb_ℤ max_int64 (a -ℤ b)
  sub_high = ground (arith, -ℤ_parts a b, +ℤ_parts max_int64 b, add64-eq max_int64 b)

pub compatible_ok :
    (m other : Money)
    → IsValid m
    → IsValid other
    → str_eq m.currency other.currency ≡ true
    → compatible m other ≡ ok tt
unfolding compatible validate
compatible_ok m other hm ho e = ground (arith, hm.accepted, ho.accepted)

-- Two guards that together hold just where the exact result does not fit.
guarded-IsExact :
    (total wrapped : ℤ) (currency : Text) (a b : Bool)
    → (IsInt64 total → wrapped ≡ total)
    → ((a || b) ≡ false → IsInt64 total)
    → ((a || b) ≡ true → ¬ IsInt64 total)
    → IsExact
        (fail_if a money_overflow
          >> (fail_if b money_overflow >> ok (record { amount = wrapped; currency = currency })))
        total
        currency
guarded-IsExact total wrapped currency true b exact fits out = inr (out refl, refl)
guarded-IsExact total wrapped currency false true exact fits out = inr (out refl, refl)
guarded-IsExact total wrapped currency false false exact fits out =
    let range = fits refl in rw (exact range) (inl (range, refl))

-- For two valid amounts of one currency, `Add` gives the exact sum, or the overflow error just
-- where the sum is no `int64`.
pub add-IsExact :
    (m other : Money)
    → IsValid m
    → IsValid other
    → str_eq m.currency other.currency ≡ true
    → IsExact (add m other) (m.amount +ℤ other.amount) m.currency
unfolding add
add-IsExact m other hm ho e =
    rw (compatible_ok m other hm ho e, add_high m.amount other.amount hm.in_range ho.in_range)
      (rw (add_low m.amount other.amount hm.in_range ho.in_range) (
        guarded-IsExact (m.amount +ℤ other.amount) _ m.currency _ _ (add64-eq m.amount other.amount)
          (λ h. ground arith) (λ h. ground arith)))

-- For two valid amounts of one currency, `Sub` gives the exact difference, or the overflow error
-- just where the difference is no `int64`.
pub sub-IsExact :
    (m other : Money)
    → IsValid m
    → IsValid other
    → str_eq m.currency other.currency ≡ true
    → IsExact (sub m other) (m.amount -ℤ other.amount) m.currency
unfolding sub
sub-IsExact m other hm ho e =
    rw (compatible_ok m other hm ho e, sub_low m.amount other.amount hm.in_range ho.in_range)
      (rw (sub_high m.amount other.amount hm.in_range ho.in_range) (
        guarded-IsExact (m.amount -ℤ other.amount) _ m.currency _ _ (sub64-eq m.amount other.amount)
          (λ h. ground arith) (λ h. ground arith)))

-- `Negate` gives the exact opposite of every valid amount but the least `int64`, and refuses that.
pub negate-IsExact : (m : Money) → IsValid m → IsExact (negate m) (neg m.amount) m.currency
unfolding negate validate
negate-IsExact m hm = rw hm.accepted (
    guarded-IsExact (neg m.amount) (neg64 m.amount) m.currency false (eqb_ℤ m.amount min_int64)
      (neg64-eq m.amount) (λ h. ground (arith, neg_parts m.amount))
      (λ h. ground (arith, neg_parts m.amount)))
