-- ===== src/Domain/Money/Tests.antt =====
-- Money at concrete inputs.
use backend_challenge.Base.{◌≡◌, refl, pos, negsuc, ltb}
use backend_challenge.Text.{text, str_eq, split, is_digit, parse_int, print_int, print_02}
use backend_challenge.Errors.{ok}
use backend_challenge.Domain.Money.{new_money, to_string}

new_money_cents :
    new_money (text "12.5") (text "BRL") ≡ ok (record { amount = pos 1250; currency = text "BRL" })
unfolding new_money str_eq split is_digit parse_int backend_challenge.Base.sub64
    backend_challenge.Base.add64 backend_challenge.Base.wrap64 backend_challenge.Base.◌-ℤ◌
    backend_challenge.Base.◌+ℤ◌ backend_challenge.Domain.Money.quot_100
new_money_cents = refl

to_string_negative :
    to_string (record { amount = negsuc 1234; currency = text "BRL" }) ≡ text "-12.35"
unfolding to_string backend_challenge.Text.digits print_int print_02 backend_challenge.Base.neg
    backend_challenge.Base.neg64 backend_challenge.Base.wrap64
to_string_negative = refl
