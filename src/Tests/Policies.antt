-- ===== src/Tests/Policies.antt =====
-- The delays of the default policies, and the answers to a wrapped error.
use backend_challenge.Base.{◌⊎◌, ◌≡◌, refl, ◌<◌, arith, true, pos, suc, false}
use backend_challenge.Errors.{
  wallet_not_found, Error, joined, sentinel, network, invalid_money, is_error,
}
use backend_challenge.Application.Delays.{reference_delay, outbox_delay}
use backend_challenge.Application.Delays.Backoff.{
  capped, reference_delay-capped, outbox_delay-capped,
}
use backend_challenge.Adapters.Responses.{
  unknown_to_client, retried_errors, error_response, permanent_message_error, is_any,
  client_error-permanent,
}

reference_delay-capped_example :
    reference_delay
      (record { max_attempts = 10; initial_delay = pos 1000000000; max_delay = pos 60000000000 })
      (suc 6)
    ≡ pos (capped 60000000000 6 1000000000)
reference_delay-capped_example =
    reference_delay-capped 10 1000000000 60000000000 6 (omega arith) (omega arith)

outbox_delay-capped_example :
    outbox_delay
      (record {
        lease_duration = pos 30000000000;
        initial_delay = pos 1000000000;
        max_delay = pos 60000000000;
      })
      (suc 3)
    ≡ pos (capped 60000000000 3 1000000000)
outbox_delay-capped_example =
    outbox_delay-capped (pos 30000000000) 1000000000 60000000000 3 (omega arith) (omega arith)

eight_seconds : capped 60 3 1 ≡ 8
unfolding capped
eight_seconds = refl

-- An invalid amount, wrapped with a network error.
abbrev wrapped : Error
wrapped = joined network (sentinel invalid_money)

is_not_retried : is_any retried_errors wrapped ≡ false
unfolding is_any is_error
is_not_retried = refl

client_error-permanent_example :
    ((error_response wrapped).0 < 500 → permanent_message_error wrapped ≡ true)
    × (permanent_message_error wrapped ≡ true
        → ((error_response wrapped).0 < 500) ⊎ (is_any unknown_to_client wrapped ≡ true))
client_error-permanent_example = client_error-permanent wrapped is_not_retried

-- A missing wallet is answered with 404, and the queue retries it.
missing_wallet_run :
    ((error_response (sentinel wallet_not_found)).0 ≡ 404)
    × (permanent_message_error (sentinel wallet_not_found) ≡ false)
unfolding error_response permanent_message_error is_any is_error
missing_wallet_run = (refl, refl)
