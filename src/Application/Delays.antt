-- ===== src/Application/Delays.antt =====
-- The policies of the retries and their delays, in nanoseconds: `ReferenceRetryPolicy`
-- (internal/application/retry_references.go), `OutboxPolicy`
-- (internal/application/publish_outbox.go) and `messageRetryDelay`
-- (internal/infrastructure/messaging/sqs_consumer.go).
pub mod Backoff
use backend_challenge.Base.{
  ℕ, suc, zero, ◌*◌, ◌/◌, ◌%◌, ◌-◌, ℤ, pos, negsuc, neg, ltb_ℤ, add64, Bool, ◌||◌, ltb,
  if◌then◌else◌,
}
use backend_challenge.Errors.{
  Result, ok, err, fail_if, other, invalid_retry_policy, invalid_outbox_policy,
}

pub record ReferenceRetryPolicy : Type 0 where
  pub max_attempts : ℕ
  pub initial_delay : ℤ
  pub max_delay : ℤ

pub record OutboxPolicy : Type 0 where
  pub lease_duration : ℤ
  pub initial_delay : ℤ
  pub max_delay : ℤ

-- One microsecond
abbrev microsecond : ℤ
microsecond = pos 1000

unfoldable pub validate_retry : ReferenceRetryPolicy → Result (Unit {0})
validate_retry policy =
    fail_if
      (ltb policy.max_attempts 1
        || ltb 1000 policy.max_attempts
        || ltb_ℤ policy.initial_delay microsecond
        || ltb_ℤ policy.max_delay policy.initial_delay)
      invalid_retry_policy

unfoldable pub validate_outbox : OutboxPolicy → Result (Unit {0})
validate_outbox p =
    fail_if
      (ltb_ℤ p.lease_duration microsecond
        || ltb_ℤ p.initial_delay microsecond
        || ltb_ℤ p.max_delay p.initial_delay)
      invalid_outbox_policy

-- `max / 2`, which rounds towards zero
unfoldable pub half : ℤ → ℤ
half (pos n) = pos (n / 2)
half (negsuc n) = neg (pos (suc n / 2))

-- The loop of `ReferenceRetryPolicy.delay`, for the given number of rounds.
unfoldable pub double_up : ℤ → ℕ → ℤ → ℤ
double_up max_delay zero delay = delay
double_up max_delay (suc rounds) delay =
    let rest = double_up max_delay rounds (add64 delay delay) in
    if ltb_ℤ (half max_delay) delay then max_delay else rest

-- `ReferenceRetryPolicy.delay`; the loop runs from 1 up to `attempt`.
unfoldable pub reference_delay : ReferenceRetryPolicy → ℕ → ℤ
reference_delay policy attempt = double_up policy.max_delay (attempt - 1) policy.initial_delay

-- The loop of `OutboxPolicy.delay`, which also stops at the limit.
unfoldable pub double_below : ℤ → ℕ → ℤ → ℤ
double_below max_delay zero delay = delay
double_below max_delay (suc rounds) delay =
    let rest = double_below max_delay rounds (add64 delay delay) in
    if ltb_ℤ delay max_delay
    then if ltb_ℤ (half max_delay) delay then max_delay else rest
    else delay

-- `OutboxPolicy.delay`
unfoldable pub outbox_delay : OutboxPolicy → ℕ → ℤ
outbox_delay p attempt = double_below p.max_delay (attempt - 1) p.initial_delay

-- `delay *= 2` on an `int32`, as its bits: no value that the loop reaches has the sign bit.
abbrev twice32 : ℕ → ℕ
twice32 delay = delay * 2 % 4294967296

-- The loop of `messageRetryDelay`, in seconds.
unfoldable pub double_to_minute : ℕ → ℕ → ℕ
double_to_minute zero delay = delay
double_to_minute (suc rounds) delay =
    let rest = double_to_minute rounds (twice32 delay) in if ltb delay 60 then rest else delay

-- `messageRetryDelay`
unfoldable pub message_retry_delay : ℕ → ℕ
message_retry_delay attempt =
    let delay = double_to_minute (attempt - 1) 1 in if ltb 60 delay then 60 else delay
