-- ===== src/Workers/Settings.antt =====
-- `NewOutboxConfig` and `NewReferenceConfig` (internal/infrastructure/workers/outbox_worker.go and
-- reference_worker.go).
use backend_challenge.Base.{ℤ, pos, pos_part, ltb_ℤ, not, ◌||◌, Option, none, some, if◌then◌else◌}
use backend_challenge.Adapters.Settings.{Environment}
use backend_challenge.Text.{Text, text, parse_int}
use backend_challenge.Errors.{Result, ok, err, other, ◌>>=◌, ◌>>◌}
use backend_challenge.Application.Delays.{
  OutboxPolicy, ReferenceRetryPolicy, validate_outbox, validate_retry,
}

pub record OutboxConfig : Type 0 where
  pub poll_interval : ℤ
  pub attempt_timeout : ℤ
  pub policy : OutboxPolicy

pub record ReferenceConfig : Type 0 where
  pub poll_interval : ℤ
  pub attempt_timeout : ℤ
  pub policy : ReferenceRetryPolicy

-- Durations in nanoseconds.
abbrev pub second : ℤ
second = pos 1000000000

abbrev pub seconds_5 : ℤ
seconds_5 = pos 5000000000

abbrev pub seconds_30 : ℤ
seconds_30 = pos 30000000000

abbrev pub minute : ℤ
minute = pos 60000000000

duration_of : Option ℤ → Result ℤ
duration_of none = err other
duration_of (some d) = if ltb_ℤ d (pos 1000) then err other else ok d

-- A round of the loop over the settings: the default, or a duration of at least a microsecond.
unfoldable pub duration_setting : Environment → Text → ℤ → Result ℤ
unfolding duration_of
duration_setting env name default = elim (env.lookup name) [
  | none ↦ ok default
  | some value ↦ duration_of (env.parse_duration value)
]

-- `OutboxConfig.validate`
unfoldable pub validate_outbox_config : OutboxConfig → Result (Unit {0})
validate_outbox_config c = do
  validate_outbox c.policy
  (if not (ltb_ℤ (pos 0) c.poll_interval)
        || not (ltb_ℤ (pos 0) c.attempt_timeout)
        || not (ltb_ℤ c.attempt_timeout c.policy.lease_duration)
      then err other
      else ok tt)

unfoldable pub checked_outbox : OutboxConfig → Result OutboxConfig
checked_outbox c = do validate_outbox_config c; ok c

-- `NewOutboxConfig`
unfoldable pub new_outbox_config : Environment → Result OutboxConfig
unfolding duration_setting checked_outbox
new_outbox_config env = do
  poll_interval ← duration_setting env (text "OUTBOX_POLL_INTERVAL") second
  attempt_timeout ← duration_setting env (text "OUTBOX_ATTEMPT_TIMEOUT") seconds_5
  lease_duration ← duration_setting env (text "OUTBOX_LEASE_DURATION") seconds_30
  initial_delay ← duration_setting env (text "OUTBOX_INITIAL_DELAY") second
  max_delay ← duration_setting env (text "OUTBOX_MAX_DELAY") minute
  checked_outbox (record {
    poll_interval = poll_interval;
    attempt_timeout = attempt_timeout;
    policy = record {
      lease_duration = lease_duration;
      initial_delay = initial_delay;
      max_delay = max_delay;
    };
  })

attempts_of : Option ℤ → Result ℤ
attempts_of none = err other
attempts_of (some n) = ok n

-- `REFERENCE_MAX_ATTEMPTS`; a negative number is below 1 as 0 is, so both are refused.
unfoldable pub attempts_setting : Environment → Result ℤ
unfolding attempts_of
attempts_setting env = elim (env.lookup (text "REFERENCE_MAX_ATTEMPTS")) [
  | none ↦ ok (pos 10)
  | some value ↦ attempts_of (parse_int value)
]

unfoldable pub checked_reference : ReferenceConfig → Result ReferenceConfig
checked_reference c = do validate_retry c.policy; ok c

-- `NewReferenceConfig`
unfoldable pub new_reference_config : Environment → Result ReferenceConfig
unfolding duration_setting attempts_setting checked_reference
new_reference_config env = do
  poll_interval ← duration_setting env (text "REFERENCE_POLL_INTERVAL") second
  attempt_timeout ← duration_setting env (text "REFERENCE_ATTEMPT_TIMEOUT") seconds_5
  initial_delay ← duration_setting env (text "REFERENCE_INITIAL_DELAY") second
  max_delay ← duration_setting env (text "REFERENCE_MAX_DELAY") minute
  max_attempts ← attempts_setting env
  checked_reference (record {
    poll_interval = poll_interval;
    attempt_timeout = attempt_timeout;
    policy = record {
      max_attempts = pos_part max_attempts;
      initial_delay = initial_delay;
      max_delay = max_delay;
    };
  })

-- The check of `RegisterReferenceWorker`.
unfoldable pub register_reference_worker : ReferenceConfig → Result (Unit {0})
register_reference_worker c = do
  validate_retry c.policy
  (if not (ltb_ℤ (pos 0) c.poll_interval) || not (ltb_ℤ (pos 0) c.attempt_timeout)
      then err other
      else ok tt)
