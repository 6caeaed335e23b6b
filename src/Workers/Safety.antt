-- ===== src/Workers/Safety.antt =====
-- What the workers' settings guarantee (internal/infrastructure/workers).
use backend_challenge.Base.{
  subst, ap, sym, ◌∙◌, ◌<ℤ◌, ◌≤ℤ◌, ℤ, ◌⊎◌, inl, inr, none, some, Option-cases, Bool-cases, arith,
  ◌↔◌, ◌≡◌, pos, ltb_ℤ, refl,
}
use backend_challenge.Errors.{err_not_ok, ok_inj, then-eq-ok, >>=-eq-ok, ok}
use backend_challenge.Workers.Settings.{
  minute, seconds_30, seconds_5, second, duration_setting, checked_outbox, new_outbox_config,
  validate_outbox_config, OutboxConfig,
}
use backend_challenge.Application.Delays.{validate_outbox}
use backend_challenge.Adapters.Settings.{Environment}
use backend_challenge.Text.{Text, text}

-- The settings of the outbox's worker that make it safe, in nanoseconds: it waits between its
-- turns, its attempts end before their reservation does, and its delays grow from a microsecond up
-- to a limit.
pub record IsSafe (c : OutboxConfig) : Type 0 where
  pub polls : pos 0 <ℤ c.poll_interval
  pub times_out : pos 0 <ℤ c.attempt_timeout
  pub leased : c.attempt_timeout <ℤ c.policy.lease_duration
  pub reserves : pos 1000 ≤ℤ c.policy.lease_duration
  pub delays : pos 1000 ≤ℤ c.policy.initial_delay
  pub limits : c.policy.initial_delay ≤ℤ c.policy.max_delay

check_inv : (c : OutboxConfig) → validate_outbox_config c ≡ ok tt → IsSafe c
unfolding validate_outbox_config validate_outbox
check_inv c h = ground (arith, h)

check_lem : (c : OutboxConfig) → IsSafe c → validate_outbox_config c ≡ ok tt
unfolding validate_outbox_config validate_outbox
check_lem c h = ground (arith, h.polls, h.times_out, h.leased, h.reserves, h.delays, h.limits)

-- A duration that the environment sets: its variable is absent and it is the default, or the
-- variable's text is a duration, it is that duration, and that is at least a microsecond.
unfoldable pub IsEnvDuration : Environment → Text → ℤ → ℤ → Type 0
IsEnvDuration env name default d =
    ((env.lookup name ≡ none) × (d ≡ default))
    ⊎ ((value : Text) × (env.lookup name ≡ some value)
        × (env.parse_duration value ≡ some d)
        × (pos 1000 ≤ℤ d))

duration_setting-IsEnvDuration :
    (env : Environment) (name : Text) (default d : ℤ)
    → duration_setting env name default ≡ ok d
    → IsEnvDuration env name default d
unfolding IsEnvDuration duration_setting
duration_setting-IsEnvDuration env name default d h = elim (Option-cases (env.lookup name)) [
  | inl absent ↦ inl (absent, sym (ok_inj (rw (absent, duration_setting) at h)))
  | inr (value, given) ↦ elim (Option-cases (env.parse_duration value)) [
    | inl bad ↦ absurd (err_not_ok (rw (given, bad, duration_setting) at h))
    | inr (parsed, read) ↦ elim (Bool-cases (ltb_ℤ parsed (pos 1000))) [
      | inl short ↦ absurd (err_not_ok (rw (given, read, short, duration_setting) at h))
      | inr long ↦
          let same = ok_inj (rw (given, read, long, duration_setting) at h) in
          inr (value, given, read ∙ ap some same, subst (λ d. pos 1000 ≤ℤ d) same (ground arith))
    ]
  ]
]

IsEnvDuration-duration_setting :
    (env : Environment) (name : Text) (default d : ℤ)
    → IsEnvDuration env name default d
    → duration_setting env name default ≡ ok d
unfolding IsEnvDuration duration_setting
IsEnvDuration-duration_setting env name default d (inl (absent, same)) =
    rw (absent, same, duration_setting) refl
IsEnvDuration-duration_setting env name default d (inr (value, given, read, long)) =
    rw (given, read, duration_setting) (ground (arith, long))

-- The fields that the environment gives, or the defaults: 1 s, 5 s, 30 s, 1 s and 60 s.
pub record IsGiven (env : Environment) (c : OutboxConfig) : Type 0 where
  pub poll : IsEnvDuration env (text "OUTBOX_POLL_INTERVAL") (pos 1000000000) c.poll_interval
  pub timeout : IsEnvDuration env (text "OUTBOX_ATTEMPT_TIMEOUT") (pos 5000000000) c.attempt_timeout
  pub lease :
      IsEnvDuration env (text "OUTBOX_LEASE_DURATION") (pos 30000000000) c.policy.lease_duration
  pub initial :
      IsEnvDuration env (text "OUTBOX_INITIAL_DELAY") (pos 1000000000) c.policy.initial_delay
  pub max : IsEnvDuration env (text "OUTBOX_MAX_DELAY") (pos 60000000000) c.policy.max_delay

config_inv :
    (env : Environment) (c : OutboxConfig) → new_outbox_config env ≡ ok c → IsGiven env c × IsSafe c
unfolding new_outbox_config checked_outbox
config_inv env c h =
    let (poll, poll_h, h1) =
      >>=-eq-ok (duration_setting env (text "OUTBOX_POLL_INTERVAL") second) _ h in
    let (timeout, timeout_h, h2) =
      >>=-eq-ok (duration_setting env (text "OUTBOX_ATTEMPT_TIMEOUT") seconds_5) _ h1 in
    let (lease, lease_h, h3) =
      >>=-eq-ok (duration_setting env (text "OUTBOX_LEASE_DURATION") seconds_30) _ h2 in
    let (initial, initial_h, h4) =
      >>=-eq-ok (duration_setting env (text "OUTBOX_INITIAL_DELAY") second) _ h3 in
    let (max, max_h, h5) = >>=-eq-ok (duration_setting env (text "OUTBOX_MAX_DELAY") minute) _ h4 in
    let (valid, done) = then-eq-ok (validate_outbox_config _) _ h5 in
    subst (λ c. IsGiven env c × IsSafe c) (ok_inj done)
      (
        record {
          poll = duration_setting-IsEnvDuration env (text "OUTBOX_POLL_INTERVAL") second _ poll_h;
          timeout =
              duration_setting-IsEnvDuration env (text "OUTBOX_ATTEMPT_TIMEOUT") seconds_5 _
                timeout_h;
          lease =
              duration_setting-IsEnvDuration env (text "OUTBOX_LEASE_DURATION") seconds_30 _
                lease_h;
          initial =
              duration_setting-IsEnvDuration env (text "OUTBOX_INITIAL_DELAY") second _ initial_h;
          max = duration_setting-IsEnvDuration env (text "OUTBOX_MAX_DELAY") minute _ max_h;
        },
        check_inv _ valid,
      )

config_lem :
    (env : Environment) (c : OutboxConfig) → IsGiven env c → IsSafe c → new_outbox_config env ≡ ok c
unfolding new_outbox_config checked_outbox
config_lem env c given safe =
    rw
      (
        IsEnvDuration-duration_setting env (text "OUTBOX_POLL_INTERVAL") second c.poll_interval
            given.poll,
        IsEnvDuration-duration_setting env (text "OUTBOX_ATTEMPT_TIMEOUT") seconds_5
            c.attempt_timeout given.timeout,
        IsEnvDuration-duration_setting env (text "OUTBOX_LEASE_DURATION") seconds_30
            c.policy.lease_duration given.lease,
        IsEnvDuration-duration_setting env (text "OUTBOX_INITIAL_DELAY") second
            c.policy.initial_delay given.initial,
        IsEnvDuration-duration_setting env (text "OUTBOX_MAX_DELAY") minute c.policy.max_delay
            given.max,
        check_lem c safe,
      )
      refl

-- The outbox's worker gets a configuration just where each of its five durations is that of its
-- variable in the environment, of a microsecond at least, or the default where the variable is
-- absent, and where it is safe: it polls and times out after positive intervals, an attempt ends
-- before its reservation does, and the first delay and the lease are at least a microsecond, the
-- first delay at most the greatest one.
pub new_outbox_config_iff :
    (env : Environment) (c : OutboxConfig)
    → (new_outbox_config env ≡ ok c) ↔ (IsGiven env c × IsSafe c)
new_outbox_config_iff env c = (config_inv env c, λ (given, safe). config_lem env c given safe)
