-- ===== src/Application/Publish.antt =====
-- `PublishOutbox.Execute` (internal/application/publish_outbox.go).
use backend_challenge.Base.{Bool, Option, none, some, if◌then◌else◌}
use backend_challenge.Errors.{Error, Result, ok, err, joined}
use backend_challenge.Postgres.{
  Runtime, Action, pure, ◌>>=◌, PendingEvent, claim_outbox, mark_published, retry_event,
}
use backend_challenge.Application.Process.{attempt}
use backend_challenge.Application.Delays.{OutboxPolicy, validate_outbox, outbox_delay}

-- The event and the error that `Execute` returns, either of which may be nil.
pub record Publication : Type 0 where
  pub event : Option PendingEvent
  pub failure : Option Error

abbrev failure_of : Result (Unit {0}) → Option Error
failure_of (ok done) = none
failure_of (err e) = some e

-- `errors.Join(err, retryErr)`
abbrev join : Error → Result (Unit {0}) → Error
join e (ok done) = e
join e (err retry) = joined e retry

-- `publish` stands for the publisher, which returns an error or nothing, and `cancelled` for
-- `ctx.Err() != nil` after it.
module _ (rt : Runtime) (publish : PendingEvent → Option Error) (cancelled : Bool) where
  unfoldable pub sent : OutboxPolicy → PendingEvent → Option Error → Action Publication
  sent policy event none = do
    marked ← attempt (mark_published rt event)
    pure (record { event = some event; failure = failure_of marked })
  sent policy event (some e) =
      if cancelled then pure (record { event = some event; failure = some e }) else (do
        postponed ← attempt (retry_event rt event (outbox_delay policy event.attempts))
        pure (record { event = some event; failure = some (join e postponed) }))

  unfoldable pub claimed : OutboxPolicy → Result (Option PendingEvent) → Action Publication
  unfolding sent
  claimed policy (err e) = pure (record { event = none; failure = some e })
  claimed policy (ok none) = pure (record { event = none; failure = none })
  claimed policy (ok (some event)) = sent policy event (publish event)

  unfoldable pub valid_policy : OutboxPolicy → Result (Unit {0}) → Action Publication
  unfolding claimed
  valid_policy policy (err e) = pure (record { event = none; failure = some e })
  valid_policy policy (ok checked) = do
    event ← attempt (claim_outbox rt policy.lease_duration)
    claimed policy event

  -- `Execute`: the reservation, the call of the publisher and the end of the reservation are
  -- statements of their own, outside any transaction.
  unfoldable pub publish_outbox : OutboxPolicy → Action Publication
  unfolding valid_policy
  publish_outbox policy = valid_policy policy (validate_outbox policy)
