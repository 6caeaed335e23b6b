-- ===== src/Workers/Turns.antt =====
-- The turns of the three workers (internal/infrastructure/workers).
use backend_challenge.Base.{ℕ, Bool, Option, none, some, List, if◌then◌else◌}
use backend_challenge.Text.{Text, text}
use backend_challenge.Errors.{Error, Result, ok, err}
use backend_challenge.Domain.Events.{event_metadata}
use backend_challenge.Domain.Wager.{status_text, is_pending_reference}
use backend_challenge.Domain.Wallet.{Time}
use backend_challenge.Postgres.{Runtime, PendingEvent, called}
use backend_challenge.Application.{
  Publication, publish_outbox, ReferenceRetryResult, retry_references,
}
use backend_challenge.Application.Delays.{OutboxPolicy, ReferenceRetryPolicy}
use backend_challenge.Observability.{
  observe_outbox_publish, observe_outbox_claim_failure, observe_processing_error,
  observe_message_retry, observe_wager_result,
}
use backend_challenge.Adapters.Messages.{WagerMessage}
use backend_challenge.Adapters.Machine.{
  Task, Broker, done, run, observe_by, time_now, time_since, is_cancelled, ◌>>=◌, ◌>>◌,
}
use backend_challenge.Adapters.Consumer.{Received, ProviderBySender, receive, handle}
use backend_challenge.Workers.Loop.{Turn, stopped, again, rested}

module _ (rt : Runtime) (broker : Broker) where
  unfoldable pub unless_cancelled : Task Turn → Task Turn
  unless_cancelled rest = do
    cancelled ← is_cancelled broker
    if cancelled then done stopped else rest

  -- `ObserveOutboxPublish`, which takes `time.Since(occurredAt)`
  unfoldable pub observe_publish : Text → PendingEvent → Task (Unit {0})
  observe_publish outcome pending = do
    since ← time_since rt (event_metadata pending.event).occurred_at
    observe_by (
        observe_outbox_publish outcome pending.attempts (event_metadata pending.event).occurred_at
          since)

  unfoldable pub published_turn : Publication → Task Turn
  unfolding observe_publish
  published_turn publication = elim publication.failure [
    | some e ↦ elim publication.event [
      | some pending ↦ observe_publish (text "retry") pending >> done rested
      | none ↦ observe_by observe_outbox_claim_failure >> done rested
    ]
    | none ↦ elim publication.event [
      | some pending ↦ observe_publish (text "published") pending >> done again
      | none ↦ done rested
    ]
  ]

  -- `PublishOutbox.Execute` returns its error in the publication.
  unfoldable pub publication_of : Result Publication → Publication
  publication_of (ok publication) = publication
  publication_of (err e) = record { event = none; failure = some e }

  -- A turn of the outbox's worker: `publish` is the publisher, and `is_over` whether the context of
  -- an attempt that starts with this call is over when the publisher returns.
  unfoldable pub outbox_turn : (PendingEvent → Option Error) → (ℕ → Bool) → OutboxPolicy → Task Turn
  unfolding unless_cancelled publication_of published_turn
  outbox_turn publish is_over policy m =
      (do
        result ← run (publish_outbox rt publish (is_over m.world.calls) policy)
        unless_cancelled (published_turn (publication_of result)))
        m

  -- What follows a retry of a waiting operation.
  unfoldable pub retried_turn : Time → Result (Option ReferenceRetryResult) → Task Turn
  retried_turn started (err e) = do
    elapsed ← time_since rt started
    observe_by (observe_processing_error e elapsed)
    observe_by (observe_message_retry (text "reference_error"))
    done rested
  retried_turn started (ok none) = done rested
  retried_turn started (ok (some result)) = do
    elapsed ← time_since rt started
    observe_by
        (observe_wager_result (status_text result.status) backend_challenge.Base.false elapsed)
    (if is_pending_reference result.status
        then observe_by (observe_message_retry (text "reference_pending"))
        else done tt)
    done again

  -- A turn of the references' worker.
  unfoldable pub reference_turn : ReferenceRetryPolicy → Task Turn
  unfolding unless_cancelled retried_turn
  reference_turn policy = do
    started ← time_now rt
    result ← run (retry_references rt policy)
    unless_cancelled (retried_turn started result)

  unfoldable pub handled_turn : Result (Unit {0}) → Task Turn
  handled_turn (ok x) = done again
  handled_turn (err e) = done rested

  -- `Handle` on a message that `Receive` has given.
  unfoldable pub received_turn :
      (Text → Option WagerMessage)
      → ProviderBySender
      → Result (Option Received)
      → Task (Result (Unit {0}))
  received_turn decode senders (err e) = done (err e)
  received_turn decode senders (ok none) = done (ok tt)
  received_turn decode senders (ok (some received)) = handle rt broker decode senders received

  -- A turn of the queue's worker; `fetch` is what the queue gives to this call.
  unfoldable pub wager_turn :
      (Text → Option WagerMessage) → ProviderBySender → (ℕ → Result (List Received)) → Task Turn
  unfolding unless_cancelled received_turn handled_turn
  wager_turn decode senders fetch m =
      (do
        treated ← received_turn decode senders (receive (fetch m.world.calls))
        unless_cancelled (handled_turn treated))
        (record m { world = called m.world })
