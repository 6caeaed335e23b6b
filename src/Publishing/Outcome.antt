-- ===== src/Publishing/Outcome.antt =====
-- What an execution of `PublishOutbox` makes of the event that it reserves
-- (internal/application/publish_outbox.go and
-- internal/infrastructure/postgres/outbox_publisher_repository.go).
use backend_challenge.Base.{
  ℕ, ◌+◌, ◌≡◌, refl, Bool, true, false, Option, none, some, ℤ, ltb, min, arith, if◌then◌else◌,
}
use backend_challenge.Errors.{Result, Error, ok}
use backend_challenge.Domain.Wallet.{Uuid, Time}
use backend_challenge.Postgres.{
  Db, World, Runtime, OutboxRow, PendingEvent, first, update_first, earliest, publish_key,
  claim_event, claim_outbox, mark_published, retry_event, is_claimable, is_reserved, same_event_id,
  event_id, reserve, published, postponed, later, statement, Action, fresh_id, called, set_reserved,
}
use backend_challenge.Application.{Publication, publish_outbox, valid_policy, claimed, sent}
use backend_challenge.Application.Delays.{OutboxPolicy, validate_outbox, outbox_delay}
use backend_challenge.Books.Balance.{first-update}
use backend_challenge.Publishing.Rows.{earliest-holds}
use backend_challenge.Publishing.Reservation.{set_reserved-first}

-- The row after the publisher's answer at the time `now`, for a reservation with a token until a
-- time: published, or due after the delay, or still reserved at a shutdown.
unfoldable pub ended :
    OutboxPolicy → Time → Uuid → Time → Bool → OutboxRow → Option Error → OutboxRow
ended policy now token until cancelled row none = record {
  event = row.event;
  attempts = min (row.attempts + 1) 2147483647;
  next_attempt_at = row.next_attempt_at;
  published_at = some now;
  locked_until = none;
  lock_token = none;
}
ended policy now token until cancelled row (some e) =
    if cancelled
    then record {
      event = row.event;
      attempts = min (row.attempts + 1) 2147483647;
      next_attempt_at = row.next_attempt_at;
      published_at = row.published_at;
      locked_until = some until;
      lock_token = some token;
    }
    else record {
      event = row.event;
      attempts = min (row.attempts + 1) 2147483647;
      next_attempt_at = later now (outbox_delay policy (min (row.attempts + 1) 2147483647));
      published_at = row.published_at;
      locked_until = none;
      lock_token = none;
    }

-- A reservation of a row by `Claim` in a world.
module _ (rt : Runtime) (policy : OutboxPolicy) (w : World) (row : OutboxRow) where
  abbrev until : Time
  until = later (rt.now (w.calls + 1)) policy.lease_duration

  abbrev pub reserved_event : PendingEvent
  reserved_event = record {
    event = row.event;
    attempts = min (row.attempts + 1) 2147483647;
    lock_token = rt.new_id w.calls;
  }

  abbrev reserved_db : Db
  reserved_db = record (w.db) {
    outbox =
        update_first (same_event_id (event_id row.event)) (reserve (rt.new_id w.calls) until)
          w.db.outbox;
  }

  abbrev reserved_world : World
  reserved_world = record { db = reserved_db; calls = w.calls + 1 + 1 }

  -- What is reported, and what becomes of the row.
  abbrev pub IsEnded : (PendingEvent → Option Error) → Bool → Result Publication × World → Type 0
  IsEnded publish cancelled done =
      (done.0 ≡ ok (record { event = some reserved_event; failure = publish reserved_event }))
      × (first (same_event_id (event_id row.event)) done.1.db.outbox
          ≡ some (
              ended policy (rt.now (w.calls + 1 + 1)) (rt.new_id w.calls) until cancelled row
                (publish reserved_event)))

module _ (rt : Runtime) (no_faults : (n : ℕ) → rt.fault n ≡ none) where
  -- A statement that succeeds.
  stated :
      {A : Type 0} (step : Time → Db → Result (A × Db)) (w : World) (a : A) (db : Db)
      → step (rt.now w.calls) w.db ≡ ok (a, db)
      → statement rt step w ≡ (ok a, record { db = db; calls = w.calls + 1 })
  unfolding statement
  stated step w a db done = rw (no_faults w.calls, statement, done) refl

  module _ (policy : OutboxPolicy) (w : World) (row : OutboxRow)
      (found : earliest publish_key (is_claimable (rt.now (w.calls + 1))) w.db.outbox ≡ some row)
      (only : first (same_event_id (event_id row.event)) w.db.outbox ≡ some row)
      (running : ltb (rt.now (w.calls + 1 + 1)) (until rt policy w row) ≡ true) where
    claimed_lem :
        claim_outbox rt policy.lease_duration w
        ≡ (ok (some (reserved_event rt policy w row)), reserved_world rt policy w row)
    unfolding claim_outbox fresh_id claim_event reserve
    claimed_lem =
        stated (claim_event (rt.new_id w.calls) policy.lease_duration) (called w)
          (some (reserved_event rt policy w row)) (reserved_db rt policy w row)
          (rw (found, claim_event) refl)

    abbrev reserved_row : OutboxRow
    reserved_row = reserve (rt.new_id w.calls) (until rt policy w row) row

    row_found :
        first (same_event_id (event_id row.event)) (reserved_db rt policy w row).outbox
        ≡ some reserved_row
    unfolding reserve same_event_id
    row_found =
        first-update (same_event_id (event_id row.event)) (same_event_id (event_id row.event))
          (reserve (rt.new_id w.calls) (until rt policy w row)) (λ y e. refl) w.db.outbox row
          (λ y e. e) only (ground arith)

    row_reserved :
        is_reserved (event_id row.event) (rt.new_id w.calls) (rt.now (w.calls + 1 + 1)) reserved_row
        ≡ true
    unfolding is_reserved reserve is_claimable
    row_reserved = ground (
      arith,
      earliest-holds publish_key (is_claimable (rt.now (w.calls + 1))) w.db.outbox row found,
      running,
    )

    -- The end of the reservation.
    abbrev ended_world : (Time → OutboxRow → OutboxRow) → World
    ended_world change = record {
      db = record (w.db) {
        outbox =
            update_first
              (is_reserved (event_id row.event) (rt.new_id w.calls) (rt.now (w.calls + 1 + 1)))
              (change (rt.now (w.calls + 1 + 1))) (reserved_db rt policy w row).outbox;
      };
      calls = w.calls + 1 + 1 + 1;
    }

    IsEndedBy : Action (Unit {0}) → (Time → OutboxRow → OutboxRow) → Type 0
    IsEndedBy end change =
        (end (reserved_world rt policy w row) ≡ (ok tt, ended_world change))
        × (first (same_event_id (event_id row.event)) (ended_world change).db.outbox
            ≡ some (change (rt.now (w.calls + 1 + 1)) reserved_row))

    ended_by :
        (change : Time → OutboxRow → OutboxRow)
        → ((y : OutboxRow)
            → same_event_id (event_id row.event) (change (rt.now (w.calls + 1 + 1)) y)
              ≡ same_event_id (event_id row.event) y)
        → IsEndedBy
            (statement rt
              (λ now db. set_reserved (event_id row.event) (rt.new_id w.calls) (change now) now db))
            change
    unfolding IsEndedBy
    ended_by change kept =
        let (done, changed) =
          set_reserved-first (event_id row.event) (rt.new_id w.calls) (rt.now (w.calls + 1 + 1))
            (change (rt.now (w.calls + 1 + 1))) (reserved_db rt policy w row) reserved_row kept
            row_found row_reserved in
        (
          stated
              (λ now db. set_reserved (event_id row.event) (rt.new_id w.calls) (change now) now db)
              (reserved_world rt policy w row) tt (ended_world change).db done,
          changed,
        )

    marked : IsEndedBy (mark_published rt (reserved_event rt policy w row)) published
    unfolding mark_published published same_event_id
    marked = ended_by published (λ y. refl)

    retried :
        (delay : ℤ)
        → IsEndedBy
            (retry_event rt (reserved_event rt policy w row) delay)
            (λ now row. postponed (later now delay) row)
    unfolding retry_event postponed same_event_id
    retried delay = ended_by (λ now row. postponed (later now delay) row) (λ y. refl)

    sent_outcome :
        (publish : PendingEvent → Option Error) (cancelled : Bool) (o : Option Error)
        → let done =
            sent rt publish cancelled policy
              (reserved_event rt policy w row)
              o
              (reserved_world rt policy w row) in
          (done.0 ≡ ok (record { event = some (reserved_event rt policy w row); failure = o }))
          × (first (same_event_id (event_id row.event)) done.1.db.outbox
              ≡ some (
                  ended policy
                    (rt.now (w.calls + 1 + 1))
                    (rt.new_id w.calls)
                    (until rt policy w row)
                    cancelled
                    row
                    o))
    unfolding sent ended reserve published postponed IsEndedBy
    sent_outcome publish cancelled none = let (done, changed) = marked in rw done (refl, changed)
    sent_outcome publish true (some e) = (refl, row_found)
    sent_outcome publish false (some e) =
        let (done, changed) = retried (outbox_delay policy (min (row.attempts + 1) 2147483647)) in
        rw done (refl, changed)

-- `PublishOutbox` with a valid policy, where no statement fails, the first row that is due is the
-- row of its event, as the primary key of the outbox has it, and the reservation still runs when
-- the publisher has answered. It hands the event with its new count of attempts to the publisher
-- and reports the publisher's error. The row is then published now, where the publisher has accepted
-- the event; where it has not, the row is free and due after the policy's delay, or still reserved
-- where the context is cancelled.
pub publish_outbox_outcome :
    (rt : Runtime) (publish : PendingEvent → Option Error) (cancelled : Bool)
    (policy : OutboxPolicy) (w : World) (row : OutboxRow)
    → ((n : ℕ) → rt.fault n ≡ none)
    → validate_outbox policy ≡ ok tt
    → earliest publish_key (is_claimable (rt.now (w.calls + 1))) w.db.outbox ≡ some row
    → first (same_event_id (event_id row.event)) w.db.outbox ≡ some row
    → ltb (rt.now (w.calls + 1 + 1)) (later (rt.now (w.calls + 1)) policy.lease_duration) ≡ true
    → IsEnded rt policy w row publish cancelled (publish_outbox rt publish cancelled policy w)
unfolding publish_outbox valid_policy claimed
publish_outbox_outcome rt publish cancelled policy w row no_faults valid found only running =
    rw (valid, claimed_lem rt no_faults policy w row found only running)
      (sent_outcome rt no_faults policy w row found only running publish cancelled
        (publish (reserved_event rt policy w row)))
