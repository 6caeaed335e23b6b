-- ===== src/Postgres/Publisher.antt =====
-- The reservations of the outbox (internal/infrastructure/postgres/outbox_publisher_repository.go).
use backend_challenge.Base.{
  ℕ, ◌+◌, Bool, true, false, ◌&&◌, Option, none, some, ◌==◌, leb, ltb, min, ℤ,
}
use backend_challenge.Errors.{Result, ok, fail, outbox_lease_lost}
use backend_challenge.Domain.Wallet.{Uuid, Time}
use backend_challenge.Domain.Events.{IntegrationEvent, event_metadata}
use backend_challenge.Postgres.Tables.{Db, OutboxRow, first, update_first}
use backend_challenge.Postgres.UnitOfWork.{Runtime, Action, statement, fresh_id, ◌>>=◌}
use backend_challenge.Postgres.References.{later, earliest}

-- The columns that `Claim` returns: those of the envelope are read from the event.
pub record PendingEvent : Type 0 where
  pub event : IntegrationEvent
  pub attempts : ℕ
  pub lock_token : Uuid

abbrev pub event_id : IntegrationEvent → Uuid
event_id event = (event_metadata event).event_id

abbrev absent {ℓ} : {A : Type ℓ} → Option A → Bool
absent none = true
absent (some a) = false

abbrev expired : Time → Option Time → Bool
expired now none = true
expired now (some until) = leb until now

-- `published_at IS NULL AND next_attempt_at<=clock_timestamp() AND (locked_until IS NULL OR
-- locked_until<=clock_timestamp())`
unfoldable pub is_claimable : Time → OutboxRow → Bool
is_claimable now row =
    absent row.published_at && leb row.next_attempt_at now && expired now row.locked_until

pub publish_key : OutboxRow → ℕ × ℕ
publish_key row = (row.next_attempt_at, event_id row.event)

-- The columns that `Claim` sets; `LEAST(attempts+1,2147483647)`.
unfoldable pub reserve : Uuid → Time → OutboxRow → OutboxRow
reserve token until row = record row {
  lock_token = some token;
  locked_until = some until;
  attempts = min (row.attempts + 1) 2147483647;
}

unfoldable pub same_event_id : Uuid → OutboxRow → Bool
same_event_id id row = event_id row.event == id

unfoldable pub claim_event : Uuid → ℤ → Time → Db → Result (Option PendingEvent × Db)
unfolding publish_key earliest
claim_event token lease now db = elim (earliest publish_key (is_claimable now) db.outbox) [
  | none ↦ ok (none, db)
  | some row ↦ ok (
    some (record {
      event = row.event;
      attempts = (reserve token (later now lease) row).attempts;
      lock_token = token;
    }),
    record db {
      outbox =
          update_first (same_event_id (event_id row.event)) (reserve token (later now lease))
            db.outbox;
    },
  )
]

abbrev holds_token : Uuid → Option Uuid → Bool
holds_token token none = false
holds_token token (some held) = held == token

abbrev locked_after : Time → Option Time → Bool
locked_after now none = false
locked_after now (some until) = ltb now until

-- `event_id=$1 AND lock_token=$2 AND published_at IS NULL AND locked_until>clock_timestamp()`
unfoldable pub is_reserved : Uuid → Uuid → Time → OutboxRow → Bool
is_reserved id token now row =
    event_id row.event == id
    && holds_token token row.lock_token
    && absent row.published_at
    && locked_after now row.locked_until

-- An update of the reserved row, or `ErrOutboxLeaseLost` where there is none.
unfoldable pub set_reserved :
    Uuid → Uuid → (OutboxRow → OutboxRow) → Time → Db → Result (Unit {0} × Db)
set_reserved id token change now db = elim (first (is_reserved id token now) db.outbox) [
  | none ↦ fail outbox_lease_lost
  | some row ↦
      ok (tt, record db { outbox = update_first (is_reserved id token now) change db.outbox })
]

unfoldable pub published : Time → OutboxRow → OutboxRow
published now row = record row { published_at = some now; locked_until = none; lock_token = none }

unfoldable pub postponed : Time → OutboxRow → OutboxRow
postponed next row = record row { next_attempt_at = next; locked_until = none; lock_token = none }

module _ (rt : Runtime) where
  -- `Claim`
  unfoldable pub claim_outbox : ℤ → Action (Option PendingEvent)
  claim_outbox lease = do token ← fresh_id rt; statement rt (claim_event token lease)

  -- `MarkPublished`
  unfoldable pub mark_published : PendingEvent → Action (Unit {0})
  mark_published event =
      statement rt
        (λ now db. set_reserved (event_id event.event) event.lock_token (published now) now db)

  -- `Retry`
  unfoldable pub retry_event : PendingEvent → ℤ → Action (Unit {0})
  retry_event event delay = statement rt (λ now db.
      set_reserved (event_id event.event) event.lock_token (postponed (later now delay)) now db)
