-- ===== src/Postgres/Outbox.antt =====
-- internal/infrastructure/postgres/outbox_repository.go
use backend_challenge.Base.{Bool, true, false, ◌||◌, none, some, ◌∷◌, ◌==◌, if◌then◌else◌}
use backend_challenge.Errors.{Result, ok, fail, fail_if, invalid_event, outbox_conflict}
use backend_challenge.Errors
use backend_challenge.Domain.Wallet.{Uuid, Time, is_nil, is_zero_time}
use backend_challenge.Domain.Events.{IntegrationEvent, event_metadata}
use backend_challenge.Postgres.Tables.{Db, OutboxRow, first}
use backend_challenge.Postgres.UnitOfWork.{
  Runtime, Action, statement, query, pure, lift, ◌>>=◌, ◌>>◌,
}

unfoldable pub has_event_id : Uuid → OutboxRow → Bool
has_event_id id row = (event_metadata row.event).event_id == id

-- `MarshalJSON` and the checks on the envelope that is read back.
unfoldable pub check_envelope : IntegrationEvent → Result (Unit {0})
check_envelope event =
    fail_if
      (is_nil (event_metadata event).event_id
        || is_nil (event_metadata event).aggregate_id
        || is_zero_time (event_metadata event).occurred_at)
      invalid_event

-- `INSERT … ON CONFLICT (event_id) DO NOTHING`: whether a row was inserted.
unfoldable pub insert_event : IntegrationEvent → Time → Db → Result (Bool × Db)
unfolding has_event_id
insert_event event now db = elim (first (has_event_id (event_metadata event).event_id) db.outbox) [
  | some row ↦ ok (false, db)
  | none ↦ ok (
    true,
    record db {
      outbox =
          record {
            event = event;
            attempts = 0;
            next_attempt_at = now;
            published_at = none;
            locked_until = none;
            lock_token = none;
          }
          ∷ db.outbox;
    },
  )
]

module _ (rt : Runtime) where
  -- `payload=$2::jsonb` on the row that is there.
  same_event : IntegrationEvent → Time → Db → Result (Unit {0})
  unfolding has_event_id
  same_event event now db = elim (first (has_event_id (event_metadata event).event_id) db.outbox) [
    | none ↦ Errors.err Errors.other
    | some row ↦ if rt.same_json row.event event then ok tt else fail outbox_conflict
  ]

  -- `Create`
  unfoldable pub create_event : IntegrationEvent → Action (Unit {0})
  unfolding same_event
  create_event event = do
    lift (check_envelope event)
    inserted ← statement rt (insert_event event)
    if inserted then pure tt else query rt (same_event event)
