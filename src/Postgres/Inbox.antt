-- ===== src/Postgres/Inbox.antt =====
-- internal/infrastructure/postgres/inbox_repository.go
use backend_challenge.Base.{Bool, true, false, ◌&&◌, none, some, ◌∷◌, if◌then◌else◌}
use backend_challenge.Text.{Text, str_eq}
use backend_challenge.Errors.{Result, ok, fail, inbox_conflict, inbox_incomplete}
use backend_challenge.Domain.Wallet.{Time}
use backend_challenge.Postgres.Tables.{Db, InboxRow, first, update_first}
use backend_challenge.Postgres.UnitOfWork.{Runtime, Action, statement, query, pure, ◌>>=◌}

-- `WHERE consumer_name=$1 AND message_id=$2`, the primary key
unfoldable pub is_message : Text → Text → InboxRow → Bool
is_message consumer_name message_id row =
    str_eq row.consumer_name consumer_name && str_eq row.message_id message_id

-- `INSERT … ON CONFLICT DO NOTHING`: whether a row was inserted.
unfoldable pub insert_message : Text → Text → Text → Time → Db → Result (Bool × Db)
insert_message consumer_name message_id payload_hash now db =
    elim (first (is_message consumer_name message_id) db.inbox) [
      | some row ↦ ok (false, db)
      | none ↦ ok (
        true,
        record db {
          inbox =
              record {
                consumer_name = consumer_name;
                message_id = message_id;
                payload_hash = payload_hash;
                completed = false;
              }
              ∷ db.inbox;
        },
      )
    ]

-- The checks on the row that is there: true for the same message, completed.
unfoldable pub message_state : Text → Text → Text → Time → Db → Result Bool
message_state consumer_name message_id payload_hash now db =
    elim (first (is_message consumer_name message_id) db.inbox) [
      | none ↦ backend_challenge.Errors.err backend_challenge.Errors.other
      | some row ↦
          if str_eq row.payload_hash payload_hash
          then if row.completed then ok true else fail inbox_incomplete
          else fail inbox_conflict
    ]

set_completed : InboxRow → InboxRow
set_completed row = record row { completed = true }

unfoldable pub complete_message : Text → Text → Time → Db → Result (Unit {0} × Db)
unfolding set_completed
complete_message consumer_name message_id now db =
    elim (first (is_message consumer_name message_id) db.inbox) [
      | none ↦ fail inbox_incomplete
      | some row ↦ ok (
        tt,
        record db {
          inbox = update_first (is_message consumer_name message_id) set_completed db.inbox;
        },
      )
    ]

module _ (rt : Runtime) where
  -- True only for an equal message that was completed before.
  unfoldable pub register : Text → Text → Text → Action Bool
  register consumer_name message_id payload_hash = do
    inserted ← statement rt (insert_message consumer_name message_id payload_hash)
    if inserted then pure false else query rt (message_state consumer_name message_id payload_hash)

  unfoldable pub complete : Text → Text → Action (Unit {0})
  complete consumer_name message_id = statement rt (complete_message consumer_name message_id)
