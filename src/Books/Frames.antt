-- ===== src/Books/Frames.antt =====
-- The operations that leave the books: those of the wagers, the inbox and the outbox
-- (internal/infrastructure/postgres), and the outcomes without a movement of `processWager`.
use backend_challenge.Base.{◌≡◌, Bool, false, arith}
use backend_challenge.Text.{Text}
use backend_challenge.Errors.{ok}
use backend_challenge.Domain.Wallet.{Uuid, Time}
use backend_challenge.Domain.Wager.{WagerTransaction}
use backend_challenge.Domain.Events.{IntegrationEvent}
use backend_challenge.Postgres.{
  Db, Runtime, insert_wager, set_wager, insert_event, insert_message, complete_message,
  create_wager, update_wager, create_event, register, complete, find_by_external_id,
  find_by_idempotency_key, has_successful_reversal,
}
use backend_challenge.Books.Logic.{if-Frames, books, Frames, >>=-Frames, lift-Frames, pure-Frames}
use backend_challenge.Books.Statements.{query-Frames, statement-Frames}

insert_wager-books :
    (t : WagerTransaction) (now : Time) (db : Db) (u : Unit {0}) (after : Db)
    → insert_wager t now db ≡ ok (u, after)
    → books after ≡ books db
unfolding insert_wager
insert_wager-books t now db u after h = ground arith

set_wager-books :
    (t : WagerTransaction) (now : Time) (db : Db) (u : Unit {0}) (after : Db)
    → set_wager t now db ≡ ok (u, after)
    → books after ≡ books db
unfolding set_wager
set_wager-books t now db u after h = ground arith

insert_event-books :
    (event : IntegrationEvent) (now : Time) (db : Db) (b : Bool) (after : Db)
    → insert_event event now db ≡ ok (b, after)
    → books after ≡ books db
unfolding insert_event
insert_event-books event now db b after h = ground arith

insert_message-books :
    (consumer id hash : Text) (now : Time) (db : Db) (b : Bool) (after : Db)
    → insert_message consumer id hash now db ≡ ok (b, after)
    → books after ≡ books db
unfolding insert_message
insert_message-books consumer id hash now db b after h = ground arith

complete_message-books :
    (consumer id : Text) (now : Time) (db : Db) (u : Unit {0}) (after : Db)
    → complete_message consumer id now db ≡ ok (u, after)
    → books after ≡ books db
unfolding complete_message
complete_message-books consumer id now db u after h = ground arith

module _ (rt : Runtime) where
  pub create_wager-Frames : (t : WagerTransaction) → Frames (create_wager rt t)
  unfolding create_wager
  create_wager-Frames t = statement-Frames rt _ (insert_wager-books t)

  pub update_wager-Frames : (t : WagerTransaction) → Frames (update_wager rt t)
  unfolding update_wager
  update_wager-Frames t = statement-Frames rt _ (set_wager-books t)

  pub complete-Frames : (consumer id : Text) → Frames (complete rt consumer id)
  unfolding complete
  complete-Frames consumer id = statement-Frames rt _ (complete_message-books consumer id)

  pub find_by_external_id-Frames :
      (provider id : Text) → Frames (find_by_external_id rt provider id)
  unfolding find_by_external_id
  find_by_external_id-Frames provider id = query-Frames rt _

  pub find_by_idempotency_key-Frames :
      (provider key : Text) → Frames (find_by_idempotency_key rt provider key)
  unfolding find_by_idempotency_key
  find_by_idempotency_key-Frames provider key = query-Frames rt _

  pub has_successful_reversal-Frames : (id : Uuid) → Frames (has_successful_reversal rt id)
  unfolding has_successful_reversal
  has_successful_reversal-Frames id = query-Frames rt _

  pub create_event-Frames : (event : IntegrationEvent) → Frames (create_event rt event)
  unfolding create_event
  create_event-Frames event = >>=-Frames _ _ (lift-Frames _) (λ checked.
      >>=-Frames _ _ (statement-Frames rt _ (insert_event-books event))
        (λ inserted. if-Frames inserted _ _ (pure-Frames tt) (query-Frames rt _)))

  pub register-Frames : (consumer id hash : Text) → Frames (register rt consumer id hash)
  unfolding register
  register-Frames consumer id hash =
      >>=-Frames _ _ (statement-Frames rt _ (insert_message-books consumer id hash))
        (λ inserted. if-Frames inserted _ _ (pure-Frames false) (query-Frames rt _))
