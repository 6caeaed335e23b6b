-- ===== src/Tests/Replay.antt =====
-- A second delivery of the stored bet, and a unit of work.
use backend_challenge.Base.{[], ◌∷◌, true, ◌≡◌, refl, ◌⊎◌}
use backend_challenge.Text.{text, str_eq, is_blank, runes, is_empty}
use backend_challenge.Errors.{Error, ok, err}
use backend_challenge.Domain.Money
use backend_challenge.Domain.Wallet.{Wallet}
use backend_challenge.Domain.Wager.{
  rehydrate_wager_transaction, validate, validate_wager_money, validate_origin, validate_resolved,
  validate_result_balance, validate_status, known_kind, needs_reference,
}
use backend_challenge.Postgres.{
  InboxRow, Runtime, World, first, has_key, sql_eq, scan_wager, within_transaction, called,
  find_wallet,
}
use backend_challenge.Application.{wager_consumer_name, hash_payload, execute, wager_result}
use backend_challenge.Books.Statements.{within_transaction-cases}
use backend_challenge.Replay.Reads.{IsAnswered}
use backend_challenge.Replay.Stored.{IsStored, HonestFaults, stored_answer}
use backend_challenge.Replay.Execute.{execute-IsAnswered}
use backend_challenge.Tests.Scenario.{runtime, bet_input, bet_stored, bet_row, processed_bet}

honest : HonestFaults runtime
honest n e h = absurd cc

is_stored : IsStored bet_input processed_bet bet_stored.db
unfolding first has_key sql_eq str_eq scan_wager Money.money_from_minor_units Money.valid_currency
    rehydrate_wager_transaction validate validate_wager_money validate_origin validate_resolved
    validate_result_balance validate_status known_kind is_blank needs_reference Money.is_positive
    Money.validate backend_challenge.Postgres.stored_balance
is_stored = record { row = bet_row; found = refl; scanned = refl }

execute-IsAnswered_example :
    IsAnswered
      (stored_answer runtime bet_input processed_bet)
      bet_stored.db
      (execute runtime (text "p") bet_input bet_stored)
execute-IsAnswered_example =
    execute-IsAnswered runtime (text "p") bet_input processed_bet bet_stored honest is_stored

-- The answer is the replay.
answer_is_replay :
    stored_answer runtime bet_input processed_bet ≡ ok (wager_result processed_bet true)
unfolding stored_answer hash_payload str_eq Money.to_string Money.quot_100 Money.rem_100
    backend_challenge.Text.digits backend_challenge.Text.print_int backend_challenge.Text.print_02
    wager_result
answer_is_replay = refl

-- The lookup of a wallet as a unit of work.
within_transaction-cases_example :
    let work = find_wallet runtime 102 in
    let done = within_transaction runtime work bet_stored in
    let worked = work (called bet_stored) in
    ((a : Wallet) × (worked.0 ≡ ok a) × (done.0 ≡ ok a) × (done.1.db ≡ worked.1.db))
    ⊎ ((e : Error) × (done.0 ≡ err e)
        × ((done.1.db ≡ bet_stored.db)
            ⊎ ((a : Wallet) × (worked.0 ≡ ok a) × (done.1.db ≡ worked.1.db))))
within_transaction-cases_example =
    within_transaction-cases runtime (find_wallet runtime 102) bet_stored

-- The message of the bet in the inbox, completed.
abbrev message_row : InboxRow
message_row = record {
  consumer_name = wager_consumer_name;
  message_id = text "m1";
  payload_hash = text "bet";
  completed = true;
}

abbrev delivered : World
delivered = record bet_stored { db = record (bet_stored.db) { inbox = message_row ∷ [] } }
