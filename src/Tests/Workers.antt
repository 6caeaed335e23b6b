-- ===== src/Tests/Workers.antt =====
-- The workers on the tables of an opened wallet, and the settings of an empty environment.
use backend_challenge.Base.{
  suc, false, leb, pos, none, some, [], ◌∷◌, ◌≡◌, true, ◌↔◌, arith, Option,
}
use backend_challenge.Adapters.Settings.{Environment}
use backend_challenge.Text.{text}
use backend_challenge.Errors.{ok, Error, network}
use backend_challenge.Domain.Wager.{pending_reference}
use backend_challenge.Tests.Wagers.{opened_db, opened_db-IsBalanced}
use backend_challenge.Tests.Outbox.{due_row}
use backend_challenge.Tests.Scenario.{bet_row, pending_refund}
use backend_challenge.Books.Claims.{FitColumns}
use backend_challenge.Postgres.{WagerRow, Db, PendingEvent}
use backend_challenge.Application.Delays.{ReferenceRetryPolicy}
use backend_challenge.Adapters.Machine.{Broker, Machine}
use backend_challenge.Workers.{
  OutboxConfig, new_outbox_config, work, outbox_turn, reference_turn, wager_turn,
}
use backend_challenge.Workers.Safety.{IsGiven, IsSafe, new_outbox_config_iff}
use backend_challenge.Workers.Balance.{wager_worker-IsBalanced, reference_worker-IsBalanced}
use backend_challenge.Workers.Ending.{IsCancelledFrom, outbox_worker-ends}
use backend_challenge.Tests.Scenario.{bet_row, runtime}
use backend_challenge.Tests.Outbox.{outbox_policy}
use backend_challenge.Tests.Consumer.{decode, senders, received, machine}
use backend_challenge.Books.Logic.{books}
use backend_challenge.Books.Balance.{IsBalanced}
use backend_challenge.Tests.Books.{opened-IsBalanced}
use backend_challenge.Books.Claims.{FitColumns}

-- The context is cancelled from call 9 on.
abbrev stopping : Broker
stopping = record { fault = λ n. none; is_cancelled = λ n. leb 9 n }

stopping_lem : IsCancelledFrom stopping 9
unfolding IsCancelledFrom
stopping_lem n h = ground arith

abbrev unreachable : PendingEvent → Option Error
unreachable pending = some network

abbrev retry_policy : ReferenceRetryPolicy
retry_policy = record {
  max_attempts = 10;
  initial_delay = pos 1000000000;
  max_delay = pos 60000000000;
}

abbrev empty_environment : Environment
empty_environment = record {
  lookup = λ name. none;
  parse_duration = λ value. none;
  parse_url = λ value. none;
  splits = λ value. true;
  decode_senders = λ value. none;
}

abbrev default_config : OutboxConfig
default_config = record {
  poll_interval = pos 1000000000;
  attempt_timeout = pos 5000000000;
  policy = outbox_policy;
}

new_outbox_config_iff_example :
    (new_outbox_config empty_environment ≡ ok default_config)
    ↔ (IsGiven empty_environment default_config × IsSafe default_config)
new_outbox_config_iff_example = new_outbox_config_iff empty_environment default_config

outbox_worker-ends_example :
    (work stopping
      (outbox_turn runtime stopping unreachable (λ n. false) outbox_policy)
      (suc 9)
      machine).0
    ≡ true
outbox_worker-ends_example =
    outbox_worker-ends runtime stopping unreachable (λ n. false) outbox_policy 9 stopping_lem 9
      machine (omega arith)

wager_worker-IsBalanced_example : IsBalanced (
    books
      (work stopping
        (wager_turn runtime stopping decode senders (λ n. ok (received (text "bet") ∷ [])))
        2
        machine).1.world.db)
wager_worker-IsBalanced_example =
    wager_worker-IsBalanced runtime stopping decode senders (λ n. ok (received (text "bet") ∷ [])) 2
      machine opened-IsBalanced

-- The opened wallet, the refund that waits for its bet, and the event that announced it.
abbrev waiting_row : WagerRow
waiting_row = record bet_row { columns = record pending_refund { status = pending_reference } }

abbrev waiting_db : Db
waiting_db = record opened_db { wagers = waiting_row ∷ []; outbox = due_row ∷ [] }

abbrev waiting_machine : Machine
waiting_machine = record machine { world = record { db = waiting_db; calls = 0 } }

stored_fit : FitColumns waiting_db.wagers
unfolding FitColumns
stored_fit = ((omega arith, omega arith), tt)

reference_worker-IsBalanced_example :
    IsBalanced (
      books
        (work stopping (reference_turn runtime stopping retry_policy) 3 waiting_machine).1.world.db)
    × FitColumns
        (work stopping
          (reference_turn runtime stopping retry_policy)
          3
          waiting_machine).1.world.db.wagers
reference_worker-IsBalanced_example =
    reference_worker-IsBalanced runtime stopping retry_policy 3 waiting_machine opened_db-IsBalanced
      stored_fit
