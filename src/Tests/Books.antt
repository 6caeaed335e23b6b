-- ===== src/Tests/Books.antt =====
-- The use cases on the concrete tables.
use backend_challenge.Base.{refl, arith}
use backend_challenge.Text.{text}
use backend_challenge.Application.{open_wallet, execute, execute_message}
use backend_challenge.Books.Logic.{books}
use backend_challenge.Books.Balance.{IsBalanced}
use backend_challenge.Books.Execute.{execute-IsBalanced, execute_message-IsBalanced}
use backend_challenge.Books.Opening.{open_wallet-IsBalanced}
use backend_challenge.Postgres.{first}
use backend_challenge.Tests.Scenario.{runtime, start, opening_input, opened, bet_input}

start-IsBalanced : IsBalanced (books start.db)
unfolding first backend_challenge.Application.ledger_sum
start-IsBalanced = record { backed = λ id row found. absurd cc; unowned = λ id missing. refl }

open_wallet-IsBalanced_example : IsBalanced (books opened.db)
open_wallet-IsBalanced_example =
    open_wallet-IsBalanced runtime opening_input start (omega arith, omega arith) start-IsBalanced

pub opened-IsBalanced : IsBalanced (books opened.db)
opened-IsBalanced =
    open_wallet-IsBalanced runtime opening_input start (omega arith, omega arith) start-IsBalanced

execute-IsBalanced_example : IsBalanced (books (execute runtime (text "p") bet_input opened).1.db)
execute-IsBalanced_example =
    execute-IsBalanced runtime (text "p") bet_input opened (omega arith, omega arith)
      opened-IsBalanced

execute_message-IsBalanced_example :
    IsBalanced
      (books (execute_message runtime (text "p") bet_input (text "m") (text "body") opened).1.db)
execute_message-IsBalanced_example =
    execute_message-IsBalanced runtime (text "p") bet_input (text "m") (text "body") opened
      (omega arith, omega arith) opened-IsBalanced
