-- ===== src/Tests/Scenario.antt =====
-- A runtime without faults, an empty database, a wallet of 12.50 BRL and a bet of 2.50 BRL on it.
use backend_challenge.Base.{ℕ, ◌+◌, pos, true, false, none, some, [], ◌∷◌, ◌++◌}
use backend_challenge.Text.{Text, text}
use backend_challenge.Domain.Money.{Money}
use backend_challenge.Domain.Wallet.{Wallet}
use backend_challenge.Domain.Wager.{WagerTransaction, bet, refund, pending, processed}
use backend_challenge.Postgres.{WagerRow, Runtime, World, Db}
use backend_challenge.Application.{ProcessWagerInput, OpenWalletInput, open_wallet, execute}

abbrev pub brl : Text
brl = text "BRL"

abbrev pub money : ℕ → Money
money amount = record { amount = pos amount; currency = brl }

abbrev pub runtime : Runtime
runtime = record {
  new_id = λ n. n + 100;
  now = λ n. n + 1;
  fault = λ n. none;
  lost_reply = λ n. false;
  opening_id = λ id. id + 1000;
  uuid_text = λ id. text "trace";
  digest = λ payload. text "sha" ++ payload.amount ++ payload.external_transaction_id;
  body_digest = λ body. body;
  same_json = λ a b. true;
}

abbrev pub empty_db : Db
empty_db = record { wallets = []; wagers = []; ledger = []; inbox = []; outbox = [] }

abbrev pub start : World
start = record { db = empty_db; calls = 0 }

abbrev pub opening_input : OpenWalletInput
opening_input = record { player_id = 7; initial_balance = money 1250; correlation_id = text "c" }

abbrev pub opened : World
opened = (open_wallet runtime opening_input start).1

-- The identifier of the wallet is the one that call 2 gives.
abbrev pub bet_input : ProcessWagerInput
bet_input = record {
  provider_id = text "p";
  external_transaction_id = text "e1";
  idempotency_key = text "k1";
  player_id = 7;
  wallet_id = 102;
  round_id = text "r";
  game_id = text "g";
  kind = bet;
  money = money 250;
  reference_external_transaction_id = none;
  correlation_id = text "c";
  causation_id = text "";
}

abbrev pub played : World
played = (execute runtime (text "p") bet_input opened).1

-- The operation of the bet before and after its settlement, and a refund of it.
abbrev pub pending_bet : WagerTransaction
pending_bet = record {
  id = 5;
  external_transaction_id = text "e1";
  provider_id = text "p";
  idempotency_key = text "k1";
  payload_hash = text "sha2.50e1";
  wallet_id = 102;
  player_id = 7;
  round_id = text "r";
  game_id = text "g";
  kind = bet;
  money = money 250;
  reference_external_transaction_id = none;
  reference_transaction_id = none;
  status = pending;
  failure_code = none;
  result_balance = none;
  created_at = 3;
  updated_at = 3;
}

abbrev pub processed_bet : WagerTransaction
processed_bet = record pending_bet {
  status = processed;
  result_balance = some (money 1000);
  updated_at = 4;
}

abbrev pub pending_refund : WagerTransaction
pending_refund = record pending_bet {
  id = 6;
  external_transaction_id = text "e2";
  idempotency_key = text "k2";
  kind = refund;
  reference_external_transaction_id = some (text "e1");
}

abbrev pub bet_row : WagerRow
bet_row = record { columns = processed_bet; reference_attempts = 0; next_reference_attempt_at = 3 }

abbrev pub bet_stored : World
bet_stored = record { db = record empty_db { wagers = bet_row ∷ [] }; calls = 0 }

abbrev pub wallet : Wallet
wallet = record {
  id = 102;
  player_id = 7;
  balance = money 1250;
  version = 1;
  created_at = 2;
  updated_at = 2;
}
