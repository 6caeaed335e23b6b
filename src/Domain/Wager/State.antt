-- ===== src/Domain/Wager/State.antt =====
-- Rehydration and the opening of a wallet (wager_transaction_state.go).
use backend_challenge.Base.{ℕ, Bool, true, false, not, ◌||◌, none, some, ◌==◌}
use backend_challenge.Errors.{Result, ok, fail_if, ◌>>◌, invalid_wallet}
use backend_challenge.Domain.Money
use backend_challenge.Domain.Wallet.{Uuid, Time, Wallet, is_nil}
use backend_challenge.Domain.Wager.Data.{WagerTransaction, opening, pending}
use backend_challenge.Domain.Wager.Rules.{validate}
use backend_challenge.Domain.Wager.Steps.{mark_processed}

-- `RehydrateWagerTransaction`; the copies that it makes of pointers are the values themselves.
unfoldable pub rehydrate_wager_transaction : WagerTransaction → Result WagerTransaction
rehydrate_wager_transaction state = do validate state; ok state

-- The transaction that `NewOpeningTransaction` starts from; the id is the value of `uuid.NewSHA1`.
abbrev pub opening_of : Uuid → Wallet → WagerTransaction
opening_of id wallet = record {
  id = id;
  external_transaction_id = backend_challenge.Base.[];
  provider_id = backend_challenge.Base.[];
  idempotency_key = backend_challenge.Base.[];
  payload_hash = backend_challenge.Base.[];
  wallet_id = wallet.id;
  player_id = wallet.player_id;
  round_id = backend_challenge.Base.[];
  game_id = backend_challenge.Base.[];
  kind = opening;
  money = wallet.balance;
  reference_external_transaction_id = none;
  reference_transaction_id = none;
  status = pending;
  failure_code = none;
  result_balance = none;
  created_at = wallet.created_at;
  updated_at = wallet.created_at;
}

unfoldable pub new_opening_transaction : Time → Uuid → Wallet → Result WagerTransaction
new_opening_transaction now id wallet = do
  fail_if (is_nil wallet.id || is_nil wallet.player_id) invalid_wallet
  fail_if (not (wallet.version == 1) || not (Money.is_positive wallet.balance)) invalid_wallet
  mark_processed now (opening_of id wallet) wallet.balance
