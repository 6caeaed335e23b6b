-- ===== src/Application/Payload.antt =====
-- internal/application/wager_payload.go
use backend_challenge.Base.{Option}
use backend_challenge.Text.{Text}
use backend_challenge.Errors.{Result, ok, ◌>>◌}
use backend_challenge.Domain.Money
use backend_challenge.Domain.Money.{Money, to_string}
use backend_challenge.Domain.Wallet.{Uuid}
use backend_challenge.Domain.Wager.{WagerKind}
use backend_challenge.Postgres.{Runtime, HashPayload}

pub record ProcessWagerInput : Type 0 where
  pub provider_id : Text
  pub external_transaction_id : Text
  pub idempotency_key : Text
  pub player_id : Uuid
  pub wallet_id : Uuid
  pub round_id : Text
  pub game_id : Text
  pub kind : WagerKind
  pub money : Money
  pub reference_external_transaction_id : Option Text
  pub correlation_id : Text
  pub causation_id : Text

-- The anonymous structure that is encoded: the key and the tracing are no part of it.
unfoldable pub hash_payload : ProcessWagerInput → HashPayload
hash_payload input = record {
  external_transaction_id = input.external_transaction_id;
  game_id = input.game_id;
  kind = input.kind;
  amount = to_string input.money;
  currency = input.money.currency;
  player_id = input.player_id;
  provider_id = input.provider_id;
  reference_external_transaction_id = input.reference_external_transaction_id;
  round_id = input.round_id;
  wallet_id = input.wallet_id;
}

module _ (rt : Runtime) where
  -- `payloadHash`
  unfoldable pub payload_hash : ProcessWagerInput → Result Text
  payload_hash input = do Money.validate input.money; ok (rt.digest (hash_payload input))
