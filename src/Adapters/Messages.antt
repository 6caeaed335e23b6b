-- ===== src/Adapters/Messages.antt =====
-- `ParseWagerMessage` (internal/infrastructure/messaging/wager_message.go).
use backend_challenge.Base.{not, ◌||◌, Option, none, some, if◌then◌else◌}
use backend_challenge.Text.{Text, text, str_eq, valid_string, is_blank}
use backend_challenge.Errors.{Result, ok, err, fail, fail_if, ◌>>=◌, ◌>>◌, invalid_message}
use backend_challenge.Domain.Money
use backend_challenge.Domain.Money.{Money}
use backend_challenge.Domain.Wallet.{Uuid, Time, is_zero_time}
use backend_challenge.Domain.Wager.{WagerKind}
use backend_challenge.Application.{ProcessWagerInput}

pub record MessageData : Type 0 where
  pub provider_id : Text
  pub external_transaction_id : Text
  pub idempotency_key : Text
  pub player_id : Uuid
  pub wallet_id : Uuid
  pub round_id : Text
  pub game_id : Text
  pub kind : WagerKind
  pub amount : Text
  pub currency : Text
  pub reference_external_transaction_id : Option Text

pub record WagerMessage : Type 0 where
  pub message_id : Text
  pub message_type : Text
  pub occurred_at : Time
  pub correlation_id : Text
  pub event_data : MessageData

abbrev pub decoded : Option WagerMessage → Result WagerMessage
decoded none = fail invalid_message
decoded (some message) = ok message

abbrev pub as_invalid : Result Money → Result Money
as_invalid (ok money) = ok money
as_invalid (err e) = fail invalid_message

-- `decode` stands for the two calls of the decoder: the one document that the body holds, without
-- unknown fields, or nothing.
unfoldable pub parse_wager_message :
    (Text → Option WagerMessage) → Text → Result (WagerMessage × ProcessWagerInput)
parse_wager_message decode body = do
  fail_if (not (valid_string body)) invalid_message
  message ← decoded (decode body)
  fail_if
      (is_blank message.message_id
        || not (str_eq message.message_type (text "WagerTransactionRequested"))
        || is_zero_time message.occurred_at)
      invalid_message
  money ← as_invalid (Money.new_money message.event_data.amount message.event_data.currency)
  ok (
    message,
    record {
      provider_id = message.event_data.provider_id;
      external_transaction_id = message.event_data.external_transaction_id;
      idempotency_key = message.event_data.idempotency_key;
      player_id = message.event_data.player_id;
      wallet_id = message.event_data.wallet_id;
      round_id = message.event_data.round_id;
      game_id = message.event_data.game_id;
      kind = message.event_data.kind;
      money = money;
      reference_external_transaction_id = message.event_data.reference_external_transaction_id;
      correlation_id =
          if is_blank message.correlation_id then message.message_id else message.correlation_id;
      causation_id = message.message_id;
    },
  )
