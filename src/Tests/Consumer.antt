-- ===== src/Tests/Consumer.antt =====
-- A bet that arrives by the queue, and a body that is no message.
use backend_challenge.Tests.Scenario.{brl, opened}
use backend_challenge.Errors.{provider_not_authorized, invalid_message, err, sentinel}
use backend_challenge.Domain.Wager.{bet}
use backend_challenge.Base.{
  ◌⊎◌, inl, ◌↔◌, true, [], some, ◌≡◌, ◌∷◌, if◌then◌else◌, false, Option, none, refl,
}
use backend_challenge.Adapters.Consumer.{Received, ProviderBySender, handle}
use backend_challenge.Adapters.Consumer.Requests.{
  handle-acknowledged, treatment, IsProcessed, Reports, has_delete,
}
use backend_challenge.Adapters.Machine.{change_visibility, Machine, Broker}
use backend_challenge.Text.{valid_string, str_eq, text, Text}
use backend_challenge.Adapters.Messages.{WagerMessage, parse_wager_message}
use backend_challenge.Observability.{new_metrics}
use backend_challenge.Tests.Scenario.{runtime}
use backend_challenge.Application.{WagerResult}
use backend_challenge.Adapters.Consumer.Refusals.{IsLasting, handle-refused}

abbrev broker : Broker
broker = record { fault = λ n. none; is_cancelled = λ n. false }

abbrev bet_message : WagerMessage
bet_message = record {
  message_id = text "m1";
  message_type = text "WagerTransactionRequested";
  occurred_at = 5;
  correlation_id = text "c";
  event_data = record {
    provider_id = text "p";
    external_transaction_id = text "e1";
    idempotency_key = text "k1";
    player_id = 7;
    wallet_id = 102;
    round_id = text "r";
    game_id = text "g";
    kind = bet;
    amount = text "2.50";
    currency = brl;
    reference_external_transaction_id = none;
  };
}

abbrev pub decode : Text → Option WagerMessage
decode body = if str_eq body (text "bet") then some bet_message else none

abbrev pub senders : ProviderBySender
senders = (text "sender", text "p") ∷ []

abbrev pub received : Text → Received
received body = record {
  body = body;
  receipt_handle = text "handle";
  sender_id = text "sender:session";
  message_group_id = text "trace";
  receive_count = text "1";
}

abbrev pub machine : Machine
machine = record { world = opened; metrics = new_metrics; queue = [] }

handle-acknowledged_example :
    ((has_delete (handle runtime broker decode senders (received (text "bet")) machine).1.queue
        ≡ true)
      ↔ ((result : WagerResult) × IsProcessed runtime broker decode senders
            (received (text "bet"))
            machine
            result))
    × ((handle runtime broker decode senders (received (text "bet")) machine).1.world.db
        ≡ (treatment runtime broker decode senders (received (text "bet")) machine).1.world.db)
unfolding has_delete
handle-acknowledged_example =
    handle-acknowledged runtime broker decode senders (received (text "bet")) machine refl

no_message : parse_wager_message decode (text "x") ≡ err (sentinel invalid_message)
unfolding parse_wager_message str_eq valid_string
no_message = refl

lasting : IsLasting broker
unfolding IsLasting
lasting n k h stopped = stopped

handle-refused_example :
    ((handle runtime broker decode senders (received (text "x")) machine).1.world.db
      ≡ machine.world.db)
    × (((handle runtime broker decode senders (received (text "x")) machine).1.queue
          ≡ change_visibility (text "handle") 0 ∷ machine.queue)
        ⊎ ((handle runtime broker decode senders (received (text "x")) machine).1.queue
            ≡ change_visibility (text "handle") 0
              ∷ change_visibility (text "handle") 0
              ∷ machine.queue))
    × Reports
        (sentinel invalid_message)
        (handle runtime broker decode senders (received (text "x")) machine).0
    × ((sentinel invalid_message ≡ sentinel provider_not_authorized)
        ⊎ (sentinel invalid_message ≡ sentinel invalid_message))
handle-refused_example =
    handle-refused runtime broker decode senders (received (text "x")) lasting machine
      (sentinel invalid_message) (inl no_message)
