-- ===== src/Books/Consumer.antt =====
-- The queue's consumer keeps the books balanced
-- (internal/infrastructure/messaging/sqs_consumer.go).
use backend_challenge.Base.{◌||◌, not, ◌≡◌, subst, inl, inr, Option, IsInt64}
use backend_challenge.Text.{text, str_eq, is_blank, valid_string, Text}
use backend_challenge.Errors.{
  err_not_ok, Result, ok, err, Result-cases, >>=-eq-ok, fail_if-eq-ok, ok_inj, invalid_message,
}
use backend_challenge.Domain.Money.Range.{new_money-IsInt64}
use backend_challenge.Postgres.{Runtime}
use backend_challenge.Application.{ProcessWagerInput}
use backend_challenge.Adapters.Messages.{as_invalid, decoded, WagerMessage, parse_wager_message}
use backend_challenge.Adapters.Machine.{Machine, Broker, time_now}
use backend_challenge.Adapters.Consumer.{
  Received, ProviderBySender, check_sender, process_message, handle,
}
use backend_challenge.Adapters.Consumer.Requests.{treatment, handle-db}
use backend_challenge.Books.Logic.{books}
use backend_challenge.Books.Balance.{IsBalanced}
use backend_challenge.Books.Execute.{execute_message-IsBalanced}
use backend_challenge.Domain.Money.{new_money, Money}
use backend_challenge.Domain.Wallet.{is_zero_time}

as_invalid-ok : (r : Result Money) (m : Money) → as_invalid r ≡ ok m → r ≡ ok m
as_invalid-ok (ok money) m h = h
as_invalid-ok (err e) m h = absurd (err_not_ok h)

as_invalid-IsInt64 :
    (amount currency : Text) (m : Money)
    → as_invalid (new_money amount currency) ≡ ok m
    → IsInt64 m.amount
as_invalid-IsInt64 amount currency m h =
    new_money-IsInt64 amount currency m (as_invalid-ok (new_money amount currency) m h)

-- The amount of a message that is read is an `int64`.
parse-IsInt64 :
    (decode : Text → Option WagerMessage) (body : Text) (message : WagerMessage)
    (input : ProcessWagerInput)
    → parse_wager_message decode body ≡ ok (message, input)
    → IsInt64 input.money.amount
unfolding parse_wager_message
parse-IsInt64 decode body message input h =
    let (valid, h1) = fail_if-eq-ok (not (valid_string body)) invalid_message _ h in
    let (read, is_decoded, h2) = >>=-eq-ok (decoded (decode body)) _ h1 in
    let (named, h3) =
      fail_if-eq-ok
        (is_blank read.message_id
          || not (str_eq read.message_type (text "WagerTransactionRequested"))
          || is_zero_time read.occurred_at)
        invalid_message _ h2 in
    let (money, priced, done) =
      >>=-eq-ok (as_invalid (new_money read.event_data.amount read.event_data.currency)) _ h3 in
    subst (λ (r : WagerMessage × ProcessWagerInput). IsInt64 r.1.money.amount) (ok_inj done)
      (as_invalid-IsInt64 read.event_data.amount read.event_data.currency money priced)

module _ (rt : Runtime) (broker : Broker) (decode : Text → Option WagerMessage)
    (senders : ProviderBySender) (received : Received) where
  treatment-IsBalanced :
      (m : Machine)
      → IsBalanced (books m.world.db)
      → IsBalanced (books (treatment rt broker decode senders received m).1.world.db)
  unfolding process_message time_now
  treatment-IsBalanced m h = elim (Result-cases (parse_wager_message decode received.body)) [
    | inr (e, bad) ↦ rw bad h
    | inl ((message, input), parsed) ↦
        elim (Result-cases (check_sender senders received input (rt.uuid_text input.wallet_id))) [
          | inr (e, refused) ↦ rw (parsed, refused, process_message) h
          | inl (x, checked) ↦
              rw (parsed, checked, process_message)
                (execute_message-IsBalanced rt _ input message.message_id received.body _
                  (parse-IsInt64 decode received.body message input parsed) h)
        ]
  ]

  -- `Handle` keeps the books balanced, whatever the message, the queue's answers and the faults of
  -- the database are.
  pub handle-IsBalanced :
      (m : Machine)
      → IsBalanced (books m.world.db)
      → IsBalanced (books (handle rt broker decode senders received m).1.world.db)
  handle-IsBalanced m h =
      rw (handle-db rt broker decode senders received m) (treatment-IsBalanced m h)
