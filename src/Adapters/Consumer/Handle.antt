-- ===== src/Adapters/Consumer/Handle.antt =====
-- `Handle` (internal/infrastructure/messaging/sqs_consumer.go)
use backend_challenge.Base.{
  ℕ, ℤ, pos, pos_part, max_int64, min_int64, Bool, true, false, not, ◌||◌, Option, none, some, List,
  [], ◌∷◌, all, leb, ◌==◌, if◌then◌else◌,
}
use backend_challenge.Text.{Text, str_eq, is_empty, parse_int, is_digit}
use backend_challenge.Errors.{
  Error, Result, ok, err, fail, joined, provider_not_authorized, invalid_message,
}
use backend_challenge.Domain.Wallet.{Time}
use backend_challenge.Domain.Wager.{status_text}
use backend_challenge.Postgres.{Runtime}
use backend_challenge.Application.{ProcessWagerInput, WagerResult, execute_message}
use backend_challenge.Application.Delays.{message_retry_delay}
use backend_challenge.Observability.{
  observe_processing_error, observe_dead_letter, observe_message_retry, observe_wager_result,
}
use backend_challenge.Adapters.Messages.{WagerMessage, parse_wager_message}
use backend_challenge.Adapters.Responses.{permanent_message_error, error_metric_reason}
use backend_challenge.Adapters.Machine.{
  Broker, Task, done, run, ◌>>=◌, ◌>>◌, observe_by, time_now, time_since, is_cancelled, send,
  delete_message, change_visibility,
}

-- A received message; an absent attribute is empty.
pub record Received : Type 0 where
  pub body : Text
  pub receipt_handle : Text
  pub sender_id : Text
  pub message_group_id : Text
  pub receive_count : Text

abbrev pub ProviderBySender : Type 0
ProviderBySender = List (Text × Text)

-- `strings.SplitN(sender, ":", 2)[0]`
unfoldable pub before_colon : Text → Text
before_colon [] = []
before_colon (c ∷ s) = let rest = before_colon s in if c == b':' then [] else c ∷ rest

unfoldable pub provider_of : Text → ProviderBySender → Text
provider_of sender [] = []
provider_of sender ((name, provider) ∷ senders) =
    let rest = provider_of sender senders in if str_eq name sender then provider else rest

-- The provider of the sender, or of the sender's identity without its session.
unfoldable pub authorized_provider : ProviderBySender → Text → Text
unfolding provider_of before_colon
authorized_provider senders sender =
    if is_empty (provider_of sender senders)
    then provider_of (before_colon sender) senders
    else provider_of sender senders

-- The checks of the sender and of the group, behind those of the body.
unfoldable pub check_sender :
    ProviderBySender → Received → ProcessWagerInput → Text → Result (Unit {0})
check_sender senders received input wallet =
    if is_empty (authorized_provider senders received.sender_id)
      || not (str_eq (authorized_provider senders received.sender_id) input.provider_id)
    then fail provider_not_authorized
    else if not (str_eq received.message_group_id wallet)
    then fail invalid_message
    else ok tt

-- `strconv.Atoi` with its error dropped: the nearest `int` for a number out of range, 0 for a text
-- that is none.
digits_only : Text → Bool
digits_only [] = false
digits_only (c ∷ s) = all is_digit (c ∷ s)

out_of_range : Text → ℤ
unfolding digits_only
out_of_range [] = pos 0
out_of_range (c ∷ s) =
    if c == b'-'
    then (if digits_only s then min_int64 else pos 0)
    else if c == b'+'
    then (if digits_only s then max_int64 else pos 0)
    else if digits_only (c ∷ s)
    then max_int64
    else pos 0

unfoldable pub attempts_of : Text → ℤ
unfolding out_of_range
attempts_of count = elim (parse_int count) [ some n ↦ n | none ↦ out_of_range count ]

-- `errors.Join(err, …)`
abbrev pub join_error : Error → Result (Unit {0}) → Result (Unit {0})
join_error e (ok x) = err e
join_error e (err changed) = err (joined e changed)

-- `decode` is the JSON decoder of a message's body.
module _ (rt : Runtime) (broker : Broker) (decode : Text → Option WagerMessage)
    (senders : ProviderBySender) (received : Received) where
  -- `ExecuteMessage` behind the checks.
  unfoldable pub process_message :
      Result (WagerMessage × ProcessWagerInput) → Task (Result WagerResult)
  process_message (err e) = done (err e)
  process_message (ok (message, input)) =
      elim (check_sender senders received input (rt.uuid_text input.wallet_id)) [
        | err e ↦ done (err e)
        | ok x ↦ run (
            execute_message rt (authorized_provider senders received.sender_id) input
              message.message_id received.body)
      ]

  unfoldable pub retry_seconds : Error → ℕ
  retry_seconds e =
      if permanent_message_error e
      then 0
      else message_retry_delay (pos_part (attempts_of received.receive_count))

  -- The count of the outcome: left for the redrive to the dead letters, or to be retried.
  unfoldable pub observe_failure : Error → Task (Unit {0})
  observe_failure e =
      if permanent_message_error e || leb 5 (pos_part (attempts_of received.receive_count))
      then observe_by (observe_dead_letter (error_metric_reason e))
      else observe_by (observe_message_retry (error_metric_reason e))

  postpone : Error → Bool → Task (Result (Unit {0}))
  unfolding retry_seconds
  postpone e true = done (err e)
  postpone e false = do
    changed ← send broker (change_visibility received.receipt_handle (retry_seconds e))
    done (join_error e changed)

  acknowledged : Time → WagerResult → Result (Unit {0}) → Task (Result (Unit {0}))
  acknowledged started result (err e) = done (err e)
  acknowledged started result (ok x) = do
    elapsed ← time_since rt started
    observe_by (observe_wager_result (status_text result.status) result.idempotent_replay elapsed)
    done (ok tt)

  -- What follows the treatment: the visibility after an error, the deletion after a success.
  unfoldable pub conclude : Time → Result WagerResult → Task (Result (Unit {0}))
  unfolding observe_failure postpone acknowledged
  conclude started (err e) = do
    elapsed ← time_since rt started
    observe_by (observe_processing_error e elapsed)
    observe_failure e
    stopped ← is_cancelled broker
    postpone e stopped
  conclude started (ok result) = do
    deleted ← send broker (delete_message received.receipt_handle)
    acknowledged started result deleted

  -- The deferred release of the message at a shutdown, whose error is only logged.
  unfoldable pub release : Bool → Task (Result (Unit {0}))
  release true = send broker (change_visibility received.receipt_handle 0)
  release false = done (ok tt)

  -- `Handle`
  unfoldable pub handle : Task (Result (Unit {0}))
  unfolding process_message conclude release
  handle = do
    started ← time_now rt
    treated ← process_message (parse_wager_message decode received.body)
    concluded ← conclude started treated
    stopped ← is_cancelled broker
    released ← release stopped
    done concluded
