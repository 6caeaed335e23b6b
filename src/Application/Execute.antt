-- ===== src/Application/Execute.antt =====
-- `Execute`, `ExecuteMessage` and the replay of a stored result
-- (internal/application/process_wager.go).
use backend_challenge.Base.{
  ℕ, Bool, true, false, not, ◌||◌, Option, none, some, [], ◌∷◌, ◌==◌, ltb, any, if◌then◌else◌,
}
use backend_challenge.Text.{Text, text, str_eq, is_empty, is_blank, valid_string, rune_count}
use backend_challenge.Errors
use backend_challenge.Errors.{
  Result, ok, err, Error, is_error, fail_if, sentinel, wager_not_found, wager_conflict,
  idempotency_conflict, provider_not_authorized, invalid_wager_transaction, invalid_wager_reference,
  wallet_identity_mismatch, inbox_incomplete, invalid_message,
}
use backend_challenge.Domain.Money.{Money}
use backend_challenge.Domain.Wallet.{Uuid, Wallet}
use backend_challenge.Domain.Wager.{WagerStatus, WagerTransaction, NewWager, new_wager_transaction}
use backend_challenge.Postgres.{
  Runtime, Action, pure, lift, clock, fresh_id, query, within_transaction, ◌>>=◌, ◌>>◌,
  find_by_external_id, find_by_idempotency_key, create_wager, find_wallet, register, complete,
}
use backend_challenge.Application.Payload.{ProcessWagerInput, payload_hash}
use backend_challenge.Application.Process.{Trace, attempt, process_wager}

pub record WagerResult : Type 0 where
  pub transaction_id : Uuid
  pub status : WagerStatus
  pub balance : Option Money
  pub failure_code : Option Text
  pub idempotent_replay : Bool

-- `wagerResult`
unfoldable pub wager_result : WagerTransaction → Bool → WagerResult
wager_result t replay = record {
  transaction_id = t.id;
  status = t.status;
  balance = t.result_balance;
  failure_code = t.failure_code;
  idempotent_replay = replay;
}

abbrev pub wager_consumer_name : Text
wager_consumer_name = text "wager-transactions"

-- `!utf8.ValidString(value) || utf8.RuneCountInString(value) > limit`
unfoldable pub too_long : ℕ → Text → Bool
too_long limit value = not (valid_string value) || ltb limit (rune_count value)

abbrev too_long_reference : Option Text → Bool
too_long_reference none = false
too_long_reference (some reference) = too_long 255 reference

-- The guards of `execute` in front of the hash.
unfoldable pub check_input : Text → ProcessWagerInput → Result (Unit {0})
unfolding too_long
check_input authorized_provider_id input =
    Errors.◌>>◌
      (fail_if
        (is_blank authorized_provider_id || not (str_eq authorized_provider_id input.provider_id))
        provider_not_authorized)
      (Errors.◌>>◌ (fail_if (too_long 100 input.provider_id) invalid_wager_transaction) (
        Errors.◌>>◌
          (fail_if
            (any (too_long 255) (
              input.external_transaction_id ∷ input.idempotency_key ∷ input.round_id ∷ input.game_id
              ∷ []))
            invalid_wager_transaction)
          (fail_if (too_long_reference input.reference_external_transaction_id)
            invalid_wager_reference)))

-- The arguments that `execute` passes to `NewWagerTransaction`.
abbrev pub requested_wager : ProcessWagerInput → Text → NewWager
requested_wager input hash = record {
  provider_id = input.provider_id;
  external_transaction_id = input.external_transaction_id;
  idempotency_key = input.idempotency_key;
  payload_hash = hash;
  wallet_id = input.wallet_id;
  player_id = input.player_id;
  round_id = input.round_id;
  game_id = input.game_id;
  kind = input.kind;
  money = input.money;
  reference_external_transaction_id = input.reference_external_transaction_id;
}

pub record InboxMessage : Type 0 where
  pub id : Text
  pub hash : Text

-- The comparison of a stored operation with the requested one.
unfoldable pub replay_of : WagerTransaction → WagerTransaction → Result WagerResult
unfolding wager_result
replay_of requested existing =
    Errors.◌>>◌
      (fail_if
        (not (str_eq existing.payload_hash requested.payload_hash)
          || not (str_eq existing.idempotency_key requested.idempotency_key))
        idempotency_conflict)
      (ok (wager_result existing true))

-- The outcome of the two lookups: nothing where neither found an operation.
unfoldable pub replay_found :
    WagerTransaction → Result WagerTransaction → Result (Option WagerResult)
unfolding replay_of
replay_found requested (ok existing) =
    Errors.◌>>=◌ (replay_of requested existing) (λ result. ok (some result))
replay_found requested (err e) = if is_error e wager_not_found then ok none else err e

module _ (rt : Runtime) where
  unfoldable pub second_lookup :
      WagerTransaction → Result WagerTransaction → Action (Result WagerTransaction)
  second_lookup requested (ok existing) = pure (ok existing)
  second_lookup requested (err e) =
      if is_error e wager_not_found
      then attempt (find_by_external_id rt requested.provider_id requested.external_transaction_id)
      else pure (err e)

  -- `findWagerReplay`
  unfoldable pub find_wager_replay : WagerTransaction → Action (Option WagerResult)
  unfolding second_lookup replay_found
  find_wager_replay requested = do
    by_key ← attempt (find_by_idempotency_key rt requested.provider_id requested.idempotency_key)
    looked_up ← second_lookup requested by_key
    lift (replay_found requested looked_up)

  -- `ctx.Err()`: a cancelled context.
  unfoldable pub context_error : Action (Unit {0})
  context_error = query rt (λ now db. ok tt)

  -- What is done with a replay, or where there is none.
  unfoldable pub unless_replayed : Option WagerResult → Action WagerResult → Action WagerResult
  unless_replayed (some replay) rest = pure replay
  unless_replayed none rest = rest

  -- After `Create`: an operation that the unique indexes refused is replayed or is a conflict.
  unfoldable pub after_create :
      Trace → Wallet → WagerTransaction → Result (Unit {0}) → Action WagerResult
  unfolding unless_replayed
  after_create trace wallet transaction (ok done) = do
    processed ← process_wager rt trace wallet transaction
    pure (wager_result processed false)
  after_create trace wallet transaction (err e) =
      if is_error e wager_conflict
      then (do
        replay ← find_wager_replay transaction
        unless_replayed replay (lift (err (sentinel idempotency_conflict))))
      else lift (err e)

  -- `wallet.PlayerID() != input.PlayerID || wallet.Balance().Currency() != input.Money.Currency()`
  unfoldable pub check_identity : ProcessWagerInput → Wallet → Result (Unit {0})
  check_identity input wallet =
      fail_if
        (not (wallet.player_id == input.player_id)
          || not (str_eq wallet.balance.currency input.money.currency))
        wallet_identity_mismatch

  -- The steps behind the wallet's lock.
  unfoldable pub locked : ProcessWagerInput → Trace → WagerTransaction → Wallet → Action WagerResult
  unfolding unless_replayed after_create check_identity
  locked input trace transaction wallet = do
    replay ← find_wager_replay transaction
    unless_replayed replay (do
      lift (check_identity input wallet)
      created ← attempt (create_wager rt transaction)
      after_create trace wallet transaction created)

  -- The function `process` of `execute`.
  unfoldable pub process_request : ProcessWagerInput → Trace → WagerTransaction → Action WagerResult
  unfolding unless_replayed locked
  process_request input trace transaction = do
    replay ← find_wager_replay transaction
    unless_replayed replay
        (do wallet ← find_wallet rt input.wallet_id; locked input trace transaction wallet)

  -- A message that was completed before is answered from the stored operation.
  unfoldable pub replay_message : WagerTransaction → Action WagerResult
  unfolding unless_replayed
  replay_message transaction = do
    replay ← find_wager_replay transaction
    unless_replayed replay (lift (err (sentinel inbox_incomplete)))

  unfoldable pub first_delivery :
      ProcessWagerInput → Trace → WagerTransaction → InboxMessage → Action WagerResult
  first_delivery input trace transaction message = do
    result ← process_request input trace transaction
    complete rt wager_consumer_name message.id
    pure result

  -- The work of the transaction of `execute`.
  unfoldable pub deliver :
      ProcessWagerInput → Trace → WagerTransaction → Option InboxMessage → Action WagerResult
  unfolding first_delivery replay_message
  deliver input trace transaction none = process_request input trace transaction
  deliver input trace transaction (some message) = do
    duplicate ← register rt wager_consumer_name message.id message.hash
    if duplicate then replay_message transaction else first_delivery input trace transaction message

  -- `input.CorrelationID`, or `uuid.NewString()` where it is blank
  unfoldable pub correlation : Text → Action Text
  correlation correlation_id =
      if is_blank correlation_id
      then (do id ← fresh_id rt; pure (rt.uuid_text id))
      else pure correlation_id

  -- `execute`
  unfoldable pub execute_request :
      Text → ProcessWagerInput → Option InboxMessage → Action WagerResult
  execute_request authorized_provider_id input message = do
    context_error
    lift (check_input authorized_provider_id input)
    hash ← lift (payload_hash rt input)
    now ← clock rt
    id ← fresh_id rt
    transaction ← lift (new_wager_transaction now id (requested_wager input hash))
    correlation_id ← correlation input.correlation_id
    within_transaction rt (
        deliver input
          (record { correlation_id = correlation_id; causation_id = input.causation_id })
          transaction message)

  -- `Execute`
  unfoldable pub execute : Text → ProcessWagerInput → Action WagerResult
  execute authorized_provider_id input = execute_request authorized_provider_id input none

  -- `ExecuteMessage`, whose body is hashed as it was received
  unfoldable pub execute_message : Text → ProcessWagerInput → Text → Text → Action WagerResult
  execute_message authorized_provider_id input message_id body = do
    lift (
        fail_if (is_blank message_id || not (valid_string message_id) || is_empty body)
          invalid_message)
    execute_request authorized_provider_id input
        (some (record { id = message_id; hash = rt.body_digest body }))
