-- ===== src/Adapters/Responses.antt =====
-- `errorResponse` (internal/infrastructure/httpapi/json.go), and `permanentMessageError` and
-- `errorMetricReason` (internal/infrastructure/messaging/sqs_consumer.go).
use backend_challenge.Base.{
  ◌⊎◌, ℕ, ◌≡◌, ◌<◌, Bool, true, false, ◌||◌, Option, none, some, List, [], ◌∷◌, if◌then◌else◌,
  arith,
}
use backend_challenge.Text.{Text, text, str_eq, has_prefix}
use backend_challenge.Errors.{
  Error, Sentinel, database_code, network, joined, is_error, invalid_money, money_overflow,
  invalid_wallet, invalid_wager_transaction, invalid_wager_kind, invalid_wager_money,
  reference_required, invalid_wager_reference, external_opening, invalid_message,
  provider_not_authorized, idempotency_conflict, wallet_identity_mismatch, inbox_conflict,
  inbox_incomplete, deadline_exceeded, canceled, wallet_concurrent_update, eof,
  invalid_financial_state, invalid_ledger_page, wallet_conflict, wallet_not_found, wager_not_found,
}

-- `errors.As(err, &networkError)`
unfoldable pub has_network : Error → Bool
has_network network = true
has_network (joined a b) = has_network a || has_network b
has_network e = false

unfoldable pub unavailable_code : Option Text → Bool
unfolding has_prefix
unavailable_code none = false
unavailable_code (some code) =
    has_prefix code (text "08")
    || has_prefix code (text "53")
    || has_prefix code (text "57P")
    || str_eq code (text "40001")
    || str_eq code (text "40P01")

-- `errors.Is` on any of a list of values.
unfoldable pub is_any : List Sentinel → Error → Bool
is_any [] e = false
is_any (s ∷ sentinels) e = is_error e s || is_any sentinels e

abbrev pub invalid_requests : List Sentinel
invalid_requests =
    invalid_money ∷ money_overflow ∷ invalid_wallet ∷ invalid_wager_transaction ∷ invalid_wager_kind
    ∷ invalid_wager_money ∷ reference_required ∷ invalid_wager_reference ∷ external_opening ∷ []

abbrev pub permanent_errors : List Sentinel
permanent_errors =
    invalid_message ∷ provider_not_authorized ∷ idempotency_conflict ∷ wallet_identity_mismatch
    ∷ inbox_conflict ∷ invalid_money ∷ money_overflow ∷ invalid_wager_kind
    ∷ invalid_wager_transaction ∷ invalid_wager_money ∷ reference_required ∷ external_opening
    ∷ invalid_wager_reference ∷ []

abbrev pub Response : Type 0
Response = ℕ × Text

-- The part behind the `switch` and the loop.
dependency_response : Error → Response
unfolding is_any has_network database_code unavailable_code
dependency_response e =
    if is_any (deadline_exceeded ∷ canceled ∷ wallet_concurrent_update ∷ eof ∷ []) e
    then (503, text "DEPENDENCY_UNAVAILABLE")
    else if has_network e
    then (503, text "DEPENDENCY_UNAVAILABLE")
    else if unavailable_code (database_code e)
    then (503, text "DEPENDENCY_UNAVAILABLE")
    else (500, text "INTERNAL_ERROR")

unfoldable pub error_response : Error → Response
unfolding dependency_response is_any
error_response e =
    if is_error e invalid_financial_state
    then (500, text "INVALID_FINANCIAL_STATE")
    else if is_error e invalid_ledger_page
    then (400, text "INVALID_LEDGER_PAGE")
    else if is_error e provider_not_authorized
    then (403, text "FORBIDDEN")
    else if is_error e idempotency_conflict
    then (409, text "IDEMPOTENCY_CONFLICT")
    else if is_error e wallet_conflict
    then (409, text "WALLET_ALREADY_EXISTS")
    else if is_any (wallet_not_found ∷ wager_not_found ∷ []) e
    then (404, text "NOT_FOUND")
    else if is_error e wallet_identity_mismatch
    then (400, text "WALLET_IDENTITY_MISMATCH")
    else if is_any invalid_requests e
    then (400, text "INVALID_REQUEST")
    else dependency_response e

unfoldable pub permanent_message_error : Error → Bool
unfolding is_any
permanent_message_error e = is_any permanent_errors e

unfoldable pub error_metric_reason : Error → Text
error_metric_reason e =
    if is_error e invalid_message
    then text "invalid_message"
    else if is_error e provider_not_authorized
    then text "provider_not_authorized"
    else if is_error e idempotency_conflict
    then text "idempotency_conflict"
    else if is_error e wallet_identity_mismatch
    then text "wallet_identity_mismatch"
    else if is_error e inbox_conflict
    then text "inbox_conflict"
    else if is_error e inbox_incomplete
    then text "inbox_incomplete"
    else text "processing_error"

-- The client's errors that the queue retries: a missing wallet or operation, which may still come,
-- a taken wallet, an invalid wallet and an invalid ledger page.
abbrev pub retried_errors : List Sentinel
retried_errors =
    wallet_not_found ∷ wager_not_found ∷ wallet_conflict ∷ invalid_wallet ∷ invalid_ledger_page ∷ []

-- The permanent errors of a message that the API does not know as the client's, and the error of an
-- invalid financial state, which the API reports as its own whatever it joins.
abbrev pub unknown_to_client : List Sentinel
unknown_to_client = invalid_message ∷ inbox_conflict ∷ invalid_financial_state ∷ []

-- The API and the queue agree on whose fault an error is, whatever errors it joins, where it is none
-- of those that the queue retries: a missing wallet or operation, a taken or invalid wallet, and an
-- invalid ledger page. An error with a status below 500 is then permanent for the queue, and a
-- permanent error has a status below 500, but for an invalid message, a conflict in the inbox and
-- an invalid financial state.
pub client_error-permanent :
    (e : Error)
    → is_any retried_errors e ≡ false
    → ((error_response e).0 < 500 → permanent_message_error e ≡ true)
      × (permanent_message_error e ≡ true
          → ((error_response e).0 < 500) ⊎ (is_any unknown_to_client e ≡ true))
unfolding error_response dependency_response permanent_message_error is_any
client_error-permanent e k = (λ h. ground arith, λ h. ground arith)
