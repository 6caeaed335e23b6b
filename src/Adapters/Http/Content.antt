-- ===== src/Adapters/Http/Content.antt =====
-- Requests and responses (internal/infrastructure/httpapi/contracts.go and json.go).
use backend_challenge.Base.{
  refl, inr, inl, ◌⊎◌, ◌≡◌, ℕ, Bool, true, false, not, Option, none, some, if◌then◌else◌,
}
use backend_challenge.Text.{Text, text, str_eq}
use backend_challenge.Errors.{Error}
use backend_challenge.Domain.Money.{Money}
use backend_challenge.Domain.Wallet.{Uuid, Time, Wallet}
use backend_challenge.Domain.Wager.{WagerKind, WagerStatus, WagerTransaction}
use backend_challenge.Application.{WagerResult, LedgerPage, ReconciliationResult}
use backend_challenge.Adapters.Responses.{error_response}

pub record MoneyRequest : Type 0 where
  pub amount : Text
  pub currency : Text

pub record OpenWalletRequest : Type 0 where
  pub player_id : Uuid
  pub initial_balance : MoneyRequest

pub record WagerRequest : Type 0 where
  pub provider_id : Text
  pub external_transaction_id : Text
  pub player_id : Uuid
  pub wallet_id : Uuid
  pub round_id : Text
  pub game_id : Text
  pub kind : WagerKind
  pub money : MoneyRequest
  pub reference_external_transaction_id : Option Text

pub record WalletResponse : Type 0 where
  pub id : Uuid
  pub player_id : Uuid
  pub balance : Money
  pub version : ℕ

-- `walletBody`
unfoldable pub wallet_response : Wallet → WalletResponse
wallet_response wallet = record {
  id = wallet.id;
  player_id = wallet.player_id;
  balance = wallet.balance;
  version = wallet.version;
}

pub record TransactionResponse : Type 0 where
  pub transaction_id : Uuid
  pub provider_id : Text
  pub external_transaction_id : Text
  pub idempotency_key : Text
  pub player_id : Uuid
  pub wallet_id : Uuid
  pub round_id : Text
  pub game_id : Text
  pub kind : WagerKind
  pub money : Money
  pub reference_external_transaction_id : Option Text
  pub reference_transaction_id : Option Uuid
  pub status : WagerStatus
  pub balance : Option Money
  pub failure_code : Option Text
  pub created_at : Time
  pub updated_at : Time

-- `transactionBody`
unfoldable pub transaction_response : WagerTransaction → TransactionResponse
transaction_response t = record {
  transaction_id = t.id;
  provider_id = t.provider_id;
  external_transaction_id = t.external_transaction_id;
  idempotency_key = t.idempotency_key;
  player_id = t.player_id;
  wallet_id = t.wallet_id;
  round_id = t.round_id;
  game_id = t.game_id;
  kind = t.kind;
  money = t.money;
  reference_external_transaction_id = t.reference_external_transaction_id;
  reference_transaction_id = t.reference_transaction_id;
  status = t.status;
  balance = t.result_balance;
  failure_code = t.failure_code;
  created_at = t.created_at;
  updated_at = t.updated_at;
}

-- The readiness checks: whether PostgreSQL and SQS answer.
pub record Checks : Type 0 where
  pub postgres : Bool
  pub sqs : Bool

-- The value that a response encodes.
pub data Body : Type 0 where
  code_body : Text → Body
  live_body : Body
  wallet_body : WalletResponse → Body
  transaction_body : TransactionResponse → Body
  result_body : WagerResult → Body
  page_body : LedgerPage → Body
  reconciliation_body : ReconciliationResult → Body
  checks_body : Checks → Body
  metrics_body : Text → Body

-- With the wallet of the header Location.
pub record HttpResponse : Type 0 where
  pub status : ℕ
  pub location : Option Uuid
  pub body : Body

abbrev pub respond : ℕ → Body → HttpResponse
respond status body = record { status = status; location = none; body = body }

-- `writeError`, whose value can always be encoded
unfoldable pub write_error : ℕ → Text → HttpResponse
write_error status code = respond status (code_body code)

-- `writeJSON`; `encodes` tells whether `json.Marshal` succeeds.
unfoldable pub write_json : (Body → Bool) → ℕ → Body → HttpResponse
unfolding write_error
write_json encodes status body =
    if encodes body then respond status body else write_error 500 (text "INTERNAL_ERROR")

-- `fail`, without its log
unfoldable pub fail_with : Error → HttpResponse
unfolding write_error
fail_with e = let (status, code) = error_response e in write_error status code

-- What the decoder finds behind the first value of a body, and at its start.
pub data Rest : Type 0 where
  at_end another_value rest_too_large rest_malformed : Rest

pub data Document (A : Type 0) : Type 0 where
  -- none is null, which sets the pointer to nil
  value : Option A → Rest → Document A
  too_large malformed : Document A

pub data ReadResult (A : Type 0) : Type 0 where
  content : Option A → ReadResult A
  rejected : HttpResponse → ReadResult A

-- `writeDecodeError`
unfoldable pub decode_error : Bool → HttpResponse
unfolding write_error
decode_error true = write_error 413 (text "REQUEST_TOO_LARGE")
decode_error false = write_error 400 (text "INVALID_REQUEST")

-- The two calls of `Decode`.
read_document : {A : Type 0} → Document A → ReadResult A
unfolding decode_error
read_document too_large = rejected (decode_error true)
read_document malformed = rejected (decode_error false)
read_document (value v at_end) = content v
read_document (value v another_value) = rejected (write_error 400 (text "INVALID_REQUEST"))
read_document (value v rest_too_large) = rejected (decode_error true)
read_document (value v rest_malformed) = rejected (decode_error false)

-- `readJSON`; the media type is none where it cannot be parsed.
unfoldable pub read_json : {A : Type 0} → Option Text → Document A → ReadResult A
unfolding read_document
read_json none document = rejected (write_error 415 (text "UNSUPPORTED_MEDIA_TYPE"))
read_json (some media_type) document =
    if not (str_eq media_type (text "application/json"))
    then rejected (write_error 415 (text "UNSUPPORTED_MEDIA_TYPE"))
    else read_document document

pub ReadResult-cases :
    {A : Type 0} (r : ReadResult A)
    → ((response : HttpResponse) × (r ≡ rejected response))
      ⊎ ((r ≡ content none) ⊎ ((a : A) × (r ≡ content (some a))))
ReadResult-cases (rejected response) = inl (response, refl)
ReadResult-cases (content none) = inr (inl refl)
ReadResult-cases (content (some a)) = inr (inr (a, refl))
