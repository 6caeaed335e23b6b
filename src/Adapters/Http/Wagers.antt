-- ===== src/Adapters/Http/Wagers.antt =====
-- The handlers of wager operations (internal/infrastructure/httpapi/api.go).
use backend_challenge.Base.{ℕ, Bool, not, ◌&&◌, Option, none, some, List, [], ◌∷◌, if◌then◌else◌}
use backend_challenge.Text.{Text, text, str_eq, is_blank, is_empty}
use backend_challenge.Errors.{Result, ok, err}
use backend_challenge.Domain.Money.{Money, new_money}
use backend_challenge.Domain.Wallet.{Uuid, Time}
use backend_challenge.Domain.Wager.{
  WagerStatus, WagerTransaction, status_text, pending, pending_reference, failed,
}
use backend_challenge.Postgres.{Runtime, within_transaction, find_by_id, find_by_external_id}
use backend_challenge.Application.{ProcessWagerInput, WagerResult, execute}
use backend_challenge.Observability.{observe_processing_error, observe_wager_result}
use backend_challenge.Adapters.Auth.{Identity}
use backend_challenge.Adapters.Machine.{
  Task, done, run, observe_by, time_now, time_since, ◌>>=◌, ◌>>◌,
}
use backend_challenge.Adapters.Http.Content.{
  Body, HttpResponse, write_json, write_error, fail_with, result_body, transaction_body,
  transaction_response, Document, ReadResult, content, rejected, read_json, WagerRequest,
}
use backend_challenge.Adapters.Http.Wallets.{path_id}

-- The status of the response to a stored operation.
unfoldable pub result_status : WagerStatus → ℕ
result_status pending = 202
result_status pending_reference = 202
result_status WagerStatus.rejected = 422
result_status failed = 500
result_status status = 200

-- The one value of the header Idempotency-Key.
unfoldable pub idempotency_key : List Text → Option Text
idempotency_key (key ∷ []) = if is_blank key then none else some key
idempotency_key keys = none

unfoldable pub wager_input : WagerRequest → Text → Money → Text → ProcessWagerInput
wager_input request key money correlation_id = record {
  provider_id = request.provider_id;
  external_transaction_id = request.external_transaction_id;
  idempotency_key = key;
  player_id = request.player_id;
  wallet_id = request.wallet_id;
  round_id = request.round_id;
  game_id = request.game_id;
  kind = request.kind;
  money = money;
  reference_external_transaction_id = request.reference_external_transaction_id;
  correlation_id = correlation_id;
  causation_id = [];
}

module _ (rt : Runtime) (encodes : Body → Bool) where
  executed : Time → Result WagerResult → Task HttpResponse
  executed started (err e) = do
    elapsed ← time_since rt started
    observe_by (observe_processing_error e elapsed)
    done (fail_with e)
  executed started (ok result) = do
    elapsed ← time_since rt started
    observe_by (observe_wager_result (status_text result.status) result.idempotent_replay elapsed)
    done (write_json encodes (result_status result.status) (result_body result))

  identified : Time → Text → Text → WagerRequest → Money → Option Identity → Task HttpResponse
  unfolding executed wager_input
  identified started key correlation_id request money none =
      done (write_error 401 (text "UNAUTHENTICATED"))
  identified started key correlation_id request money (some identity) = do
    result ← run (execute rt identity.provider_id (wager_input request key money correlation_id))
    executed started result

  priced : Time → Text → Text → Option Identity → WagerRequest → Result Money → Task HttpResponse
  unfolding identified
  priced started key correlation_id identity request (err e) = done (fail_with e)
  priced started key correlation_id identity request (ok money) =
      identified started key correlation_id request money identity

  wager_read : Time → Text → Text → Option Identity → ReadResult WagerRequest → Task HttpResponse
  unfolding priced
  wager_read started key correlation_id identity (rejected response) = done response
  wager_read started key correlation_id identity (content none) =
      done (write_error 400 (text "INVALID_REQUEST"))
  wager_read started key correlation_id identity (content (some request)) =
      priced started key correlation_id identity request
        (new_money request.money.amount request.money.currency)

  keyed :
      Time
      → Text
      → Option Text
      → Document WagerRequest
      → Option Identity
      → Option Text
      → Task HttpResponse
  unfolding wager_read read_json
  keyed started correlation_id media_type document identity none =
      done (write_error 400 (text "IDEMPOTENCY_KEY_REQUIRED"))
  keyed started correlation_id media_type document identity (some key) =
      wager_read started key correlation_id identity (read_json media_type document)

  -- `createWager`
  unfoldable pub create_wager_handler :
      Option Identity → Text → List Text → Option Text → Document WagerRequest → Task HttpResponse
  unfolding keyed idempotency_key
  create_wager_handler identity correlation_id keys media_type document = do
    started ← time_now rt
    keyed started correlation_id media_type document identity (idempotency_key keys)

  transaction_found : Result WagerTransaction → HttpResponse
  transaction_found (err e) = fail_with e
  transaction_found (ok t) = write_json encodes 200 (transaction_body (transaction_response t))

  find_by_path : Text → Text → Option Uuid → Task HttpResponse
  unfolding transaction_found path_id
  find_by_path provider external_id parsed =
      if is_empty external_id
      then elim (path_id parsed) [
        | none ↦ done (write_error 400 (text "INVALID_REQUEST"))
        | some id ↦ (do
          found ← run (within_transaction rt (find_by_id rt provider id))
          done (transaction_found found))
      ]
      else (do
        found ← run (within_transaction rt (find_by_external_id rt provider external_id))
        done (transaction_found found))

  -- `getTransaction`; a route without a provider or an external identity has them empty.
  unfoldable pub get_transaction : Option Identity → Text → Text → Option Uuid → Task HttpResponse
  unfolding find_by_path
  get_transaction none provider external_id parsed = done (write_error 401 (text "UNAUTHENTICATED"))
  get_transaction (some identity) provider external_id parsed =
      if not (is_empty provider) && not (str_eq provider identity.provider_id)
      then done (write_error 403 (text "FORBIDDEN"))
      else find_by_path identity.provider_id external_id parsed
