-- ===== src/Adapters/Http/Api.antt =====
-- The routes and their access (internal/infrastructure/httpapi/api.go, health.go and server.go).
use backend_challenge.Base.{
  ℕ, ℤ, Bool, true, false, ◌&&◌, Option, none, some, List, [], if◌then◌else◌,
}
use backend_challenge.Text.{Text, text, is_blank}
use backend_challenge.Errors.{Result, ok, err}
use backend_challenge.Domain.Wallet.{Uuid, Time}
use backend_challenge.Postgres.{Runtime, called, query}
use backend_challenge.Application.{CursorCodec}
use backend_challenge.Observability.{serve_metrics, set_dlq_depth}
use backend_challenge.Adapters.Auth.{
  AuthSettings, Answer, Identity, Access, allowed, denied, authorize,
}
use backend_challenge.Adapters.Machine.{Task, done, run, observe_by, time_now, ◌>>=◌, ◌>>◌}
use backend_challenge.Adapters.Http.Content.{
  Body, HttpResponse, respond, write_json, write_error, live_body, checks_body, metrics_body,
  Document, OpenWalletRequest, WagerRequest,
}
use backend_challenge.Adapters.Http.Wallets.{
  create_wallet_handler, get_wallet, list_wallet_ledger, reconcile_wallet_balance,
}
use backend_challenge.Adapters.Http.Wagers.{create_wager_handler, get_transaction}

-- What the program takes from outside for a request: the runtime of the use cases, `json.Marshal`,
-- the cursor's codec, the identity provider, Unix seconds, `%.6f`, and the consumer's `CheckReady`
-- by the number of the call.
pub record Services : Type 0 where
  pub runtime : Runtime
  pub encodes : Body → Bool
  pub codec : CursorCodec
  pub auth : AuthSettings
  pub ask : Text → Option Answer
  pub unix : Time → ℤ
  pub seconds : ℕ → Text
  pub check_sqs : ℕ → Result ℤ

-- The patterns of the router with the values of their paths.
pub data Route : Type 0 where
  open_route live_route ready_route metrics_route wager_route : Route
  wallet_route reconcile_route transaction_route : Option Uuid → Route
  ledger_route : Option Uuid → Option (List (Text × List Text)) → Route
  external_route : Text → Text → Route

-- The headers and the body, as its decoding for the two routes that read one.
pub record Request : Type 0 where
  pub route : Route
  pub authorization : List Text
  pub correlation : Text
  pub idempotency_keys : List Text
  pub media_type : Option Text
  pub wallet_document : Document OpenWalletRequest
  pub wager_document : Document WagerRequest

-- Whom a route is for: everyone, or internal or provider's tokens.
pub data Audience : Type 0 where
  everyone : Audience
  only : Bool → Audience

unfoldable pub audience_of : Route → Audience
audience_of open_route = only true
audience_of (wallet_route id) = only true
audience_of (ledger_route id values) = only true
audience_of (reconcile_route id) = only true
audience_of wager_route = only false
audience_of (transaction_route id) = only false
audience_of (external_route provider id) = only false
audience_of live_route = everyone
audience_of ready_route = everyone
audience_of metrics_route = everyone

unfoldable pub is_ok : {A : Type 0} → Result A → Bool
is_ok (ok a) = true
is_ok (err e) = false

abbrev pub keep_depth : Result ℤ → Task (Unit {0})
keep_depth (ok depth) = observe_by (set_dlq_depth depth)
keep_depth (err e) = done tt

module _ (services : Services) where
  -- `CheckReady`, whose success sets the depth of the dead letters' queue
  unfoldable pub check_sqs : Task (Result ℤ)
  check_sqs m = (services.check_sqs m.world.calls, record m { world = called m.world })

  -- `ready`
  unfoldable pub ready : Task HttpResponse
  unfolding check_sqs is_ok
  ready = do
    ping ← run (query services.runtime (λ now db. ok tt))
    sqs ← check_sqs
    keep_depth sqs
    done (
        write_json services.encodes (if is_ok ping && is_ok sqs then 200 else 503)
          (checks_body (record { postgres = is_ok ping; sqs = is_ok sqs })))

  metrics_page : Task HttpResponse
  metrics_page m = (respond 200 (metrics_body (serve_metrics services.seconds m.metrics)), m)

  -- The handler of a route, with the identity that its access has let through.
  unfoldable pub handle_route : Route → Text → Request → Option Identity → Task HttpResponse
  unfolding metrics_page
  handle_route open_route correlation request identity =
      create_wallet_handler services.runtime services.encodes correlation request.media_type
        request.wallet_document
  handle_route (wallet_route id) correlation request identity =
      get_wallet services.runtime services.encodes id
  handle_route (ledger_route id values) correlation request identity =
      list_wallet_ledger services.runtime services.encodes services.codec id values
  handle_route (reconcile_route id) correlation request identity =
      reconcile_wallet_balance services.runtime services.encodes id
  handle_route metrics_route correlation request identity = metrics_page
  handle_route wager_route correlation request identity =
      create_wager_handler services.runtime services.encodes identity correlation
        request.idempotency_keys request.media_type request.wager_document
  handle_route (transaction_route id) correlation request identity =
      get_transaction services.runtime services.encodes identity [] [] id
  handle_route (external_route provider id) correlation request identity =
      get_transaction services.runtime services.encodes identity provider id none
  handle_route live_route correlation request identity =
      done (write_json services.encodes 200 live_body)
  handle_route ready_route correlation request identity = ready

  unfoldable pub after_access : Text → Request → Access → Task HttpResponse
  after_access correlation request (denied status code) = done (write_error status code)
  after_access correlation request (allowed identity) =
      handle_route request.route correlation request (some identity)

  unfoldable pub guarded : Text → Request → Audience → Task HttpResponse
  unfolding after_access
  guarded correlation request everyone = handle_route request.route correlation request none
  guarded correlation request (only internal) = do
    now ← time_now services.runtime
    after_access correlation request
        (authorize services.auth services.ask (services.unix now) internal request.authorization)

  -- The header X-Correlation-Id, or a new identifier where it is blank.
  unfoldable pub correlation_of : Text → Task Text
  correlation_of given m =
      if is_blank given
      then (
        services.runtime.uuid_text (services.runtime.new_id m.world.calls),
        record m { world = called m.world },
      )
      else (given, m)

  -- `Handler`
  unfoldable pub serve : Request → Task HttpResponse
  unfolding guarded correlation_of
  serve request = do
    correlation ← correlation_of request.correlation
    guarded correlation request (audience_of request.route)

  -- The handler of the server, which refuses requests while it stops.
  unfoldable pub serve_unless_stopping : Bool → Request → Task HttpResponse
  serve_unless_stopping stopping request =
      if stopping then done (write_error 503 (text "SHUTTING_DOWN")) else serve request
