-- ===== src/Adapters/Http/Wallets.antt =====
-- The handlers of wallets (internal/infrastructure/httpapi/api.go and wallet_queries.go).
use backend_challenge.Base.{
  ℤ, pos, Bool, Option, none, some, List, [], ◌∷◌, ltb, length, if◌then◌else◌,
}
use backend_challenge.Text.{Text, text, str_eq, parse_int}
use backend_challenge.Errors.{Result, ok, err}
use backend_challenge.Domain.Money.{Money, new_money}
use backend_challenge.Domain.Wallet.{Uuid, Wallet, is_nil}
use backend_challenge.Postgres.{Runtime, within_transaction, find_wallet}
use backend_challenge.Application.{
  open_wallet, CursorCodec, LedgerPage, list_ledger, ReconciliationResult, reconcile_wallet,
}
use backend_challenge.Observability.{add_reconciliation_divergence}
use backend_challenge.Adapters.Machine.{Task, done, run, observe_by, ◌>>=◌, ◌>>◌}
use backend_challenge.Adapters.Http.Content.{
  Body, HttpResponse, write_json, write_error, fail_with, wallet_response, wallet_body, page_body,
  reconciliation_body, Document, ReadResult, content, rejected, read_json, OpenWalletRequest,
}

-- `uuid.Parse` of a path's value, where the nil UUID is refused too.
unfoldable pub path_id : Option Uuid → Option Uuid
path_id none = none
path_id (some id) = if is_nil id then none else some id

-- The values of a key of the query, which are none where it is absent.
unfoldable pub query_values : Text → List (Text × List Text) → List Text
query_values key [] = []
query_values key ((name, values) ∷ query) =
    let rest = query_values key query in if str_eq name key then values else rest

abbrev first_value : List Text → Text
first_value [] = []
first_value (v ∷ vs) = v

-- The limit of a page: 50 where it is absent.
limit_of : List Text → Option ℤ
limit_of [] = some (pos 50)
limit_of (v ∷ []) = parse_int v
limit_of (v ∷ w ∷ vs) = none

with_cursor : List Text → Option ℤ → Option (Text × ℤ)
with_cursor cursors none = none
with_cursor cursors (some limit) =
    if ltb 1 (length cursors) then none else some (first_value cursors, limit)

-- The cursor and the limit of a query that can be parsed and names each at most once.
unfoldable pub page_query : Option (List (Text × List Text)) → Option (Text × ℤ)
unfolding limit_of with_cursor query_values
page_query none = none
page_query (some query) =
    with_cursor (query_values (text "cursor") query) (limit_of (query_values (text "limit") query))

module _ (rt : Runtime) (encodes : Body → Bool) where
  opened : Result Wallet → HttpResponse
  opened (err e) = fail_with e
  opened (ok wallet) =
      let response = write_json encodes 201 (wallet_body (wallet_response wallet)) in
      record response { location = some wallet.id }

  open_priced : Text → OpenWalletRequest → Result Money → Task HttpResponse
  unfolding opened
  open_priced correlation_id request (err e) = done (fail_with e)
  open_priced correlation_id request (ok money) = do
    wallet ← run (
        open_wallet rt (record {
          player_id = request.player_id;
          initial_balance = money;
          correlation_id = correlation_id;
        }))
    done (opened wallet)

  create_read : Text → ReadResult OpenWalletRequest → Task HttpResponse
  unfolding open_priced
  create_read correlation_id (rejected response) = done response
  create_read correlation_id (content none) = done (write_error 400 (text "INVALID_REQUEST"))
  create_read correlation_id (content (some request)) =
      open_priced correlation_id request
        (new_money request.initial_balance.amount request.initial_balance.currency)

  -- `createWallet`
  unfoldable pub create_wallet_handler :
      Text → Option Text → Document OpenWalletRequest → Task HttpResponse
  unfolding create_read read_json
  create_wallet_handler correlation_id media_type document =
      create_read correlation_id (read_json media_type document)

  wallet_found : Result Wallet → HttpResponse
  wallet_found (err e) = fail_with e
  wallet_found (ok wallet) = write_json encodes 200 (wallet_body (wallet_response wallet))

  -- `getWallet`
  unfoldable pub get_wallet : Option Uuid → Task HttpResponse
  unfolding wallet_found path_id
  get_wallet parsed = elim (path_id parsed) [
    | none ↦ done (write_error 400 (text "INVALID_REQUEST"))
    | some id ↦ (do
      wallet ← run (within_transaction rt (find_wallet rt id))
      done (wallet_found wallet))
  ]

  listed : Result LedgerPage → HttpResponse
  listed (err e) = fail_with e
  listed (ok page) = write_json encodes 200 (page_body page)

  list_page : CursorCodec → Uuid → Option (Text × ℤ) → Task HttpResponse
  unfolding listed
  list_page codec id none = done (write_error 400 (text "INVALID_LEDGER_PAGE"))
  list_page codec id (some (cursor, limit)) = do
    page ← run (list_ledger rt codec id cursor limit)
    done (listed page)

  -- `listWalletLedger`
  unfoldable pub list_wallet_ledger :
      CursorCodec → Option Uuid → Option (List (Text × List Text)) → Task HttpResponse
  unfolding list_page path_id page_query
  list_wallet_ledger codec parsed query = elim (path_id parsed) [
    | none ↦ done (write_error 400 (text "INVALID_REQUEST"))
    | some id ↦ list_page codec id (page_query query)
  ]

  reconciled : Result ReconciliationResult → Task HttpResponse
  reconciled (err e) = done (fail_with e)
  reconciled (ok result) = do
    if result.consistent then done tt else observe_by add_reconciliation_divergence
    done (write_json encodes 200 (reconciliation_body result))

  -- `reconcileWalletBalance`
  unfoldable pub reconcile_wallet_balance : Option Uuid → Task HttpResponse
  unfolding reconciled path_id
  reconcile_wallet_balance parsed = elim (path_id parsed) [
    | none ↦ done (write_error 400 (text "INVALID_REQUEST"))
    | some id ↦ (do result ← run (reconcile_wallet rt id); reconciled result)
  ]
