-- ===== src/Api/Routes.antt =====
-- What a request keeps follows from the two use cases that write to the tables
-- (internal/infrastructure/httpapi/api.go).
use backend_challenge.Base.{
  some_inj, ap, Bool-cases, ◌∙◌, Bool, true, false, ℤ, ◌≡◌, refl, subst, sym, Option, some, none,
  [], inl, inr, IsInt64,
}
use backend_challenge.Text.{is_blank, Text}
use backend_challenge.Errors.{err, ok, Result}
use backend_challenge.Domain.Money.{Money}
use backend_challenge.Postgres.{query, Db, Action, called}
use backend_challenge.Application.{open_wallet, OpenWalletInput, execute}
use backend_challenge.Replay.Reads.{query-Reads, Reads}
use backend_challenge.Adapters.Auth.{Identity, Access, allowed, denied, authorize}
use backend_challenge.Adapters.Tasks.{TaskKeeps, ActionKeeps}
use backend_challenge.Adapters.Machine.{time_now}
use backend_challenge.Adapters.Http.{
  Services, Request, Route, open_route, wager_route, wallet_route, ledger_route, reconcile_route,
  transaction_route, external_route, metrics_route, live_route, ready_route, handle_route, ready,
  keep_depth, check_sqs, is_ok, wager_input, WagerRequest, read_json, content, guarded,
  after_access, Audience, everyone, only, serve, correlation_of, audience_of,
}
use backend_challenge.Api.Handlers.{
  create_wallet-Keeps, create_wager-Keeps, get_wallet-Keeps, list_wallet_ledger-Keeps,
  reconcile-Keeps, get_transaction-Keeps,
}
use backend_challenge.Api.Reads.{
  transaction_wallet-Reads, list_ledger-Reads, reconcile_wallet-Reads, transaction_name-Reads,
  transaction_id-Reads,
}

module _ (P : Db → Type 0) where
  pub Reads-Keep : {A : Type 0} (action : Action A) → Reads action → ActionKeeps P action
  unfolding Reads
  Reads-Keep action reads w h = rw (reads w) h

  keep_depth-Keeps : (depth : Result ℤ) → TaskKeeps P (keep_depth depth)
  keep_depth-Keeps (ok depth) m h = h
  keep_depth-Keeps (err e) m h = h

  ready-Keeps : (services : Services) → TaskKeeps P (ready services)
  unfolding ready check_sqs is_ok
  ready-Keeps services m h =
      let (ping, w) = query services.runtime (λ now db. ok tt) m.world in
      keep_depth-Keeps (services.check_sqs w.calls) (record m { world = called w })
        (Reads-Keep (query services.runtime (λ now db. ok tt)) (query-Reads services.runtime _)
          m.world h)

everyone_not_only : {b : Bool} → ¬ (everyone ≡ only b)
everyone_not_only h = cc

only_inj : {b c : Bool} → only b ≡ only c → b ≡ c
only_inj h = cc

-- The access of a request, at the time `now` in Unix seconds.
abbrev pub access : Services → Request → Bool → ℤ → Access
access services request internal now =
    authorize services.auth services.ask now internal request.authorization

module _ (P : Db → Type 0) (services : Services) (request : Request) where
  handle_route-Keeps :
      (route : Route) (correlation : Text) (identity : Option Identity)
      → (route ≡ open_route
          → (input : OpenWalletInput) → IsInt64 input.initial_balance.amount
          → ActionKeeps P (open_wallet services.runtime input))
      → (route ≡ wager_route
          → (caller : Identity) (wager : WagerRequest) (key : Text) (money : Money)
          → identity ≡ some caller
          → read_json request.media_type request.wager_document ≡ content (some wager)
          → IsInt64 money.amount
          → ActionKeeps P (
              execute services.runtime caller.provider_id
                (wager_input wager key money correlation)))
      → TaskKeeps P (handle_route services route correlation request identity)
  unfolding handle_route
  handle_route-Keeps open_route correlation identity opens plays =
      create_wallet-Keeps P services.runtime services.encodes correlation request.media_type
        request.wallet_document (opens refl)
  handle_route-Keeps wager_route correlation identity opens plays =
      create_wager-Keeps P services.runtime services.encodes identity correlation
        request.idempotency_keys request.media_type request.wager_document (plays refl)
  handle_route-Keeps (wallet_route id) correlation identity opens plays =
      get_wallet-Keeps P services.runtime services.encodes id
        (λ found. Reads-Keep P _ (transaction_wallet-Reads services.runtime found))
  handle_route-Keeps (ledger_route id values) correlation identity opens plays =
      list_wallet_ledger-Keeps P services.runtime services.encodes services.codec id values
        (λ found cursor limit.
          Reads-Keep P _ (list_ledger-Reads services.runtime services.codec found cursor limit))
  handle_route-Keeps (reconcile_route id) correlation identity opens plays =
      reconcile-Keeps P services.runtime services.encodes id
        (λ found. Reads-Keep P _ (reconcile_wallet-Reads services.runtime found))
  handle_route-Keeps (transaction_route id) correlation identity opens plays =
      get_transaction-Keeps P services.runtime services.encodes identity [] [] id
        (λ provider name. Reads-Keep P _ (transaction_name-Reads services.runtime provider name))
        (λ provider found. Reads-Keep P _ (transaction_id-Reads services.runtime provider found))
  handle_route-Keeps (external_route provider_id name) correlation identity opens plays =
      get_transaction-Keeps P services.runtime services.encodes identity provider_id name none
        (λ provider name. Reads-Keep P _ (transaction_name-Reads services.runtime provider name))
        (λ provider found. Reads-Keep P _ (transaction_id-Reads services.runtime provider found))
  handle_route-Keeps metrics_route correlation identity opens plays = λ m h. h
  handle_route-Keeps live_route correlation identity opens plays = λ m h. h
  handle_route-Keeps ready_route correlation identity opens plays = ready-Keeps P services

  after_access-Keeps :
      (correlation : Text) (found : Access)
      → ((identity : Identity)
          → found ≡ allowed identity
          → TaskKeeps P (handle_route services request.route correlation request (some identity)))
      → TaskKeeps P (after_access services correlation request found)
  unfolding after_access
  after_access-Keeps correlation (denied status code) keeps = λ m h. h
  after_access-Keeps correlation (allowed identity) keeps = keeps identity refl

  guarded-Keeps :
      (correlation : Text) (audience : Audience)
      → (audience ≡ everyone
          → TaskKeeps P (handle_route services request.route correlation request none))
      → ((internal : Bool) (now : ℤ) (identity : Identity)
          → audience ≡ only internal
          → access services request internal now ≡ allowed identity
          → TaskKeeps P (handle_route services request.route correlation request (some identity)))
      → TaskKeeps P (guarded services correlation request audience)
  unfolding guarded time_now
  guarded-Keeps correlation everyone unguarded keeps m = unguarded refl m
  guarded-Keeps correlation (only internal) unguarded keeps m =
      after_access-Keeps correlation
        (access services request internal (services.unix (services.runtime.now m.world.calls)))
        (λ identity found. keeps internal _ identity refl found)
        (record m { world = called m.world })

  correlation_of-Keeps : (given : Text) → TaskKeeps P (correlation_of services given)
  unfolding correlation_of
  correlation_of-Keeps given m h = elim (Bool-cases (is_blank given)) [
    | inl missing ↦ rw (missing, correlation_of) h
    | inr present ↦ rw (present, correlation_of) h
  ]

  access_as :
      (internal wanted : Bool) (now : ℤ) (identity : Identity)
      → access services request internal now ≡ allowed identity
      → only internal ≡ only wanted
      → access services request wanted now ≡ allowed identity
  access_as internal wanted now identity found same =
      subst (λ b. access services request b now ≡ allowed identity) (only_inj same) found

  -- What the request keeps, where its access to the two use cases that write is known.
  pub serve-Keeps :
      ((now : ℤ) (identity : Identity) (input : OpenWalletInput)
        → request.route ≡ open_route
        → access services request true now ≡ allowed identity
        → IsInt64 input.initial_balance.amount
        → ActionKeeps P (open_wallet services.runtime input))
      → ((correlation : Text) (now : ℤ) (identity : Identity) (wager : WagerRequest) (key : Text)
            (money : Money)
          → request.route ≡ wager_route
          → access services request false now ≡ allowed identity
          → read_json request.media_type request.wager_document ≡ content (some wager)
          → IsInt64 money.amount
          → ActionKeeps P (
              execute services.runtime identity.provider_id
                (wager_input wager key money correlation)))
      → TaskKeeps P (serve services request)
  unfolding serve audience_of
  serve-Keeps opens plays m h =
      guarded-Keeps (correlation_of services request.correlation m).0 (audience_of request.route)
        (λ unguarded.
          handle_route-Keeps request.route _ none
            (λ is_open. absurd (everyone_not_only (sym unguarded ∙ ap audience_of is_open)))
            (λ is_wager. absurd (everyone_not_only (sym unguarded ∙ ap audience_of is_wager))))
        (λ internal now identity guard found.
          handle_route-Keeps request.route _ (some identity)
            (λ is_open input.
              opens now identity input is_open
                (access_as internal true now identity found (sym guard ∙ ap audience_of is_open)))
            (λ is_wager caller wager key money same. plays _ now caller wager key money is_wager (
              access_as internal false now identity found (sym guard ∙ ap audience_of is_wager)
              ∙ ap allowed (some_inj same))))
        (correlation_of services request.correlation m).1
        (correlation_of-Keeps request.correlation m h)
