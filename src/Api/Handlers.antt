-- ===== src/Api/Handlers.antt =====
-- Each handler keeps what its use case keeps (internal/infrastructure/httpapi/api.go and
-- wallet_queries.go).
use backend_challenge.Base.{
  Bool-cases, ◌≡◌, ℤ, Bool, Option, none, some, List, inl, inr, Option-cases, IsInt64, not, ◌&&◌,
}
use backend_challenge.Text.{Text, is_empty, str_eq}
use backend_challenge.Errors.{Result-cases}
use backend_challenge.Domain.Money.{Money, new_money}
use backend_challenge.Domain.Money.Range.{new_money-IsInt64}
use backend_challenge.Domain.Wallet.{Uuid}
use backend_challenge.Postgres.{
  called, Runtime, Db, within_transaction, find_wallet, find_by_id, find_by_external_id,
}
use backend_challenge.Application.{
  CursorCodec, list_ledger, reconcile_wallet, open_wallet, OpenWalletInput, execute,
}
use backend_challenge.Adapters.Auth.{Identity}
use backend_challenge.Adapters.Tasks.{TaskKeeps, ActionKeeps}
use backend_challenge.Adapters.Http.{
  idempotency_key, wager_input, content, WagerRequest, read_json, ReadResult-cases,
  OpenWalletRequest, Document, page_query, Body, get_wallet, list_wallet_ledger,
  reconcile_wallet_balance, get_transaction, create_wallet_handler, create_wager_handler, path_id,
}
use backend_challenge.Adapters.Machine.{time_since, time_now}

module _ (P : Db → Type 0) (rt : Runtime) (encodes : Body → Bool) where
  pub get_wallet-Keeps :
      (id : Option Uuid)
      → ((id : Uuid) → ActionKeeps P (within_transaction rt (find_wallet rt id)))
      → TaskKeeps P (get_wallet rt encodes id)
  unfolding get_wallet
  get_wallet-Keeps id keeps m h = elim (Option-cases (path_id id)) [
    | inl unread ↦ rw (unread, get_wallet) h
    | inr (wallet_id, found) ↦ rw (found, get_wallet) (keeps wallet_id m.world h)
  ]

  pub list_wallet_ledger-Keeps :
      (codec : CursorCodec) (id : Option Uuid) (query : Option (List (Text × List Text)))
      → ((id : Uuid) (cursor : Text) (limit : ℤ)
          → ActionKeeps P (list_ledger rt codec id cursor limit))
      → TaskKeeps P (list_wallet_ledger rt encodes codec id query)
  unfolding list_wallet_ledger
  list_wallet_ledger-Keeps codec id query keeps m h = elim (Option-cases (path_id id)) [
    | inl unread ↦ rw (unread, list_wallet_ledger) h
    | inr (wallet_id, found) ↦ elim (Option-cases (page_query query)) [
      | inl bad ↦ rw (found, list_wallet_ledger, bad) h
      | inr ((cursor, limit), good) ↦
          rw (found, list_wallet_ledger, good) (keeps wallet_id cursor limit m.world h)
    ]
  ]

  pub reconcile-Keeps :
      (id : Option Uuid)
      → ((id : Uuid) → ActionKeeps P (reconcile_wallet rt id))
      → TaskKeeps P (reconcile_wallet_balance rt encodes id)
  unfolding reconcile_wallet_balance
  reconcile-Keeps id keeps m h = elim (Option-cases (path_id id)) [
    | inl unread ↦ rw (unread, reconcile_wallet_balance) h
    | inr (wallet_id, found) ↦ elim (Result-cases (reconcile_wallet rt wallet_id m.world).0) [
      | inr (e, failed) ↦ rw (found, reconcile_wallet_balance, failed) (keeps wallet_id m.world h)
      | inl (result, reconciled) ↦ elim (Bool-cases result.consistent) [
        | inl same ↦
            rw (found, reconcile_wallet_balance, reconciled, same) (keeps wallet_id m.world h)
        | inr apart ↦
            rw (found, reconcile_wallet_balance, reconciled, apart) (keeps wallet_id m.world h)
      ]
    ]
  ]

  pub get_transaction-Keeps :
      (identity : Option Identity) (provider external_id : Text) (id : Option Uuid)
      → ((provider external_id : Text)
          → ActionKeeps P (within_transaction rt (find_by_external_id rt provider external_id)))
      → ((provider : Text) (id : Uuid)
          → ActionKeeps P (within_transaction rt (find_by_id rt provider id)))
      → TaskKeeps P (get_transaction rt encodes identity provider external_id id)
  unfolding get_transaction
  get_transaction-Keeps none provider external_id id by_name by_id m h = h
  get_transaction-Keeps (some identity) provider external_id id by_name by_id m h =
      elim (Bool-cases (not (is_empty provider) && not (str_eq provider identity.provider_id))) [
        | inl foreign ↦ rw foreign h
        | inr own ↦ elim (Bool-cases (is_empty external_id)) [
          | inr named ↦ rw (own, named) (by_name identity.provider_id external_id m.world h)
          | inl unnamed ↦ elim (Option-cases (path_id id)) [
            | inl unread ↦ rw (own, unnamed, unread) h
            | inr (wager_id, found) ↦
                rw (own, unnamed, found) (by_id identity.provider_id wager_id m.world h)
          ]
        ]
      ]

  pub create_wallet-Keeps :
      (correlation : Text) (media_type : Option Text) (document : Document OpenWalletRequest)
      → ((input : OpenWalletInput)
          → IsInt64 input.initial_balance.amount
          → ActionKeeps P (open_wallet rt input))
      → TaskKeeps P (create_wallet_handler rt encodes correlation media_type document)
  unfolding create_wallet_handler
  create_wallet-Keeps correlation media_type document keeps m h =
      elim (ReadResult-cases (read_json media_type document)) [
        | inl (response, bad) ↦ rw bad h
        | inr (inl empty) ↦ rw empty h
        | inr (inr (request, good)) ↦
            elim (Result-cases
              (new_money request.initial_balance.amount request.initial_balance.currency)) [
                | inr (e, unpriced) ↦ rw (good, unpriced) h
                | inl (money, priced) ↦
                    rw (good, priced)
                      (keeps _
                        (new_money-IsInt64 request.initial_balance.amount
                          request.initial_balance.currency money priced)
                        m.world h)
              ]
      ]

  -- The use case is run only for a caller whose identity is known, and on a request that is read.
  pub create_wager-Keeps :
      (identity : Option Identity) (correlation : Text) (keys : List Text)
      (media_type : Option Text) (document : Document WagerRequest)
      → ((caller : Identity) (request : WagerRequest) (key : Text) (money : Money)
          → identity ≡ some caller
          → read_json media_type document ≡ content (some request)
          → IsInt64 money.amount
          → ActionKeeps P
              (execute rt caller.provider_id (wager_input request key money correlation)))
      → TaskKeeps P (create_wager_handler rt encodes identity correlation keys media_type document)
  unfolding create_wager_handler time_now time_since
  create_wager-Keeps identity correlation keys media_type document keeps m h =
      elim (Option-cases (idempotency_key keys)) [
        | inl unkeyed ↦ rw unkeyed h
        | inr (key, keyed) ↦ elim (ReadResult-cases (read_json media_type document)) [
          | inl (response, bad) ↦ rw (keyed, bad) h
          | inr (inl empty) ↦ rw (keyed, empty) h
          | inr (inr (request, good)) ↦
              elim (Result-cases (new_money request.money.amount request.money.currency)) [
                | inr (e, unpriced) ↦ rw (keyed, good, unpriced) h
                | inl (money, priced) ↦ elim (Option-cases identity) [
                  | inl unknown ↦ rw (keyed, good, priced, unknown) h
                  | inr (caller, known) ↦
                      let range =
                        new_money-IsInt64 request.money.amount request.money.currency money
                          priced in
                      let kept =
                        keeps caller request key money known good range (called m.world) h in
                      elim (Result-cases
                        (execute rt caller.provider_id (wager_input request key money correlation)
                          (called m.world)).0) [
                            | inl (result, executed) ↦
                                rw (keyed, good, priced, known, executed) kept
                            | inr (e, failed) ↦ rw (keyed, good, priced, known, failed) kept
                          ]
                ]
              ]
        ]
      ]
