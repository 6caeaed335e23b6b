-- ===== src/Api/Entitlement.antt =====
-- Who may change the tables by a request (internal/infrastructure/httpapi/api.go and
-- internal/application/process_wager.go).
use backend_challenge.Text.{is_blank, Text, str_eq, str_eq_sound}
use backend_challenge.Replay.Reads.{Reads, >>=-Reads, query-Reads}
use backend_challenge.Api.Routes.{Reads-Keep, access, serve-Keeps}
use backend_challenge.Errors.{ok, err, sentinel, Result, Error, provider_not_authorized}
use backend_challenge.Books.Logic.{bind-err}
use backend_challenge.Base.{sym, ◌⊎◌, inr, inl, Bool-cases, some, false, true, ◌≡◌, ℤ, refl}
use backend_challenge.Application.{
  check_input, ProcessWagerInput, context_error, execute_request, execute,
}
use backend_challenge.Adapters.Http.{
  serve, wager_input, content, read_json, wager_route, WagerRequest, open_route, Request, Services,
}
use backend_challenge.Adapters.Auth.{allowed, Identity}
use backend_challenge.Postgres.{◌>>=◌, lift, Action, query, Runtime}
use backend_challenge.Adapters.Machine.{Machine}

-- A reason for which a request may write: it opens a wallet with an internal token, or asks for a
-- wager of the provider of its token.
pub data IsEntitled (services : Services) (request : Request) : Type 0 where
  opening :
      (now : ℤ) (identity : Identity)
      → request.route ≡ open_route
      → access services request true now ≡ allowed identity
      → IsEntitled services request
  wagering :
      (now : ℤ) (identity : Identity) (wager : WagerRequest)
      → request.route ≡ wager_route
      → access services request false now ≡ allowed identity
      → read_json request.media_type request.wager_document ≡ content (some wager)
      → wager.provider_id ≡ identity.provider_id
      → IsEntitled services request

check_input-foreign :
    (provider : Text) (input : ProcessWagerInput)
    → str_eq provider input.provider_id ≡ false
    → check_input provider input ≡ err (sentinel provider_not_authorized)
unfolding check_input
check_input-foreign provider input foreign = elim (Bool-cases (is_blank provider)) [
  | inl blank ↦ rw (blank, check_input) refl
  | inr kept ↦ rw (kept, foreign, check_input) refl
]

refused-Reads :
    {A B : Type 0} (r : Result A) (f : A → Action B) (e : Error) → r ≡ err e → Reads (lift r >>= f)
unfolding Reads
refused-Reads r f e refused w = rw (bind-err (lift r) f w e refused) refl

-- An operation for another provider is refused before the first statement.
foreign-Reads :
    (rt : Runtime) (provider : Text) (input : ProcessWagerInput)
    → str_eq provider input.provider_id ≡ false
    → Reads (execute rt provider input)
unfolding execute execute_request context_error
foreign-Reads rt provider input foreign =
    >>=-Reads (query rt (λ now db. ok tt)) _ (query-Reads rt (λ now db. ok tt)) (λ given.
      refused-Reads (check_input provider input) _ (sentinel provider_not_authorized)
        (check_input-foreign provider input foreign))

-- A request that changes the tables is entitled to: after `Handler` the tables are as they were, or
-- the request is one to open a wallet and `authorize` lets its token through to the internal routes,
-- or it is a request for a wager whose token `authorize` lets through to the providers' routes, and
-- the document that is read names the provider of that token. So no token writes for another
-- provider, and no other route writes.
pub serve-IsEntitled :
    (services : Services) (request : Request) (m : Machine)
    → ((serve services request m).1.world.db ≡ m.world.db) ⊎ IsEntitled services request
unfolding wager_input
serve-IsEntitled services request m =
    serve-Keeps (λ db. (db ≡ m.world.db) ⊎ IsEntitled services request) services request
      (λ now identity input is_open found range w h. inr (opening now identity is_open found))
      (λ correlation now identity wager key money is_wager found read range w h.
        let input = wager_input wager key money correlation in
        elim (Bool-cases (str_eq identity.provider_id wager.provider_id)) [
          | inl own ↦ inr (
              wagering now identity wager is_wager found read
                (sym (str_eq_sound identity.provider_id wager.provider_id own)))
          | inr foreign ↦
              Reads-Keep (λ db. (db ≡ m.world.db) ⊎ IsEntitled services request)
                (execute services.runtime identity.provider_id input)
                (foreign-Reads services.runtime identity.provider_id input foreign) w h
        ])
      m (inl refl)
