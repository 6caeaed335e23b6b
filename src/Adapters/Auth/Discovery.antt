-- ===== src/Adapters/Auth/Discovery.antt =====
-- The start of `NewAuthenticator` (internal/infrastructure/auth/authenticator.go).
use backend_challenge.Base.{ℕ, Bool, not, ◌&&◌, Option, none, some, ◌==◌, if◌then◌else◌}
use backend_challenge.Text.{Text, text, str_eq, is_empty}
use backend_challenge.Errors.{Result, ok, fail, ◌>>=◌, identity_provider_unavailable}
use backend_challenge.Adapters.Settings.{Url}
use backend_challenge.Adapters.Auth.Tokens.{Answer, introspect}

-- The fields of the discovery document, and the answer that holds it.
pub record Discovery : Type 0 where
  pub issuer : Text
  pub introspection_endpoint : Text

pub record DiscoveryAnswer : Type 0 where
  pub status : ℕ
  pub body : Option Discovery

-- The endpoint is at the issuer's own address.
unfoldable pub is_own : Url → Url → Bool
is_own issuer endpoint =
    str_eq endpoint.scheme issuer.scheme
    && str_eq endpoint.host issuer.host
    && not endpoint.has_user
    && is_empty endpoint.fragment

-- An issuer that is no URL has been refused by the settings.
unfoldable pub check_endpoint : Option Url → Option Url → Result Url
unfolding is_own
check_endpoint (some issuer) (some endpoint) =
    if is_own issuer endpoint then ok endpoint else fail identity_provider_unavailable
check_endpoint issuer endpoint = fail identity_provider_unavailable

unfoldable pub endpoint_of : (Text → Option Url) → Text → Option Discovery → Result Url
unfolding check_endpoint
endpoint_of parse_url issuer_url none = fail identity_provider_unavailable
endpoint_of parse_url issuer_url (some discovery) =
    if str_eq discovery.issuer issuer_url
    then check_endpoint (parse_url issuer_url) (parse_url discovery.introspection_endpoint)
    else fail identity_provider_unavailable

unfoldable pub discover : (Text → Option Url) → Text → Option DiscoveryAnswer → Result Url
unfolding endpoint_of
discover parse_url issuer_url none = fail identity_provider_unavailable
discover parse_url issuer_url (some answer) =
    if answer.status == 200
    then endpoint_of parse_url issuer_url answer.body
    else fail identity_provider_unavailable

-- The hook `OnStart`: `ask` introspects a token at an endpoint, and the first one is a fictitious
-- token, which has to be answered. The endpoint is kept.
unfoldable pub start_authenticator :
    (Text → Option Url) → (Url → Text → Option Answer) → Text → Option DiscoveryAnswer → Result Url
unfolding discover
start_authenticator parse_url ask issuer_url answer = do
  endpoint ← discover parse_url issuer_url answer
  claims ← introspect (ask endpoint (text "startup-check"))
  ok endpoint
