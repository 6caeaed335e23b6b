-- ===== src/Tests/Auth.antt =====
-- A token with both roles and no provider's name on an internal route.
use backend_challenge.Adapters.Policy.{one_string}
use backend_challenge.Text.{is_blank}
use backend_challenge.Base.{◌↔◌, ◌≡◌, if◌then◌else◌, some, [], true, ◌∷◌, pos, Option, List, refl}
use backend_challenge.Adapters.Auth.{
  has_audience, is_allowed, allowed, grant_access, is_refused, introspect, authenticate, Answer,
  identity_of, TokenClaims, bearer, AuthSettings, Identity, authorize,
}
use backend_challenge.Text.{equal_fold, fields, str_eq, text, Text}
use backend_challenge.Adapters.Auth.Admission.{authorize_iff, IsAdmitted}

abbrev pub settings : AuthSettings
settings = record { issuer_url = text "https://id"; audience = text "api" }

-- The claims of a subject with the roles and the provider's name.
abbrev pub claims_of : List Text → Text → TokenClaims
claims_of roles provider_id = record {
  active = true;
  issuer = text "https://id";
  audience = some (one_string (text "api"));
  subject = text "s";
  expires_at = pos 100;
  not_before = pos 0;
  token_type = text "Bearer";
  provider_id = provider_id;
  resource_access = (text "api", roles) ∷ [];
}

-- The token "i" is an internal one with both roles, any other is a provider's.
abbrev pub ask : Text → Option Answer
ask token = some (record {
  status = 200;
  body =
      if str_eq token (text "i")
      then some (claims_of (text "internal" ∷ text "provider" ∷ []) [])
      else some (claims_of (text "provider" ∷ []) (text "p"));
})

abbrev both_roles : Identity
both_roles = identity_of settings (claims_of (text "internal" ∷ text "provider" ∷ []) [])

authorize_iff_example :
    (authorize settings ask (pos 5) true (text "Bearer i" ∷ []) ≡ allowed both_roles)
    ↔ IsAdmitted settings ask (pos 5) true (text "Bearer i" ∷ []) both_roles
authorize_iff_example = authorize_iff settings ask (pos 5) true (text "Bearer i" ∷ []) both_roles

-- Such a token comes through.
both_roles_allowed : authorize settings ask (pos 5) true (text "Bearer i" ∷ []) ≡ allowed both_roles
unfolding authorize bearer authenticate introspect is_refused identity_of grant_access is_allowed
    fields equal_fold str_eq is_blank has_audience
both_roles_allowed = refl
