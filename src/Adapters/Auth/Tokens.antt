-- ===== src/Adapters/Auth/Tokens.antt =====
-- internal/infrastructure/auth/authenticator.go and middleware.go
use backend_challenge.Base.{
  ℕ, ℤ, ltb_ℤ, ltb, ◌==◌, Bool, false, not, ◌&&◌, ◌||◌, Option, none, some, List, [], ◌∷◌, any,
  if◌then◌else◌,
}
use backend_challenge.Text.{
  Text, text, str_eq, is_empty, is_blank, equal_fold, fields, valid_string, rune_count,
}
use backend_challenge.Errors.{
  Result, ok, err, fail, fail_if, is_error, ◌>>=◌, ◌>>◌, unauthenticated,
  identity_provider_unavailable,
}
use backend_challenge.Adapters.Policy.{StringsJson, one_string, strings, null, other_value}

-- The settings that a token is checked against.
pub record AuthSettings : Type 0 where
  pub issuer_url : Text
  pub audience : Text

pub record Identity : Type 0 where
  pub subject : Text
  pub provider_id : Text
  pub provider : Bool
  pub internal : Bool

-- The fields of the introspection's answer; an absent field has its zero value.
pub record TokenClaims : Type 0 where
  pub active : Bool
  pub issuer : Text
  pub audience : Option StringsJson
  pub subject : Text
  pub expires_at : ℤ
  pub not_before : ℤ
  pub token_type : Text
  pub provider_id : Text
  pub resource_access : List (Text × List Text)

-- `slices.Contains`
unfoldable pub contains : Text → List Text → Bool
contains s ss = any (λ t. str_eq t s) ss

-- `hasAudience`
unfoldable pub has_audience : Text → Option StringsJson → Bool
unfolding contains
has_audience expected none = false
has_audience expected (some (one_string single)) = str_eq single expected
has_audience expected (some (strings many)) = contains expected many
has_audience expected (some null) = str_eq [] expected
has_audience expected (some other_value) = false

-- `claims.ResourceAccess[audience].Roles`
unfoldable pub roles_of : Text → List (Text × List Text) → List Text
roles_of audience [] = []
roles_of audience ((client, roles) ∷ access) =
    let rest = roles_of audience access in if str_eq client audience then roles else rest

-- An answer of the identity provider: its status, and the body if it is JSON of the expected form.
pub record Answer : Type 0 where
  pub status : ℕ
  pub body : Option TokenClaims

decoded : Option TokenClaims → Result TokenClaims
decoded none = fail identity_provider_unavailable
decoded (some claims) = ok claims

-- `introspect` on the outcome of the request, which is none where it fails.
unfoldable pub introspect : Option Answer → Result TokenClaims
unfolding decoded
introspect none = fail identity_provider_unavailable
introspect (some answer) =
    if answer.status == 200 then decoded answer.body else fail identity_provider_unavailable

-- The claims that make a token none of this API's, at a time in seconds.
unfoldable pub is_refused : AuthSettings → ℤ → TokenClaims → Bool
is_refused settings now claims =
    not claims.active
    || not (str_eq claims.issuer settings.issuer_url)
    || is_empty claims.subject
    || not (ltb_ℤ now claims.expires_at)
    || ltb_ℤ now claims.not_before
    || not (equal_fold claims.token_type (text "Bearer"))
    || not (has_audience settings.audience claims.audience)

-- The provider's name makes no provider: it is blank, no UTF-8 or too long.
unfoldable pub is_no_provider : Text → Bool
is_no_provider id = is_blank id || not (valid_string id) || ltb 100 (rune_count id)

unfoldable pub identity_of : AuthSettings → TokenClaims → Identity
unfolding contains roles_of is_no_provider
identity_of settings claims =
    let roles = roles_of settings.audience claims.resource_access in
    record {
      subject = claims.subject;
      provider_id = claims.provider_id;
      provider =
          if is_no_provider claims.provider_id then false else contains (text "provider") roles;
      internal = contains (text "internal") roles;
    }

-- What the middleware lets through, or its answer.
pub data Access : Type 0 where
  allowed : Identity → Access
  denied : ℕ → Text → Access

-- `ask` stands for the introspection of a token by the identity provider.
module _ (settings : AuthSettings) (ask : Text → Option Answer) (now : ℤ) where
  -- `Authenticate`
  unfoldable pub authenticate : Text → Result Identity
  unfolding introspect is_refused identity_of
  authenticate token = do
    fail_if (is_blank token) unauthenticated
    claims ← introspect (ask token)
    fail_if (is_refused settings now claims) unauthenticated
    ok (identity_of settings claims)

  unfoldable pub is_allowed : Bool → Identity → Bool
  is_allowed internal identity =
      if internal
      then identity.internal && not identity.provider && is_empty identity.provider_id
      else identity.provider && not identity.internal

  unfoldable pub grant_access : Bool → Result Identity → Access
  unfolding is_allowed
  grant_access internal (err e) =
      if is_error e identity_provider_unavailable
      then denied 503 (text "IDENTITY_PROVIDER_UNAVAILABLE")
      else denied 401 (text "UNAUTHENTICATED")
  grant_access internal (ok identity) =
      if is_allowed internal identity then allowed identity else denied 403 (text "FORBIDDEN")

  unfoldable pub bearer : Bool → List Text → Access
  unfolding authenticate grant_access
  bearer internal (scheme ∷ token ∷ []) =
      if equal_fold scheme (text "Bearer")
      then grant_access internal (authenticate token)
      else denied 401 (text "UNAUTHENTICATED")
  bearer internal parts = denied 401 (text "UNAUTHENTICATED")

  -- `authorize` on the values of the header Authorization, for an internal route or a provider's.
  unfoldable pub authorize : Bool → List Text → Access
  unfolding bearer fields
  authorize internal (value ∷ []) = bearer internal (fields value)
  authorize internal values = denied 401 (text "UNAUTHENTICATED")
