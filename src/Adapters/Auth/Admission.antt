-- ===== src/Adapters/Auth/Admission.antt =====
-- Who gets through (`authorize`, internal/infrastructure/auth/middleware.go).
use backend_challenge.Base.{
  inr, inl, Bool-cases, ℕ, subst, ap, refl, sym, refl, [], ◌∷◌, ◌↔◌, Option, ◌≡◌, ℤ, ltb_ℤ, Bool,
  true, false, List, arith,
}
use backend_challenge.Text.{is_blank, fields, Text, text, is_empty, equal_fold, str_eq}
use backend_challenge.Errors.{ok, err, ok_inj, Result, fail_if-eq-ok, >>=-eq-ok, unauthenticated}
use backend_challenge.Adapters.Auth.Tokens.{
  authorize, denied, bearer, allowed, authenticate, grant_access, introspect, roles_of, Identity,
  identity_of, Answer, is_allowed, AuthSettings, TokenClaims, is_refused, is_no_provider,
  has_audience, contains,
}

-- A token of this API, by the identity provider's answer: active, of the issuer, for the audience,
-- of a subject, a bearer's, and valid at the time.
pub record IsAccepted (settings : AuthSettings) (now : ℤ) (claims : TokenClaims) : Type 0 where
  pub active : claims.active ≡ true
  pub issued : str_eq claims.issuer settings.issuer_url ≡ true
  pub named : is_empty claims.subject ≡ false
  pub unexpired : ltb_ℤ now claims.expires_at ≡ true
  pub started : ltb_ℤ now claims.not_before ≡ false
  pub bearer : equal_fold claims.token_type (text "Bearer") ≡ true
  pub addressed : has_audience settings.audience claims.audience ≡ true

-- What the roles and the provider's name allow on the two kinds of route.
pub MayUse : Bool → List Text → Text → Type 0
MayUse true roles provider_id =
    (contains (text "internal") roles ≡ true) × (is_empty provider_id ≡ true)
MayUse false roles provider_id =
    (contains (text "provider") roles ≡ true)
    × (contains (text "internal") roles ≡ false)
    × (is_no_provider provider_id ≡ false)

is_refused_lem :
    (settings : AuthSettings) (now : ℤ) (claims : TokenClaims)
    → is_refused settings now claims ≡ false
    → IsAccepted settings now claims
unfolding is_refused
is_refused_lem settings now claims h = ground (arith, h)

is_accepted_lem :
    (settings : AuthSettings) (now : ℤ) (claims : TokenClaims)
    → IsAccepted settings now claims
    → is_refused settings now claims ≡ false
unfolding is_refused
is_accepted_lem settings now claims h = ground arith

empty_is_no_provider : (id : Text) → is_empty id ≡ true → is_no_provider id ≡ true
unfolding is_no_provider is_blank
empty_is_no_provider [] h = refl
empty_is_no_provider (c ∷ id) h = absurd cc

may_use_lem :
    (settings : AuthSettings) (ask : Text → Option Answer) (now : ℤ) (internal : Bool)
    (claims : TokenClaims)
    → (is_allowed settings ask now internal (identity_of settings claims) ≡ true)
      ↔ MayUse internal (roles_of settings.audience claims.resource_access) claims.provider_id
unfolding is_allowed identity_of MayUse
may_use_lem settings ask now true claims = ground (arith, empty_is_no_provider claims.provider_id)
may_use_lem settings ask now false claims = ground arith

-- How a request comes through a route: one header of two fields, the scheme Bearer and a token,
-- which the identity provider describes by the claims.
pub record IsAdmitted (settings : AuthSettings) (ask : Text → Option Answer) (now : ℤ)
    (internal : Bool) (values : List Text) (identity : Identity) : Type 0 where
  pub value : Text
  pub scheme : Text
  pub token : Text
  pub claims : TokenClaims
  pub given : values ≡ value ∷ []
  pub parts : fields value ≡ scheme ∷ token ∷ []
  pub is_bearer : equal_fold scheme (text "Bearer") ≡ true
  pub present : is_blank token ≡ false
  pub answered : introspect (ask token) ≡ ok claims
  pub accepted : IsAccepted settings now claims
  pub identified : identity ≡ identity_of settings claims
  pub entitled :
      MayUse internal (roles_of settings.audience claims.resource_access) claims.provider_id

denied_not_allowed :
    {status : ℕ} {code : Text} {identity : Identity} → ¬ (denied status code ≡ allowed identity)
denied_not_allowed h = cc

module _ (settings : AuthSettings) (ask : Text → Option Answer) (now : ℤ) (internal : Bool) where
  authenticate_inv :
      (token : Text) (identity : Identity)
      → authenticate settings ask now token ≡ ok identity
      → (is_blank token ≡ false)
        × ((claims : TokenClaims) × (introspect (ask token) ≡ ok claims)
            × IsAccepted settings now claims
            × (identity ≡ identity_of settings claims))
  unfolding authenticate
  authenticate_inv token identity h =
      let (present, h1) = fail_if-eq-ok (is_blank token) unauthenticated _ h in
      let (claims, answered, h2) = >>=-eq-ok (introspect (ask token)) _ h1 in
      let (accepted, done) = fail_if-eq-ok (is_refused settings now claims) unauthenticated _ h2 in
      (present, (claims, answered, is_refused_lem settings now claims accepted, sym (ok_inj done)))

  granted_inv :
      (r : Result Identity) (identity : Identity)
      → grant_access settings ask now internal r ≡ allowed identity
      → (r ≡ ok identity) × (is_allowed settings ask now internal identity ≡ true)
  unfolding grant_access
  granted_inv (err e) identity h = absurd (ground arith)
  granted_inv (ok i) identity h = ground arith

  bearer_inv :
      (parts : List Text) (identity : Identity)
      → bearer settings ask now internal parts ≡ allowed identity
      → (scheme : Text) × (token : Text) × (parts ≡ scheme ∷ token ∷ [])
        × (equal_fold scheme (text "Bearer") ≡ true)
        × (authenticate settings ask now token ≡ ok identity)
        × (is_allowed settings ask now internal identity ≡ true)
  unfolding bearer
  bearer_inv [] identity h = absurd cc
  bearer_inv (scheme ∷ []) identity h = absurd cc
  bearer_inv (scheme ∷ token ∷ x ∷ parts) identity h = absurd cc
  bearer_inv (scheme ∷ token ∷ []) identity h =
      elim (Bool-cases (equal_fold scheme (text "Bearer"))) [
        | inr other ↦ absurd (denied_not_allowed (rw other at h))
        | inl is_bearer ↦
            let (known, may) =
              granted_inv (authenticate settings ask now token) identity (rw is_bearer at h) in
            (scheme, token, refl, is_bearer, known, may)
      ]

  authorize_inv :
      (values : List Text) (identity : Identity)
      → authorize settings ask now internal values ≡ allowed identity
      → IsAdmitted settings ask now internal values identity
  unfolding authorize
  authorize_inv [] identity h = absurd cc
  authorize_inv (value ∷ x ∷ values) identity h = absurd cc
  authorize_inv (value ∷ []) identity h =
      let (scheme, token, parts, is_bearer, known, may) = bearer_inv (fields value) identity h in
      let (present, (claims, answered, accepted, identified)) =
        authenticate_inv token identity known in
      record {
        value = value;
        scheme = scheme;
        token = token;
        claims = claims;
        given = refl;
        parts = parts;
        is_bearer = is_bearer;
        present = present;
        answered = answered;
        accepted = accepted;
        identified = identified;
        entitled =
            (may_use_lem settings ask now internal claims).0
              (subst (λ i. is_allowed settings ask now internal i ≡ true) identified may);
      }

  admitted_lem :
      (values : List Text) (identity : Identity)
      → IsAdmitted settings ask now internal values identity
      → authorize settings ask now internal values ≡ allowed identity
  unfolding authorize bearer authenticate grant_access
  admitted_lem values identity h =
      rw
        (
          h.given,
          h.parts,
          h.is_bearer,
          h.present,
          h.answered,
          is_accepted_lem settings now h.claims h.accepted,
          (may_use_lem settings ask now internal h.claims).1 h.entitled,
        )
        (ap allowed (sym h.identified))

  -- A request comes through a route just with one header Authorization of two fields, the scheme
  -- Bearer and a token that is not blank, where the identity provider answers with status 200 and
  -- claims that make the token one of this API's. On an internal route it has the role internal and
  -- no provider's name; the role provider makes no difference there. On a provider's route it has
  -- the role provider, not the role internal, and a provider's name that is not blank, valid UTF-8
  -- and of at most 100 characters. The identity is that of the claims.
  pub authorize_iff :
      (values : List Text) (identity : Identity)
      → (authorize settings ask now internal values ≡ allowed identity)
        ↔ IsAdmitted settings ask now internal values identity
  authorize_iff values identity = (authorize_inv values identity, admitted_lem values identity)
