-- ===== src/Adapters/Settings.antt =====
-- The settings from the environment (internal/infrastructure/auth/config.go,
-- internal/infrastructure/messaging/consumer_config.go and sqs.go,
-- internal/infrastructure/httpapi/config.go and internal/infrastructure/postgres/config.go). An
-- error of a setting has no name, so it is `other`.
use backend_challenge.Base.{
  ℤ, pos, ltb_ℤ, Bool, true, false, not, ◌&&◌, ◌||◌, Option, none, some, List, [], ◌∷◌, any,
  if◌then◌else◌,
}
use backend_challenge.Text.{Text, text, str_eq, is_empty, is_blank, has_suffix}
use backend_challenge.Errors.{Result, ok, err, other, ◌>>=◌, ◌>>◌}

-- `os.LookupEnv`, and what the standard library makes of texts: `time.ParseDuration`, `url.Parse`,
-- whether `net.SplitHostPort` succeeds, and the JSON object of the senders.
pub record Url : Type 0 where
  pub scheme : Text
  pub host : Text
  pub path : Text
  pub has_user : Bool
  pub raw_query : Text
  pub fragment : Text

pub record Environment : Type 0 where
  pub lookup : Text → Option Text
  pub parse_duration : Text → Option ℤ
  pub parse_url : Text → Option Url
  pub splits : Text → Bool
  pub decode_senders : Text → Option (List (Text × Text))

-- `os.Getenv`
unfoldable pub getenv : Environment → Text → Text
getenv env name = elim (env.lookup name) [ none ↦ [] | some value ↦ value ]

pub check : Bool → Result (Unit {0})
check true = ok tt
check false = err other

-- An address of a host by HTTP, without a user.
unfoldable pub is_address : Url → Bool
is_address u = not (
    is_empty u.host
    || not (str_eq u.scheme (text "http")) && not (str_eq u.scheme (text "https"))
    || u.has_user)

-- The settings of the authentication.
pub record AuthConfig : Type 0 where
  pub issuer_url : Text
  pub audience : Text
  pub client_id : Text
  pub client_secret : Text

unfoldable pub is_issuer : Text → Option Url → Bool
unfolding is_address
is_issuer issuer_url none = false
is_issuer issuer_url (some u) =
    is_address u
    && is_empty u.raw_query
    && is_empty u.fragment
    && not (has_suffix issuer_url (text "/"))

-- `Config.validate` of the authentication
unfoldable pub validate_auth_config : Environment → AuthConfig → Result (Unit {0})
unfolding check is_issuer
validate_auth_config env c = do
  check (is_issuer c.issuer_url (env.parse_url c.issuer_url))
  check (not (is_blank c.audience || is_blank c.client_id || is_blank c.client_secret))

-- `NewConfig` of the authentication
unfoldable pub new_auth_config : Environment → Result AuthConfig
unfolding validate_auth_config getenv
new_auth_config env =
    let c : AuthConfig = record {
      issuer_url = getenv env (text "OIDC_ISSUER_URL");
      audience = getenv env (text "OIDC_AUDIENCE");
      client_id = getenv env (text "OIDC_CLIENT_ID");
      client_secret = getenv env (text "OIDC_CLIENT_SECRET");
    } in
    validate_auth_config env c >> ok c

-- The settings of the queue's consumer.
pub record ConsumerConfig : Type 0 where
  pub queue_url : Text
  pub provider_by_sender : List (Text × Text)
  pub processing_timeout : ℤ

unfoldable pub is_fifo : Option Url → Bool
unfolding is_address
is_fifo none = false
is_fifo (some u) = is_address u && has_suffix u.path (text ".fifo")

unfoldable pub is_bad_sender : Text × Text → Bool
is_bad_sender (sender, provider) = is_blank sender || str_eq sender (text "*") || is_blank provider

abbrev no_senders : List (Text × Text) → Bool
no_senders [] = true
no_senders (s ∷ senders) = false

-- `ConsumerConfig.validate`
unfoldable pub validate_consumer_config : Environment → ConsumerConfig → Result (Unit {0})
unfolding check is_fifo is_bad_sender
validate_consumer_config env c = do
  check (is_fifo (env.parse_url c.queue_url))
  check (not (no_senders c.provider_by_sender))
  check (not (any is_bad_sender c.provider_by_sender))
  check (ltb_ℤ (pos 0) c.processing_timeout && not (ltb_ℤ (pos 20000000000) c.processing_timeout))

or_other : {A : Type 0} → Option A → Result A
or_other none = err other
or_other (some a) = ok a

unfoldable pub processing_timeout : Environment → Result ℤ
unfolding or_other
processing_timeout env = elim (env.lookup (text "SQS_PROCESSING_TIMEOUT")) [
  | none ↦ ok (pos 5000000000)
  | some value ↦ or_other (env.parse_duration value)
]

-- `NewConsumerConfig`
unfoldable pub new_consumer_config : Environment → Result ConsumerConfig
unfolding validate_consumer_config getenv processing_timeout or_other
new_consumer_config env = do
  senders ← or_other (env.decode_senders (getenv env (text "SQS_PROVIDER_BY_SENDER")))
  timeout ← processing_timeout env
  (let c : ConsumerConfig = record {
    queue_url = getenv env (text "SQS_WAGERS_QUEUE_URL");
    provider_by_sender = senders;
    processing_timeout = timeout;
  } in
      validate_consumer_config env c >> ok c)

-- The settings of the events' queue.
pub record SqsConfig : Type 0 where
  pub region : Text
  pub endpoint : Text
  pub queue_url : Text

abbrev is_endpoint : Option Url → Bool
is_endpoint none = false
is_endpoint (some u) = is_address u

-- `NewConfig` of the events' queue
unfoldable pub new_sqs_config : Environment → Result SqsConfig
unfolding check getenv is_address
new_sqs_config env =
    let c : SqsConfig = record {
      region = getenv env (text "AWS_REGION");
      endpoint = getenv env (text "SQS_ENDPOINT");
      queue_url = getenv env (text "SQS_EVENTS_QUEUE_URL");
    } in
    check (not (is_empty c.region))
    >> check (is_endpoint (env.parse_url c.queue_url))
    >> check (is_empty c.endpoint || is_endpoint (env.parse_url c.endpoint))
    >> check (not (has_suffix c.queue_url (text ".fifo")))
    >> ok c

-- `NewConfig` of the HTTP API
unfoldable pub new_http_config : Environment → Result Text
unfolding check getenv
new_http_config env =
    let given = getenv env (text "HTTP_ADDRESS") in
    let address = if is_empty given then text ":8080" else given in
    check (env.splits address) >> ok address

-- `NewConfig` of the database
unfoldable pub new_database_config : Environment → Result Text
unfolding check getenv
new_database_config env =
    let url = getenv env (text "DATABASE_URL") in check (not (is_empty url)) >> ok url
