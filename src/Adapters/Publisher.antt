-- ===== src/Adapters/Publisher.antt =====
-- The start of `NewSQSPublisher` (internal/infrastructure/messaging/sqs.go). `Publish` is one
-- request of the queue's client, the publisher of the use case.
use backend_challenge.Base.{Bool, true, false, ◌||◌, Option, none, some, List, if◌then◌else◌}
use backend_challenge.Text.{Text, text}
use backend_challenge.Adapters.Policy.{
  PolicyError, StatementJson, validate_queue_policy, validate_no_wildcard_administration,
}

pub data PublisherError : Type 0 where
  events_unavailable broad_events_policy : PublisherError

abbrev is_refusal : Option PolicyError → Bool
is_refusal none = false
is_refusal (some e) = true

-- `decode` is the JSON decoder of a policy, and the policy is none where the request fails.
unfoldable pub start_publisher :
    (Text → Option (List StatementJson)) → Option Text → Option PublisherError
start_publisher decode none = some events_unavailable
start_publisher decode (some policy) =
    if is_refusal (validate_queue_policy decode policy (text "sqs:SendMessage"))
      || is_refusal (validate_no_wildcard_administration decode policy)
    then some broad_events_policy
    else none
