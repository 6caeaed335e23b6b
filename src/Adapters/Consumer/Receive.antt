-- ===== src/Adapters/Consumer/Receive.antt =====
-- The start of the consumer, `Receive` and `CheckReady`
-- (internal/infrastructure/messaging/sqs_consumer.go).
use backend_challenge.Base.{
  ℤ, pos, ltb_ℤ, eqb_ℤ, add64, Bool, true, false, not, ◌||◌, Option, none, some, List, [], ◌∷◌,
  if◌then◌else◌,
}
use backend_challenge.Text.{Text, text, str_eq, is_empty, has_suffix, parse_int, split}
use backend_challenge.Errors.{Error, Result, ok, err, other, ◌>>=◌}
use backend_challenge.Adapters.Policy.{
  PolicyError, StatementJson, RedriveJson, validate_queue_policy,
  validate_no_wildcard_administration, validate_redrive_allow_policy,
}
use backend_challenge.Adapters.Consumer.Handle.{Received}

-- The attributes of the input queue that the start asks for; an absent one is empty.
pub record QueueAttributes : Type 0 where
  pub fifo_queue : Text
  pub queue_arn : Text
  pub redrive_policy : Text
  pub queue_policy : Text

-- The fields of the redrive policy.
pub record Redrive : Type 0 where
  pub dead_letter_target_arn : Text
  pub max_receive_count : ℤ

last_of : List Text → Text
last_of [] = []
last_of (p ∷ []) = p
last_of (p ∷ q ∷ ps) = last_of (q ∷ ps)

-- `queueNameFromARN`
unfoldable pub queue_name_from_arn : Text → Text
unfolding last_of split
queue_name_from_arn arn = last_of (split b':' arn)

abbrev is_set : Option PolicyError → Bool
is_set none = false
is_set (some e) = true

-- Why the consumer does not start, in the order of the checks.
pub data StartError : Type 0 where
  queue_unavailable redrive_missing broad_policy : StartError
  dead_letters_unavailable redrive_not_restricted : StartError

pub data Started : Type 0 where
  refused : StartError → Started
  started : Text → Started

-- The answers of the queue service and the JSON decoders.
pub record QueueService : Type 0 where
  pub attributes : Option QueueAttributes
  pub decode_redrive : Text → Option Redrive
  pub decode_policy : Text → Option (List StatementJson)
  pub decode_allow : Text → Option RedriveJson
  pub url_of : Text → Option Text
  pub allow_policy : Text → Option Text

-- A FIFO queue whose dead letters go to a FIFO queue after five receipts.
unfoldable pub has_redrive : QueueAttributes → Option Redrive → Bool
has_redrive attributes none = false
has_redrive attributes (some redrive) = not (
    not (str_eq attributes.fifo_queue (text "true"))
    || not (has_suffix redrive.dead_letter_target_arn (text ".fifo"))
    || not (eqb_ℤ redrive.max_receive_count (pos 5)))

abbrev target_of : Option Redrive → Text
target_of none = []
target_of (some redrive) = redrive.dead_letter_target_arn

module _ (service : QueueService) where
  check_dead_letters : QueueAttributes → Text → Started
  check_dead_letters attributes url = elim (service.allow_policy url) [
    | none ↦ refused redrive_not_restricted
    | some allow ↦
        if is_set (validate_redrive_allow_policy service.decode_allow allow attributes.queue_arn)
        then refused redrive_not_restricted
        else started url
  ]

  find_dead_letters : QueueAttributes → Text → Started
  unfolding check_dead_letters queue_name_from_arn
  find_dead_letters attributes arn = elim (service.url_of (queue_name_from_arn arn)) [
    | none ↦ refused dead_letters_unavailable
    | some url ↦ check_dead_letters attributes url
  ]

  check_attributes : QueueAttributes → Started
  unfolding find_dead_letters has_redrive
  check_attributes attributes =
      let redrive = service.decode_redrive attributes.redrive_policy in
      if not (has_redrive attributes redrive)
      then refused redrive_missing
      else if is_set (
            validate_queue_policy service.decode_policy attributes.queue_policy
              (text "sqs:SendMessage"))
          || is_set
              (validate_no_wildcard_administration service.decode_policy attributes.queue_policy)
      then refused broad_policy
      else find_dead_letters attributes (target_of redrive)

  -- The hook `OnStart` of `NewSQSConsumer`, which keeps the URL of the dead letters' queue.
  unfoldable pub start_consumer : Started
  unfolding check_attributes
  start_consumer = elim service.attributes [
    | none ↦ refused queue_unavailable
    | some attributes ↦ check_attributes attributes
  ]

abbrev first_message : List Received → Option Received
first_message [] = none
first_message (received ∷ rest) = some received

-- `Receive`: the first of the messages, of which the request asks for one.
unfoldable pub receive : Result (List Received) → Result (Option Received)
receive fetched = do messages ← fetched; ok (first_message messages)

-- A count of the dead letters' queue: an integer that is not negative.
count_of : Text → Result ℤ
count_of value = elim (parse_int value) [
  | none ↦ err other
  | some n ↦ if ltb_ℤ n (pos 0) then err other else ok n
]

-- `depth += value` over the three counts, on `int64`.
unfoldable pub dlq_depth : ℤ → List Text → Result ℤ
unfolding count_of
dlq_depth depth [] = ok depth
dlq_depth depth (value ∷ values) = do count ← count_of value; dlq_depth (add64 depth count) values

-- The queues that have a URL can be reached.
unfoldable pub reach : (Text → Option Error) → List Text → Result (Unit {0})
reach fault [] = ok tt
reach fault (url ∷ urls) =
    let rest = reach fault urls in
    if is_empty url then rest else elim (fault url) [ some e ↦ err e | none ↦ rest ]

-- `CheckReady`: the depth that it passes to the metrics, from the three counts of the dead
-- letters' queue.
unfoldable pub check_ready :
    (Text → Option Error) → Text → Text → Result (Text × Text × Text) → Result ℤ
unfolding reach dlq_depth
check_ready fault queue_url events_url counts = do
  reached ← reach fault (queue_url ∷ events_url ∷ [])
  values ← counts
  dlq_depth (pos 0) (values.0 ∷ values.1 ∷ values.2 ∷ [])
