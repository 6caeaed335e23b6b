-- ===== src/Tests/Policy.antt =====
-- A queue's policy that lets one principal send.
use backend_challenge.Base.{◌↔◌, [], ◌∷◌, none, ◌≡◌, List, some, Option}
use backend_challenge.Adapters.Policy.{
  read_policy, Statement, validate_no_wildcard_administration, strings, one_string,
  validate_queue_policy, StatementJson,
}
use backend_challenge.Text.{text, Text}
use backend_challenge.Adapters.Policy.LeastPrivilege.{validate_iff, IsLeastPrivilege}

abbrev producer : StatementJson
producer = record {
  effect = text "Allow";
  action = some (one_string (text "sqs:SendMessage"));
  principal = some (strings (text "arn:aws:iam::1:role/provider" ∷ []));
}

abbrev decode : Text → Option (List StatementJson)
decode raw = some (producer ∷ [])

validate_iff_example :
    ((validate_queue_policy decode (text "{}") (text "sqs:SendMessage") ≡ none)
      × (validate_no_wildcard_administration decode (text "{}") ≡ none))
    ↔ ((ss : List Statement) × (read_policy decode (text "{}") ≡ some ss)
        × IsLeastPrivilege (text "sqs:SendMessage") ss)
validate_iff_example = validate_iff decode (text "{}") (text "sqs:SendMessage")
