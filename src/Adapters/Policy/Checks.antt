-- ===== src/Adapters/Policy/Checks.antt =====
-- internal/infrastructure/messaging/iam_policy.go
use backend_challenge.Base.{
  Bool, true, false, not, ◌&&◌, ◌||◌, Option, none, some, List, [], ◌∷◌, any, all, if◌then◌else◌,
}
use backend_challenge.Text.{Text, text, str_eq, is_blank, equal_fold, lower_runes, glob_match}

-- The JSON values that a list of strings may have: a string, an array of strings, null, or another.
pub data StringsJson : Type 0 where
  one_string : Text → StringsJson
  strings : List Text → StringsJson
  null other_value : StringsJson

-- `stringList.UnmarshalJSON`; null sets the single string to nothing.
unfoldable pub unmarshal_strings : StringsJson → Option (List Text)
unmarshal_strings (one_string s) = some (s ∷ [])
unmarshal_strings (strings ss) = some ss
unmarshal_strings null = some ([] ∷ [])
unmarshal_strings other_value = none

-- A field that is absent leaves the list empty.
unfoldable pub unmarshal_field : Option StringsJson → Option (List Text)
unfolding unmarshal_strings
unmarshal_field none = some []
unmarshal_field (some value) = unmarshal_strings value

pub record StatementJson : Type 0 where
  pub effect : Text
  pub action : Option StringsJson
  pub principal : Option StringsJson

pub record Statement : Type 0 where
  pub effect : Text
  pub action : List Text
  pub principal : List Text

both : Text → Option (List Text) → Option (List Text) → Option Statement
both effect (some action) (some principal) =
    some (record { effect = effect; action = action; principal = principal })
both effect action principal = none

unfoldable pub unmarshal_statement : StatementJson → Option Statement
unfolding both unmarshal_field
unmarshal_statement json =
    both json.effect (unmarshal_field json.action) (unmarshal_field json.principal)

cons_statement : Option Statement → Option (List Statement) → Option (List Statement)
cons_statement (some s) (some ss) = some (s ∷ ss)
cons_statement s ss = none

unfoldable pub unmarshal_statements : List StatementJson → Option (List Statement)
unfolding cons_statement unmarshal_statement
unmarshal_statements [] = some []
unmarshal_statements (json ∷ rest) =
    cons_statement (unmarshal_statement json) (unmarshal_statements rest)

-- `hasAction`
unfoldable pub has_action : List Text → Text → Bool
unfolding glob_match lower_runes
has_action actions required =
    any (λ action. glob_match (lower_runes action) (lower_runes required)) actions

abbrev pub wildcard : Text
wildcard = text "*"

abbrev is_empty_list : List Text → Bool
is_empty_list [] = true
is_empty_list (x ∷ xs) = false

-- `validPrincipals`
unfoldable pub valid_principals : List Text → Bool
valid_principals principals =
    all (λ principal. not (is_blank principal || str_eq principal wildcard)) principals
    && not (is_empty_list principals)

-- `hasWildcardPrincipal`
unfoldable pub has_wildcard_principal : List Text → Bool
has_wildcard_principal principals = any (λ principal. str_eq principal wildcard) principals

-- The errors of the three checks, in the order of the file.
pub data PolicyError : Type 0 where
  policy_required implicit_principals not_granted unsafe_administration : PolicyError
  redrive_required redrive_unrestricted redrive_source : PolicyError

unfoldable pub is_allow : Statement → Bool
is_allow s = equal_fold s.effect (text "Allow")

-- The loop of `validateQueuePolicy` with its flag.
unfoldable pub grants_from : Text → Bool → List Statement → Option PolicyError
unfolding is_allow has_action valid_principals
grants_from required granted [] = if granted then none else some not_granted
grants_from required granted (s ∷ statements) =
    let skipped = grants_from required granted statements in
    let next = grants_from required true statements in
    if not (is_allow s) || not (has_action s.action required)
    then skipped
    else if not (valid_principals s.principal)
    then some implicit_principals
    else next

abbrev pub administration : List Text
administration =
    text "sqs:ReceiveMessage"
    ∷ text "sqs:DeleteMessage"
    ∷ text "sqs:ChangeMessageVisibility"
    ∷ text "sqs:SetQueueAttributes"
    ∷ []

-- The loops of `validateNoWildcardAdministration`.
unfoldable pub administers_from : List Statement → Option PolicyError
unfolding is_allow has_action has_wildcard_principal
administers_from [] = none
administers_from (s ∷ statements) =
    let rest = administers_from statements in
    if not (is_allow s) || not (has_wildcard_principal s.principal)
    then rest
    else if any (has_action s.action) administration
    then some unsafe_administration
    else rest

pub record RedriveJson : Type 0 where
  pub redrive_permission : Text
  pub source_queue_arns : Option StringsJson

is_only : Text → List Text → Bool
is_only arn (source ∷ []) = str_eq source arn
is_only arn sources = false

-- `decode` stands for `json.Unmarshal` of a document into the fields above.
module _ (decode : Text → Option (List StatementJson)) where
  unfoldable pub read_policy : Text → Option (List Statement)
  unfolding unmarshal_statements
  read_policy raw =
      if is_blank raw
      then none
      else elim (decode raw) [ none ↦ none | some json ↦ unmarshal_statements json ]

  unfoldable pub validate_queue_policy : Text → Text → Option PolicyError
  unfolding read_policy grants_from
  validate_queue_policy raw required = elim (read_policy raw) [
    | none ↦ some policy_required
    | some statements ↦ grants_from required false statements
  ]

  unfoldable pub validate_no_wildcard_administration : Text → Option PolicyError
  unfolding read_policy administers_from
  validate_no_wildcard_administration raw = elim (read_policy raw) [
    | none ↦ some policy_required
    | some statements ↦ administers_from statements
  ]

-- The checks behind the decoding of a redrive policy.
unfoldable pub check_redrive : Text → Text → Option (List Text) → Option PolicyError
unfolding is_only
check_redrive source_arn permission none = some redrive_required
check_redrive source_arn permission (some sources) =
    if not (str_eq permission (text "byQueue"))
    then some redrive_unrestricted
    else if is_only source_arn sources
    then none
    else some redrive_source

unfoldable pub validate_redrive_allow_policy :
    (Text → Option RedriveJson) → Text → Text → Option PolicyError
unfolding check_redrive unmarshal_field
validate_redrive_allow_policy decode raw source_arn =
    if is_blank raw then some redrive_required else elim (decode raw) [
      | none ↦ some redrive_required
      | some json ↦
          check_redrive source_arn json.redrive_permission (unmarshal_field json.source_queue_arns)
    ]
