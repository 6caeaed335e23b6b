-- ===== src/Adapters/Policy/LeastPrivilege.antt =====
-- What a policy grants that passes the checks (`validateQueuePolicy` and
-- `validateNoWildcardAdministration`, internal/infrastructure/messaging/iam_policy.go).
use backend_challenge.Base.{
  none_not_some, some_inj, subst, Option-cases, false-not_true, not-false, sym, subst, Option-cases,
  some, Option, arith, any, not-false, refl, none, false-not_true, Bool, ◌↔◌, ◌≡◌, true, false, not,
  ◌||◌, List, [], ◌∷◌, All, Bool-cases, inl, inr, ||-eq-false,
}
use backend_challenge.Text.{Text}
use backend_challenge.Adapters.Policy.Checks.{
  read_policy, StatementJson, validate_no_wildcard_administration, administers_from,
  validate_queue_policy, grants_from, Statement, is_allow, has_action, has_wildcard_principal,
  administration,
}
use backend_challenge.Adapters.Policy.Grants.{Allows, AreExplicit, Exists, grants_from_iff}

-- Where everyone is allowed something, none of it is administration.
abbrev pub IsUnadministered : Statement → Type 0
IsUnadministered s =
    is_allow s ≡ true
    → has_wildcard_principal s.principal ≡ true
    → All (λ a. has_action s.action a ≡ false) administration

-- The action is granted, only to named principals, and everyone may administer nothing.
pub record IsLeastPrivilege (action : Text) (statements : List Statement) : Type 0 where
  pub granted : Exists (Allows action) statements
  pub explicit : All (λ s. Allows action s → AreExplicit s.principal) statements
  pub unadministered : All IsUnadministered statements

none_of_iff : (p : Text → Bool) (xs : List Text) → (any p xs ≡ false) ↔ All (λ a. p a ≡ false) xs
none_of_iff p [] = (λ h. tt, λ h. refl)
none_of_iff p (x ∷ xs) = (
  λ h. let (a, b) = ||-eq-false (p x) (any p xs) h in (a, (none_of_iff p xs).0 b),
  λ (a, b). rw a ((none_of_iff p xs).1 b),
)

administers_from_iff :
    (ss : List Statement) → (administers_from ss ≡ none) ↔ All IsUnadministered ss
unfolding administers_from
administers_from_iff [] = (λ h. tt, λ h. refl)
administers_from_iff (s ∷ ss) =
    elim (Bool-cases (not (is_allow s) || not (has_wildcard_principal s.principal))) [
      | inl skipped ↦ rw skipped (
        λ h. (
          λ a b. absurd (false-not_true (ground (arith, a, b)) skipped),
          (administers_from_iff ss).0 h,
        ),
        λ (first, rest). (administers_from_iff ss).1 rest,
      )
      | inr open_to_all ↦ elim (Bool-cases (any (has_action s.action) administration)) [
        | inl unsafe ↦
            let (a, b) =
              ||-eq-false (not (is_allow s)) (not (has_wildcard_principal s.principal))
                open_to_all in
            rw (open_to_all, unsafe)
              (
                λ h. absurd cc,
                λ (first, rest). absurd (
                    false-not_true
                      ((none_of_iff (has_action s.action) administration).1
                        (first (not-false _ a) (not-false _ b)))
                      unsafe),
              )
        | inr safe ↦
            rw (open_to_all, safe)
              (
                λ h. (
                  λ a b. (none_of_iff (has_action s.action) administration).0 safe,
                  (administers_from_iff ss).0 h,
                ),
                λ (first, rest). (administers_from_iff ss).1 rest,
              )
      ]
    ]

least_iff :
    (action : Text) (ss : List Statement)
    → ((grants_from action false ss ≡ none) × (administers_from ss ≡ none))
      ↔ IsLeastPrivilege action ss
least_iff action ss = (
  λ (grants, safe).
      let (found, explicit) = (grants_from_iff action false ss).0 grants in
      record {
        granted = elim found [ inl e ↦ absurd cc | inr d ↦ d ];
        explicit = explicit;
        unadministered = (administers_from_iff ss).0 safe;
      },
  λ h. (
    (grants_from_iff action false ss).1 (inr h.granted, h.explicit),
    (administers_from_iff ss).1 h.unadministered,
  ),
)

-- A queue's policy passes the two checks just where it can be read, some statement allows the
-- action, each statement that allows the action names its principals, none of them blank or the
-- wildcard, and no statement allows everyone one of the four administrative actions.
pub validate_iff :
    (decode : Text → Option (List StatementJson)) (raw action : Text)
    → ((validate_queue_policy decode raw action ≡ none)
        × (validate_no_wildcard_administration decode raw ≡ none))
      ↔ ((ss : List Statement) × (read_policy decode raw ≡ some ss) × IsLeastPrivilege action ss)
unfolding validate_queue_policy validate_no_wildcard_administration
validate_iff decode raw action = elim (Option-cases (read_policy decode raw)) [
  | inl unread ↦
      rw (unread, validate_queue_policy, validate_no_wildcard_administration)
        (λ (a, b). absurd cc, λ (ss, e, h). absurd (none_not_some refl e))
  | inr (ss, is_read) ↦
      rw (is_read, validate_queue_policy, validate_no_wildcard_administration)
        (
          λ h. (ss, refl, (least_iff action ss).0 h),
          λ (other, e, h).
              (least_iff action ss).1 (subst (IsLeastPrivilege action) (sym (some_inj e)) h),
        )
]
