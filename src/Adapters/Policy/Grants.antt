-- ===== src/Adapters/Policy/Grants.antt =====
-- What a policy grants that passes `validateQueuePolicy`
-- (internal/infrastructure/messaging/iam_policy.go).
use backend_challenge.Base.{
  iff_trans, not-true, false-not_true, not-false, ◌⊎◌, not-false, refl, none, ◌⊎◌, false-not_true,
  not-true, Bool, &&-eq-true, ◌↔◌, ◌≡◌, ◌≢◌, true, false, not, ◌||◌, List, [], ◌∷◌, all, All,
  Bool-cases, inl, inr, ||-eq-false,
}
use backend_challenge.Text.{str_eq_sound, Text, str_eq, str_eq_refl, is_blank}
use backend_challenge.Adapters.Policy.Checks.{
  grants_from, valid_principals, Statement, is_allow, has_action, wildcard,
}

-- A statement that allows an action.
abbrev pub Allows : Text → Statement → Type 0
Allows action s = (is_allow s ≡ true) × (has_action s.action action ≡ true)

-- Named principals: some, none blank and none the wildcard.
abbrev pub AreExplicit : List Text → Type 0
AreExplicit principals =
    (principals ≢ []) × All (λ p. (is_blank p ≡ false) × (p ≢ wildcard)) principals

-- There is a statement of which `P` holds.
pub data Exists (P : Statement → Type 0) : List Statement → Type 0 where
  this : {s : Statement} {ss : List Statement} → P s → Exists P (s ∷ ss)
  later : {s : Statement} {ss : List Statement} → Exists P ss → Exists P (s ∷ ss)

named_iff :
    (p : Text)
    → (not (is_blank p || str_eq p wildcard) ≡ true) ↔ ((is_blank p ≡ false) × (p ≢ wildcard))
named_iff p = (
  λ h.
      let (named, other) =
        ||-eq-false (is_blank p) (str_eq p wildcard)
          (not-true (is_blank p || str_eq p wildcard) h) in
      (named, λ e. false-not_true other (rw e (str_eq_refl wildcard))),
  λ (named, other). elim (Bool-cases (str_eq p wildcard)) [
    | inl e ↦ absurd (other (str_eq_sound p wildcard e))
    | inr e ↦ rw (named, e) refl
  ],
)

all_named_iff :
    (ps : List Text)
    → (all (λ p. not (is_blank p || str_eq p wildcard)) ps ≡ true)
      ↔ All (λ p. (is_blank p ≡ false) × (p ≢ wildcard)) ps
all_named_iff [] = (λ h. tt, λ h. refl)
all_named_iff (p ∷ ps) = (
  λ h.
      let (first, rest) = &&-eq-true (not (is_blank p || str_eq p wildcard)) _ h in
      ((named_iff p).0 first, (all_named_iff ps).0 rest),
  λ (first, rest). rw ((named_iff p).1 first) ((all_named_iff ps).1 rest),
)

valid_principals_iff : (ps : List Text) → (valid_principals ps ≡ true) ↔ AreExplicit ps
unfolding valid_principals
valid_principals_iff [] = (λ h. absurd cc, λ (some_named, h). absurd (some_named refl))
valid_principals_iff (p ∷ ps) = (
  λ h. (
    λ e. cc,
    (all_named_iff (p ∷ ps)).0
        (&&-eq-true (all (λ x. not (is_blank x || str_eq x wildcard)) (p ∷ ps)) true h).0,
  ),
  λ (some_named, h). rw ((all_named_iff (p ∷ ps)).1 h) refl,
)

Exists_inv :
    {P : Statement → Type 0} {s : Statement} {ss : List Statement}
    → Exists P (s ∷ ss)
    → P s ⊎ Exists P ss
Exists_inv (this p) = inl p
Exists_inv (later d) = inr d

abbrev pub Grants : Text → Bool → List Statement → Type 0
Grants action granted ss =
    ((granted ≡ true) ⊎ Exists (Allows action) ss)
    × All (λ s. Allows action s → AreExplicit s.principal) ss

module _ (action : Text) (s : Statement) (ss : List Statement) where
  allowed_iff : (not (is_allow s) || not (has_action s.action action) ≡ false) ↔ Allows action s
  allowed_iff = (
    λ h.
        let (a, b) = ||-eq-false (not (is_allow s)) (not (has_action s.action action)) h in
        (not-false (is_allow s) a, not-false (has_action s.action action) b),
    λ (a, b). rw (a, b) refl,
  )

  Grants-skip : (g : Bool) → ¬ Allows action s → Grants action g ss ↔ Grants action g (s ∷ ss)
  Grants-skip g skip = (
    λ (found, rest).
        (elim found [ inl e ↦ inl e | inr d ↦ inr (later d) ], (λ a. absurd (skip a), rest)),
    λ (found, (head, rest)). (
      elim found [
        | inl e ↦ inl e
        | inr d ↦ elim (Exists_inv d) [ inl a ↦ absurd (skip a) | inr d' ↦ inr d' ]
      ],
      rest,
    ),
  )

  Grants-next :
      (g : Bool)
      → Allows action s
      → AreExplicit s.principal
      → Grants action true ss ↔ Grants action g (s ∷ ss)
  Grants-next g allows explicit = (
    λ (found, rest). (inr (this allows), (λ a. explicit, rest)),
    λ (found, (head, rest)). (inl refl, rest),
  )

-- The loop with its flag.
pub grants_from_iff :
    (action : Text) (granted : Bool) (ss : List Statement)
    → (grants_from action granted ss ≡ none) ↔ Grants action granted ss
unfolding grants_from
grants_from_iff action true [] = (λ h. (inl refl, tt), λ h. refl)
grants_from_iff action false [] =
    (λ h. absurd cc, λ (g, h). elim g [ inl e ↦ absurd cc | inr e ↦ elim e [ ] ])
grants_from_iff action granted (s ∷ ss) =
    elim (Bool-cases (not (is_allow s) || not (has_action s.action action))) [
      | inl skipped ↦ rw skipped (
          iff_trans (grants_from_iff action granted ss) (
            Grants-skip action s ss granted
              (λ a. false-not_true ((allowed_iff action s ss).1 a) skipped)))
      | inr allowed ↦
          let allows = (allowed_iff action s ss).0 allowed in
          elim (Bool-cases (valid_principals s.principal)) [
            | inl explicit ↦
                rw (allowed, explicit)
                  (iff_trans (grants_from_iff action true ss) (
                    Grants-next action s ss granted allows
                      ((valid_principals_iff s.principal).0 explicit)))
            | inr unnamed ↦
                rw (allowed, unnamed)
                  (
                    λ h. absurd cc,
                    λ (found, (head, rest)). absurd (
                        false-not_true unnamed
                          ((valid_principals_iff s.principal).1 (head allows))),
                  )
          ]
    ]
