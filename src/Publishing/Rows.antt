-- ===== src/Publishing/Rows.antt =====
-- The rows that `Claim` and the end of a reservation find
-- (internal/infrastructure/postgres/outbox_publisher_repository.go).
use backend_challenge.Base.{
  subst, some_inj, ◌≡◌, sym, refl, Bool, true, false, some, List, [], ◌∷◌, ◌⊎◌, inl, inr, ap, ◌∙◌,
  ℕ, arith, if◌then◌else◌, Bool-cases, Option-cases,
}
use backend_challenge.Postgres.{first, earliest}

chosen :
    {A : Type 0} (b : Bool) (x y z : A) → some (if b then x else y) ≡ some z → (x ≡ z) ⊎ (y ≡ z)
chosen true x y z h = inl (some_inj h)
chosen false x y z h = inr (some_inj h)

module _ {A : Type 0} (key : A → ℕ × ℕ) (p : A → Bool) where
  earliest-inv :
      (x : A) (xs : List A) (z : A)
      → earliest key p (x ∷ xs) ≡ some z
      → (x ≡ z) ⊎ (earliest key p xs ≡ some z)
  unfolding earliest
  earliest-inv x xs z h = elim (Bool-cases (p x)) [
    | inr unfit ↦ inr (rw unfit at h)
    | inl fit ↦ elim (Option-cases (earliest key p xs)) [
      | inl last ↦ inl (some_inj (rw (fit, last) at h))
      | inr (y, rest) ↦ elim (chosen _ x y z (rw (fit, rest) at h)) [
        | inl here ↦ inl here
        | inr there ↦ inr (rest ∙ ap some there)
      ]
    ]
  ]

  pub earliest-holds : (xs : List A) (z : A) → earliest key p xs ≡ some z → p z ≡ true
  unfolding earliest
  earliest-holds [] z h = absurd cc
  earliest-holds (x ∷ xs) z h = elim (Bool-cases (p x)) [
    | inr unfit ↦ earliest-holds xs z (rw unfit at h)
    | inl fit ↦ elim (earliest-inv x xs z h) [
      | inl here ↦ subst (λ z. p z ≡ true) here fit
      | inr there ↦ earliest-holds xs z there
    ]
  ]

  -- The table has a row of every property that the earliest row has.
  pub earliest-first :
      (q : A → Bool) (xs : List A) (z : A)
      → earliest key p xs ≡ some z
      → q z ≡ true
      → (y : A) × (first q xs ≡ some y) × (q y ≡ true)
  unfolding first earliest
  earliest-first q [] z h e = absurd cc
  earliest-first q (x ∷ xs) z h e = elim (Bool-cases (q x)) [
    | inl hit ↦ (x, rw hit refl, hit)
    | inr missed ↦ elim (earliest-inv x xs z h) [
      | inl here ↦ absurd (ground (arith, missed, rw (sym here) at e))
      | inr there ↦
          let (y, found, holds) = earliest-first q xs z there e in (y, rw missed found, holds)
    ]
  ]

-- A narrower condition that the first row satisfies finds the same row.
pub first-narrower :
    {A : Type 0} (p q : A → Bool) (xs : List A) (x : A)
    → ((y : A) → q y ≡ true → p y ≡ true)
    → first p xs ≡ some x
    → q x ≡ true
    → first q xs ≡ some x
unfolding first
first-narrower p q [] x within h e = absurd cc
first-narrower p q (y ∷ xs) x within h e = elim (Bool-cases (p y)) [
  | inl found ↦ let here = some_inj (rw found at h) in rw (rw (sym here) at e) (ap some here)
  | inr missing ↦ elim (Bool-cases (q y)) [
    | inl hit ↦ absurd (ground (arith, within y hit, missing))
    | inr kept ↦ rw kept (first-narrower p q xs x within (rw missing at h) e)
  ]
]
