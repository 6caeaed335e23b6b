-- ===== src/Books/Balance.antt =====
-- The invariant of the books, and lookups in a table whose rows are updated.
use backend_challenge.Base.{
  some_inj, ℕ, ◌≡◌, ◌≢◌, ◌≤◌, refl, sym, Bool, true, false, none, some, List, [], ◌∷◌, ◌==◌, pos,
  IsInt64, arith, Bool-cases, inl, inr,
}
use backend_challenge.Domain.Wallet.{Uuid, Wallet, max_version}
use backend_challenge.Domain.Ledger.{WalletLedgerEntry}
use backend_challenge.Postgres.{first, update_first}
use backend_challenge.Application.{ledger_sum}
use backend_challenge.Books.Logic.{Books}

abbrev pub has_wallet_id : Uuid → Wallet → Bool
has_wallet_id id row = row.id == id

-- A row of the table of wallets: within the types of its columns, and the sum of its entries.
pub record IsBacked (ledger : List WalletLedgerEntry) (row : Wallet) : Type 0 where
  pub in_range : IsInt64 row.balance.amount
  pub versioned : row.version ≤ max_version
  pub balanced : row.balance.amount ≡ ledger_sum row.id ledger

pub record IsBalanced (b : Books) : Type 0 where
  pub backed :
      (id : Uuid) (row : Wallet)
      → first (has_wallet_id id) b.wallets ≡ some row
      → IsBacked b.ledger row
  -- no entry without its wallet
  pub unowned :
      (id : Uuid) → first (has_wallet_id id) b.wallets ≡ none → ledger_sum id b.ledger ≡ pos 0

pub same_id : (a b : ℕ) → (a == b) ≡ true → a ≡ b
same_id a b h = ground arith

pub other_id : (a b : ℕ) → (a == b) ≡ false → a ≢ b
other_id a b h = ground arith

module _ {A : Type 0} (p : A → Bool) where
  pub first-holds : (xs : List A) (x : A) → first p xs ≡ some x → p x ≡ true
  unfolding first
  first-holds [] x h = absurd cc
  first-holds (y ∷ xs) x h = elim (Bool-cases (p y)) [
    | inl found ↦ rw (sym (some_inj (rw found at h))) found
    | inr missing ↦ first-holds xs x (rw missing at h)
  ]

  module _ (q : A → Bool) (f : A → A) (same : (y : A) → q y ≡ true → p (f y) ≡ p y) where
    -- The update of a row that is found by a narrower condition.
    pub first-update :
        (xs : List A) (x : A)
        → ((y : A) → q y ≡ true → p y ≡ true)
        → first p xs ≡ some x
        → q x ≡ true
        → first p (update_first q f xs) ≡ some (f x)
    unfolding first update_first
    first-update [] x within h e = absurd cc
    first-update (y ∷ xs) x within h e = elim (Bool-cases (p y)) [
      | inl found ↦
          let here = some_inj (rw found at h) in
          let hit = rw (sym here) at e in rw hit (rw (same y hit, found) (rw here refl))
      | inr missing ↦ elim (Bool-cases (q y)) [
        | inl hit ↦ absurd (ground (arith, within y hit, missing))
        | inr kept ↦ rw (kept, missing) (first-update xs x within (rw missing at h) e)
      ]
    ]

    -- The update of rows that are not asked for.
    pub first-update-other :
        (xs : List A)
        → ((y : A) → q y ≡ true → p y ≡ false)
        → first p (update_first q f xs) ≡ first p xs
    unfolding first update_first
    first-update-other [] apart = refl
    first-update-other (y ∷ xs) apart = elim (Bool-cases (q y)) [
      | inl hit ↦ rw hit (rw (same y hit, apart y hit) refl)
      | inr kept ↦ rw kept (elim (Bool-cases (p y)) [
        | inl found ↦ rw found refl
        | inr missing ↦ rw missing (first-update-other xs apart)
      ])
    ]
