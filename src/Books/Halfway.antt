-- ===== src/Books/Halfway.antt =====
-- The two statements that change the books for a movement: the update of the wallet
-- (wallet_repository.go) and the ledger entry (ledger_repository.go).
use backend_challenge.Base.{
  some_inj, none_not_some, int_laws, ◌∙◌, ◌+◌, ℕ, ◌≡◌, ◌≢◌, ◌≤◌, refl, sym, true, false, none, some,
  List, ◌∷◌, ◌==◌, ℤ, pos, ◌+ℤ◌, IsInt64, arith, Bool-cases, inl, inr,
}
use backend_challenge.Domain.Wallet.{Uuid, Wallet, max_version}
use backend_challenge.Domain.Ledger.{WalletLedgerEntry, signed_amount}
use backend_challenge.Postgres.{is_previous, set_balance, first, update_first}
use backend_challenge.Application.{ledger_sum, entry_amount}
use backend_challenge.Books.Logic.{Books}
use backend_challenge.Books.Balance.{
  IsBacked, IsBalanced, has_wallet_id, first-holds, first-update, first-update-other, same_id,
  other_id,
}

-- The books after the update of a wallet, and before its ledger entry.
pub record IsHalfway (before wallet : Wallet) (b : Books) : Type 0 where
  pub others :
      (id : Uuid) (row : Wallet)
      → id ≢ wallet.id
      → first (has_wallet_id id) b.wallets ≡ some row
      → IsBacked b.ledger row
  pub unowned :
      (id : Uuid) → first (has_wallet_id id) b.wallets ≡ none → ledger_sum id b.ledger ≡ pos 0
  pub kept : first (has_wallet_id wallet.id) b.wallets ≢ none
  pub sum_before : before.balance.amount ≡ ledger_sum wallet.id b.ledger
  pub stored :
      (row : Wallet)
      → first (has_wallet_id wallet.id) b.wallets ≡ some row
      → IsInt64 row.balance.amount
        × (row.version ≤ max_version)
        × (row.balance.amount ≡ wallet.balance.amount)

module _ (before wallet : Wallet) (same_wallet : wallet.id ≡ before.id)
    (in_range : IsInt64 wallet.balance.amount) (versioned : wallet.version ≤ max_version)
    (next_version : wallet.version ≡ before.version + 1) where
  previous_id : (y : Wallet) → is_previous wallet y ≡ true → has_wallet_id wallet.id y ≡ true
  unfolding is_previous
  previous_id y h = ground arith

  previous_other :
      (id : Uuid)
      → id ≢ wallet.id
      → (y : Wallet) → is_previous wallet y ≡ true
      → has_wallet_id id y ≡ false
  unfolding is_previous
  previous_other id ne y h = ground arith

  pub set_wallet-IsHalfway :
      (b : Books)
      → IsBalanced b
      → first (has_wallet_id wallet.id) b.wallets ≡ some before
      → IsHalfway before wallet
          (record b { wallets = update_first (is_previous wallet) (set_balance wallet) b.wallets })
  unfolding is_previous
  set_wallet-IsHalfway b h found =
      let after =
        first-update (has_wallet_id wallet.id) (is_previous wallet) (set_balance wallet)
          (λ y hit. refl) b.wallets before previous_id found (ground arith) in
      let apart = λ (id : Uuid) (ne : id ≢ wallet.id).
        first-update-other (has_wallet_id id) (is_previous wallet) (set_balance wallet)
          (λ y hit. refl) b.wallets (previous_other id ne) in
      record {
        others = λ id row ne row_found. h.backed id row (sym (apart id ne) ∙ row_found);
        unowned = λ id missing. elim (Bool-cases (id == wallet.id)) [
          | inl same ↦ absurd (none_not_some (rw (same_id id wallet.id same) at missing) after)
          | inr ne ↦ h.unowned id (sym (apart id (other_id id wallet.id ne)) ∙ missing)
        ];
        kept = λ missing. none_not_some missing after;
        sum_before = rw same_wallet ((h.backed wallet.id before found).balanced);
        stored = λ row row_found. rw (some_inj (sym row_found ∙ after)) (in_range, versioned, refl);
      }

add_comm : (a b : ℤ) → a +ℤ b ≡ b +ℤ a
add_comm a b = omega int_laws

zero_add : (a : ℤ) → pos 0 +ℤ a ≡ a
zero_add a = omega int_laws

pub id_same : (a b : ℕ) → a ≡ b → (a == b) ≡ true
id_same a b h = ground arith

pub id_other : (a b : ℕ) → a ≢ b → (a == b) ≡ false
id_other a b h = ground arith

sum_same :
    (id : Uuid) (entry : WalletLedgerEntry) (ledger : List WalletLedgerEntry)
    → entry.wallet_id ≡ id
    → ledger_sum id (entry ∷ ledger)
      ≡ ledger_sum id ledger +ℤ signed_amount entry.direction entry.money.amount
unfolding ledger_sum entry_amount
sum_same id entry ledger h = rw (id_same entry.wallet_id id h) (add_comm _ _)

sum_other :
    (id : Uuid) (entry : WalletLedgerEntry) (ledger : List WalletLedgerEntry)
    → entry.wallet_id ≢ id
    → ledger_sum id (entry ∷ ledger) ≡ ledger_sum id ledger
unfolding ledger_sum entry_amount
sum_other id entry ledger h = rw (id_other entry.wallet_id id h) (zero_add _)

pub id_of_first :
    (wallets : List Wallet) (id : Uuid) (row : Wallet)
    → first (has_wallet_id id) wallets ≡ some row
    → row.id ≡ id
id_of_first wallets id row h = same_id row.id id (first-holds (has_wallet_id id) wallets row h)

-- A ledger entry that makes up for the change of the balance closes the books again.
pub insert_entry-IsBalanced :
    (before wallet : Wallet) (b : Books) (entry : WalletLedgerEntry)
    → IsHalfway before wallet b
    → entry.wallet_id ≡ wallet.id
    → wallet.balance.amount
      ≡ before.balance.amount +ℤ signed_amount entry.direction entry.money.amount
    → IsBalanced (record b { ledger = entry ∷ b.ledger })
insert_entry-IsBalanced before wallet b entry h owner change = record {
  backed = λ id row found. elim (Bool-cases (id == wallet.id)) [
    | inl same ↦
        let owned = id_of_first b.wallets id row found in
        let (range, version, amount) = h.stored row (rw (same_id id wallet.id same) at found) in
        record {
          in_range = range;
          versioned = version;
          balanced =
              rw (owned ∙ same_id id wallet.id same)
                (rw (sum_same wallet.id entry b.ledger owner, ← h.sum_before) (amount ∙ change));
        }
    | inr ne ↦
        let owned = id_of_first b.wallets id row found in
        let old = h.others id row (other_id id wallet.id ne) found in
        record {
          in_range = old.in_range;
          versioned = old.versioned;
          balanced = rw (owned) (
              rw (sum_other id entry b.ledger (λ e. other_id id wallet.id ne (sym e ∙ owner)))
                (rw owned at old.balanced));
        }
  ];
  unowned = λ id missing. elim (Bool-cases (id == wallet.id)) [
    | inl same ↦ absurd (h.kept (rw (same_id id wallet.id same) at missing))
    | inr ne ↦
        rw (sum_other id entry b.ledger (λ e. other_id id wallet.id ne (sym e ∙ owner)))
          (h.unowned id missing)
  ];
}

-- A change of nothing needs no entry.
pub unchanged-IsBalanced :
    (before wallet : Wallet) (b : Books)
    → IsHalfway before wallet b
    → wallet.balance.amount ≡ before.balance.amount
    → IsBalanced b
unchanged-IsBalanced before wallet b h same = record {
  backed = λ id row found. elim (Bool-cases (id == wallet.id)) [
    | inl here ↦
        let owned = id_of_first b.wallets id row found in
        let (range, version, amount) = h.stored row (rw (same_id id wallet.id here) at found) in
        record {
          in_range = range;
          versioned = version;
          balanced = rw (owned ∙ same_id id wallet.id here) (amount ∙ same ∙ h.sum_before);
        }
    | inr ne ↦ h.others id row (other_id id wallet.id ne) found
  ];
  unowned = h.unowned;
}
