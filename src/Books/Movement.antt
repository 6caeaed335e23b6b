-- ===== src/Books/Movement.antt =====
-- A movement of `processWager` closes the books (process_wager.go).
use backend_challenge.Base.{
  ◌∷◌, ap, ◌∙◌, ◌+◌, ◌≤◌, ℤ, ◌≡◌, refl, some, IsInt64, arith, int_laws, ◌+ℤ◌,
}
use backend_challenge.Errors.{ok}
use backend_challenge.Domain.Money
use backend_challenge.Domain.Money.{Money}
use backend_challenge.Domain.Wallet
use backend_challenge.Domain.Wallet.{Time, Wallet, max_version}
use backend_challenge.Domain.Wallet.Movement.{IsMovement, moved}
use backend_challenge.Domain.Wallet.Invariant.{credit_inv, debit_inv}
use backend_challenge.Domain.Ledger.{
  WalletLedgerEntry, LedgerDirection, debit, credit, unknown, signed_amount,
}
use backend_challenge.Postgres.{
  Db, update_first, is_previous, set_balance, update_wallet, set_wallet, create_entry, insert_entry,
  Runtime, first,
}
use backend_challenge.Application.{move}
use backend_challenge.Books.Logic.{books, Books, Ensures}
use backend_challenge.Books.Statements.{statement-Ensures}
use backend_challenge.Books.Balance.{IsBalanced, has_wallet_id}
use backend_challenge.Books.Halfway.{IsHalfway, set_wallet-IsHalfway, insert_entry-IsBalanced}

-- What a successful movement has done to a valid wallet.
pub record IsMoved (before wallet : Wallet) : Type 0 where
  pub same_wallet : wallet.id ≡ before.id
  pub valid : Money.IsValid wallet.balance
  pub versioned : wallet.version ≤ max_version
  pub next_version : wallet.version ≡ before.version + 1

moved-IsMoved :
    (now : Time) (before : Wallet) (money : Money) (amount : ℤ)
    → IsMovement before money
    → IsInt64 amount
    → IsMoved before (moved now before amount)
moved-IsMoved now before money amount h range = record {
  same_wallet = refl;
  valid = record { accepted = h.wallet_valid.balance_valid.accepted; in_range = range };
  versioned = omega (arith, h.can_grow);
  next_version = refl;
}

pub move-IsMoved :
    (direction : LedgerDirection) (now : Time) (before wallet : Wallet) (money : Money)
    → Wallet.IsValid before
    → Money.IsValid money
    → move direction now before money ≡ ok wallet
    → IsMoved before wallet
unfolding move
move-IsMoved debit now before wallet money hb hm e =
    let (movement, done, enough) = debit_inv now before wallet money hb hm e in
    rw done (
      moved-IsMoved now before money _ movement (
        omega (int_laws, enough),
        omega (int_laws, movement.amount_pos, hb.balance_valid.in_range),
      ))
move-IsMoved credit now before wallet money hb hm e =
    let (movement, done, fits) = credit_inv now before wallet money hb hm e in
    rw done (
      moved-IsMoved now before money _ movement
        (omega (int_laws, movement.amount_pos, hb.nonneg), fits))
move-IsMoved (unknown name) now before wallet money hb hm e =
    let (movement, done, fits) = credit_inv now before wallet money hb hm e in
    rw done (
      moved-IsMoved now before money _ movement
        (omega (int_laws, movement.amount_pos, hb.nonneg), fits))

abbrev pub Holds : Wallet → Books → Type 0
Holds wallet b = IsBalanced b × (first (has_wallet_id wallet.id) b.wallets ≡ some wallet)

set_wallet-books :
    (wallet : Wallet) (now : Time) (db : Db) (u : Unit {0}) (after : Db)
    → set_wallet wallet now db ≡ ok (u, after)
    → books after ≡ record (books db) {
      wallets = update_first (is_previous wallet) (set_balance wallet) db.wallets;
    }
unfolding set_wallet
set_wallet-books wallet now db u after h = ground arith

insert_entry-books :
    (entry : WalletLedgerEntry) (now : Time) (db : Db) (u : Unit {0}) (after : Db)
    → insert_entry entry now db ≡ ok (u, after)
    → books after ≡ record (books db) { ledger = entry ∷ db.ledger }
unfolding insert_entry
insert_entry-books entry now db u after h = ground arith

pub update_wallet-Ensures :
    (rt : Runtime) (before wallet : Wallet)
    → IsMoved before wallet
    → Ensures (Holds before) (update_wallet rt wallet) (λ u. IsHalfway before wallet)
unfolding update_wallet
update_wallet-Ensures rt before wallet h =
    statement-Ensures rt (Holds before) _ (λ u. IsHalfway before wallet)
      (λ now db u after p done. rw (set_wallet-books wallet now db u after done) (
        set_wallet-IsHalfway before wallet h.same_wallet h.valid.in_range h.versioned h.next_version
          (books db) p.0 (ap (λ id. first (has_wallet_id id) db.wallets) h.same_wallet ∙ p.1)))

pub create_entry-Ensures :
    (rt : Runtime) (before wallet : Wallet) (entry : WalletLedgerEntry)
    → entry.wallet_id ≡ wallet.id
    → wallet.balance.amount
      ≡ before.balance.amount +ℤ signed_amount entry.direction entry.money.amount
    → Ensures (IsHalfway before wallet) (create_entry rt entry) (λ u. IsBalanced)
unfolding create_entry
create_entry-Ensures rt before wallet entry owner change =
    statement-Ensures rt (IsHalfway before wallet) _ (λ u. IsBalanced)
      (λ now db u after p done.
        rw (insert_entry-books entry now db u after done)
          (insert_entry-IsBalanced before wallet (books db) entry p owner change))
