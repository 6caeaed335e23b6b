-- ===== src/Books/Stored.antt =====
-- A wallet that is read from balanced books is valid (wallet_repository.go, wallet.go).
use backend_challenge.Base.{
  not-false, ap, ◌≡◌, sym, ◌∙◌, refl, Bool, Option, none, some, true, false, not, ◌||◌, inl, inr,
  arith, Option-cases, ◌==◌, ltb,
}
use backend_challenge.Errors.{
  err_not_ok, ok, ok_inj, fail_if-eq-ok, >>=-eq-ok, invalid_wallet, invalid_money,
}
use backend_challenge.Domain.Money
use backend_challenge.Domain.Money.{Money, money_from_minor_units}
use backend_challenge.Domain.Wallet
use backend_challenge.Domain.Wallet.{Uuid, Time, Wallet, rehydrate_wallet}
use backend_challenge.Postgres.{Runtime, Db, first, read_wallet, select_wallet, find_wallet}
use backend_challenge.Books.Logic.{Books, books, Ensures}
use backend_challenge.Books.Statements.{query-Ensures}
use backend_challenge.Books.Balance.{IsBalanced, has_wallet_id}
use backend_challenge.Books.Halfway.{id_of_first}
use backend_challenge.Books.Movement.{Holds}

pub money_from_minor_units_inv :
    (amount : backend_challenge.Base.ℤ) (currency : backend_challenge.Text.Text) (m : Money)
    → money_from_minor_units amount currency ≡ ok m
    → (Money.valid_currency currency ≡ true) × (m ≡ record { amount = amount; currency = currency })
unfolding money_from_minor_units
money_from_minor_units_inv amount currency m h =
    let (known, done) = fail_if-eq-ok _ invalid_money _ h in (not-false _ known, sym (ok_inj done))

-- The row is the wallet that is read, and what `RehydrateWallet` checks of it.
read_wallet_inv :
    (row wallet : Wallet)
    → read_wallet row ≡ ok wallet
    → (wallet ≡ row)
      × (Money.valid_currency row.balance.currency ≡ true)
      × ((row.id == 0 || row.player_id == 0) ≡ false)
      × (ltb row.version 1 ≡ false)
      × (backend_challenge.Base.ltb_ℤ row.balance.amount (backend_challenge.Base.pos 0) ≡ false)
      × ((row.created_at == 0 || ltb row.updated_at row.created_at) ≡ false)
unfolding read_wallet rehydrate_wallet
read_wallet_inv row wallet h =
    let (money, read, h1) =
      >>=-eq-ok (money_from_minor_units row.balance.amount row.balance.currency) _ h in
    let (known, same) =
      money_from_minor_units_inv row.balance.amount row.balance.currency money read in
    let (owned, h2) = fail_if-eq-ok _ invalid_wallet _ (rw same at h1) in
    let (versioned, h3) = fail_if-eq-ok _ invalid_wallet _ h2 in
    let (currency, h4) = fail_if-eq-ok _ invalid_wallet _ h3 in
    let (funded, h5) = fail_if-eq-ok _ invalid_wallet _ h4 in
    let (dated, done) = fail_if-eq-ok _ invalid_wallet _ h5 in
    (sym (ok_inj done), known, owned, versioned, funded, dated)

-- The wallet that a row of balanced books is read as is valid and is that row.
read_wallet-IsValid :
    (b : Books) (id : Uuid) (row wallet : Wallet)
    → IsBalanced b
    → first (has_wallet_id id) b.wallets ≡ some row
    → read_wallet row ≡ ok wallet
    → Holds wallet b × Wallet.IsValid wallet
read_wallet-IsValid b id row wallet h found read =
    let (same, known, owned, versioned, funded, dated) = read_wallet_inv row wallet read in
    let own = id_of_first b.wallets id row found in
    let backed = h.backed id row found in
    rw same (
      (h, ap (λ i. first (has_wallet_id i) b.wallets) own ∙ found),
      record {
        identified = ground (arith, owned);
        owned = ground (arith, owned);
        balance_valid = record { accepted = known; in_range = backed.in_range };
        nonneg = ground (arith, funded);
        versioned = (ground (arith, versioned), backed.versioned);
        created = ground (arith, dated);
        ordered = ground (arith, dated);
      },
    )

select_wallet_inv :
    (id : Uuid) (now : Time) (db : Db) (wallet : Wallet)
    → select_wallet id now db ≡ ok wallet
    → (row : Wallet) × (first (has_wallet_id id) db.wallets ≡ some row)
      × (read_wallet row ≡ ok wallet)
unfolding select_wallet
select_wallet_inv id now db wallet h = elim (Option-cases (first (has_wallet_id id) db.wallets)) [
  | inl missing ↦ absurd (err_not_ok (rw (missing, select_wallet) at h))
  | inr (row, found) ↦ (row, found, rw (found, select_wallet) at h)
]

-- A wallet that is found in balanced books is valid, and is the one that is stored.
pub find_wallet-Ensures :
    (rt : Runtime) (id : Uuid)
    → Ensures IsBalanced (find_wallet rt id) (λ wallet b. Holds wallet b × Wallet.IsValid wallet)
unfolding find_wallet
find_wallet-Ensures rt id =
    query-Ensures rt IsBalanced _ (λ wallet b. Holds wallet b × Wallet.IsValid wallet)
      (λ now db wallet h done.
        let (row, found, read) = select_wallet_inv id now db wallet done in
        read_wallet-IsValid (books db) id row wallet h found read)
