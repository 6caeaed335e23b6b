-- ===== src/Postgres/Wallets.antt =====
-- internal/infrastructure/postgres/wallet_repository.go
use backend_challenge.Base.{◌-◌, Bool, false, if◌then◌else◌, ◌&&◌, ◌||◌, none, some, ◌∷◌, ◌==◌}
use backend_challenge.Text.{text, str_eq}
use backend_challenge.Errors.{
  Error, database_code, Result, ok, err, fail, wallet_conflict, wallet_not_found,
  wallet_concurrent_update,
}
use backend_challenge.Errors
use backend_challenge.Domain.Money.{money_from_minor_units}
use backend_challenge.Domain.Wallet.{Uuid, Time, Wallet, rehydrate_wallet}
use backend_challenge.Postgres.Tables.{Db, first, update_first}
use backend_challenge.Postgres.UnitOfWork.{Runtime, Action, statement, query}

-- The primary key and `uq_wallet_player_currency`.
unfoldable pub wallet_clash : Wallet → Wallet → Bool
wallet_clash wallet row =
    row.id == wallet.id
    || row.player_id == wallet.player_id && str_eq row.balance.currency wallet.balance.currency

unfoldable pub insert_wallet : Wallet → Time → Db → Result (Unit {0} × Db)
insert_wallet wallet now db = elim (first (wallet_clash wallet) db.wallets) [
  | some row ↦ fail wallet_conflict
  | none ↦ ok (tt, record db { wallets = wallet ∷ db.wallets })
]

-- `isUniqueViolation`
unfoldable pub is_unique_violation : Error → Bool
is_unique_violation e = elim (database_code e) [
  | none ↦ false
  | some code ↦ str_eq code (text "23505")
]

-- What `Create` returns for the result of its statement.
unfoldable pub conflicting : Result (Unit {0}) → Result (Unit {0})
conflicting (ok x) = ok x
conflicting (err e) = if is_unique_violation e then fail wallet_conflict else err e

-- `scan`, `MoneyFromMinorUnits` and `RehydrateWallet` on a row.
unfoldable pub read_wallet : Wallet → Result Wallet
read_wallet row =
    Errors.◌>>=◌ (money_from_minor_units row.balance.amount row.balance.currency) (λ money.
      rehydrate_wallet row.id row.player_id money row.version row.created_at row.updated_at)

unfoldable pub select_wallet : Uuid → Time → Db → Result Wallet
select_wallet id now db = elim (first (λ row. row.id == id) db.wallets) [
  | none ↦ fail wallet_not_found
  | some row ↦ read_wallet row
]

-- `WHERE id = $4 AND version = $5`, where $5 is the version before the movement
unfoldable pub is_previous : Wallet → Wallet → Bool
is_previous wallet row = row.id == wallet.id && row.version == wallet.version - 1

-- The columns that `Update` sets.
abbrev pub set_balance : Wallet → Wallet → Wallet
set_balance wallet row = record row {
  balance = record { amount = wallet.balance.amount; currency = row.balance.currency };
  version = wallet.version;
  updated_at = wallet.updated_at;
}

unfoldable pub set_wallet : Wallet → Time → Db → Result (Unit {0} × Db)
set_wallet wallet now db = elim (first (is_previous wallet) db.wallets) [
  | none ↦ fail wallet_concurrent_update
  | some row ↦ ok (
    tt,
    record db { wallets = update_first (is_previous wallet) (set_balance wallet) db.wallets },
  )
]

module _ (rt : Runtime) where
  -- `Create`
  unfoldable pub create_wallet : Wallet → Action (Unit {0})
  unfolding conflicting
  create_wallet wallet w =
      let (inserted, after) = statement rt (insert_wallet wallet) w in (conflicting inserted, after)

  -- `FindByID`, and `FindByIDForUpdate` within a transaction: the lock that the latter takes orders
  -- the transactions on a wallet, and it reads the same row.
  unfoldable pub find_wallet : Uuid → Action Wallet
  find_wallet id = query rt (select_wallet id)

  -- `Update`
  unfoldable pub update_wallet : Wallet → Action (Unit {0})
  update_wallet wallet = statement rt (set_wallet wallet)
