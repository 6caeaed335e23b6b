-- ===== src/Postgres/Ledger.antt =====
-- internal/infrastructure/postgres/ledger_repository.go
use backend_challenge.Base.{Bool, ◌&&◌, ◌||◌, ◌==◌, none, some, ◌∷◌}
use backend_challenge.Text.{text}
use backend_challenge.Errors.{Result, ok, err, database}
use backend_challenge.Domain.Wallet.{Time}
use backend_challenge.Domain.Ledger.{WalletLedgerEntry}
use backend_challenge.Postgres.Tables.{Db, first}
use backend_challenge.Postgres.UnitOfWork.{Runtime, Action, statement}

-- The primary key and `uq_ledger_wallet_transaction`.
unfoldable pub entry_clash : WalletLedgerEntry → WalletLedgerEntry → Bool
entry_clash entry row =
    row.id == entry.id
    || row.wallet_id == entry.wallet_id && row.transaction_id == entry.transaction_id

unfoldable pub insert_entry : WalletLedgerEntry → Time → Db → Result (Unit {0} × Db)
insert_entry entry now db = elim (first (entry_clash entry) db.ledger) [
  | some row ↦ err (database (text "23505"))
  | none ↦ ok (tt, record db { ledger = entry ∷ db.ledger })
]

module _ (rt : Runtime) where
  -- `Create`
  unfoldable pub create_entry : WalletLedgerEntry → Action (Unit {0})
  create_entry entry = statement rt (insert_entry entry)
