-- ===== src/Application/Reconcile.antt =====
-- `ReconcileWallet.Execute` (internal/application/reconcile_wallet.go) over
-- `ReconciliationSnapshot` (internal/infrastructure/postgres/wallet_queries.go).
use backend_challenge.Base.{
  ℕ, suc, Bool, none, some, List, [], ◌∷◌, ◌==◌, ℤ, pos, ◌+ℤ◌, ltb_ℤ, max_int64, min_int64, ◌||◌,
  if◌then◌else◌,
}
use backend_challenge.Errors.{
  Result, ok, err, fail, fail_if, sentinel, joined, ◌>>=◌, ◌>>◌, wallet_not_found,
  invalid_financial_state, invalid_wallet,
}
use backend_challenge.Domain.Money
use backend_challenge.Domain.Money.{Money, money_from_minor_units}
use backend_challenge.Domain.Wallet.{Uuid, Time, Wallet, is_nil}
use backend_challenge.Domain.Ledger.{WalletLedgerEntry, signed_amount}
use backend_challenge.Postgres
use backend_challenge.Postgres.{Runtime, Db, Action, first, lift, query}

pub record ReconciliationSnapshot : Type 0 where
  pub wallet_id : Uuid
  pub stored_balance : Money
  pub calculated_balance : Money
  pub checked_entries : ℕ

pub record ReconciliationResult : Type 0 where
  pub wallet_id : Uuid
  pub stored_balance : Money
  pub calculated_balance : Money
  pub difference : Money
  pub consistent : Bool
  pub checked_entries : ℕ

-- What an entry adds to the balance of the given wallet, and
-- `SUM(CASE WHEN l.direction='CREDIT' THEN l.amount_cents ELSE -l.amount_cents END)`, exact in
-- NUMERIC, with `COUNT(l.id)`.
unfoldable pub entry_amount : Uuid → WalletLedgerEntry → ℤ
entry_amount id entry =
    if entry.wallet_id == id then signed_amount entry.direction entry.money.amount else pos 0

unfoldable pub ledger_sum : Uuid → List WalletLedgerEntry → ℤ
unfolding entry_amount
ledger_sum id [] = pos 0
ledger_sum id (entry ∷ ledger) = entry_amount id entry +ℤ ledger_sum id ledger

unfoldable pub entry_count : Uuid → List WalletLedgerEntry → ℕ
entry_count id [] = 0
entry_count id (entry ∷ ledger) =
    let rest = entry_count id ledger in if entry.wallet_id == id then suc rest else rest

-- `fmt.Errorf("%w: %w", ports.ErrInvalidFinancialState, err)`
unfoldable pub financial_state : {A : Type 0} → Result A → Result A
financial_state (ok a) = ok a
financial_state (err e) = err (joined (sentinel invalid_financial_state) e)

-- The text of an exact sum is read back by `strconv.ParseInt` just where it is an `int64`.
unfoldable pub read_sum : ℤ → Result ℤ
read_sum total = do
  fail_if (ltb_ℤ total min_int64 || ltb_ℤ max_int64 total) invalid_financial_state
  ok total

unfoldable pub snapshot_of : List WalletLedgerEntry → Wallet → Result ReconciliationSnapshot
unfolding read_sum financial_state
snapshot_of ledger row = do
  cents ← read_sum (ledger_sum row.id ledger)
  stored ← financial_state (money_from_minor_units row.balance.amount row.balance.currency)
  calculated ← financial_state (money_from_minor_units cents row.balance.currency)
  ok (record {
    wallet_id = row.id;
    stored_balance = stored;
    calculated_balance = calculated;
    checked_entries = entry_count row.id ledger;
  })

unfoldable pub reconciliation_snapshot : Uuid → Time → Db → Result ReconciliationSnapshot
unfolding snapshot_of
reconciliation_snapshot id now db = elim (first (λ (row : Wallet). row.id == id) db.wallets) [
  | none ↦ fail wallet_not_found
  | some row ↦ snapshot_of db.ledger row
]

unfoldable pub reconciliation_result : ReconciliationSnapshot → Result ReconciliationResult
unfolding financial_state
reconciliation_result snapshot = do
  difference ← financial_state (Money.sub snapshot.stored_balance snapshot.calculated_balance)
  ok (record {
    wallet_id = snapshot.wallet_id;
    stored_balance = snapshot.stored_balance;
    calculated_balance = snapshot.calculated_balance;
    difference = difference;
    consistent = Money.is_zero difference;
    checked_entries = snapshot.checked_entries;
  })

module _ (rt : Runtime) where
  -- `Execute`
  unfoldable pub reconcile_wallet : Uuid → Action ReconciliationResult
  reconcile_wallet id = Postgres.◌>>◌ (lift (fail_if (is_nil id) invalid_wallet)) (
      Postgres.◌>>=◌ (query rt (reconciliation_snapshot id))
        (λ snapshot. lift (reconciliation_result snapshot)))
