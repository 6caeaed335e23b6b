-- ===== src/Postgres/Wagers.antt =====
-- internal/infrastructure/postgres/wager_repository.go
use backend_challenge.Base.{Bool, true, false, not, ◌&&◌, ◌||◌, Option, none, some, ◌∷◌, ◌==◌}
use backend_challenge.Text.{Text, text, str_eq}
use backend_challenge.Errors
use backend_challenge.Errors.{
  Result, ok, err, fail, fail_if, database, wager_conflict, wager_not_found, wager_not_pending,
}
use backend_challenge.Domain.Money.{Money, money_from_minor_units}
use backend_challenge.Domain.Wallet.{Uuid, Time}
use backend_challenge.Domain.Wager.{
  WagerTransaction, is_opening, is_refund, is_rollback, is_processed, is_pending,
  is_pending_reference, rehydrate_wager_transaction,
}
use backend_challenge.Postgres.Tables.{Db, WagerRow, first, update_first, sql_eq}
use backend_challenge.Postgres.UnitOfWork.{Runtime, Action, statement, query}

-- `result_balance_cents` is read in the currency of the row.
unfoldable pub stored_balance : Money → Option Money → Option Money
stored_balance money none = none
stored_balance money (some balance) =
    some (record { amount = balance.amount; currency = money.currency })

-- The columns of a transaction.
unfoldable pub to_columns : WagerTransaction → WagerTransaction
unfolding stored_balance
to_columns t = record t { result_balance = stored_balance t.money t.result_balance }

points_to : Option Uuid → Uuid → Bool
points_to none id = false
points_to (some reference) id = reference == id

-- `reference_transaction_id=$1 AND kind IN ('REFUND','ROLLBACK') AND status='PROCESSED'`
unfoldable pub reverses : Uuid → WagerRow → Bool
unfolding points_to
reverses reference_id row =
    points_to row.columns.reference_transaction_id reference_id
    && (is_refund row.columns.kind || is_rollback row.columns.kind)
    && is_processed row.columns.status

-- A row that `uq_wager_successful_reversal` forbids beside this transaction.
same_reversal : WagerTransaction → Option Uuid → WagerRow → Bool
unfolding reverses
same_reversal t none row = false
same_reversal t (some reference) row =
    (is_refund t.kind || is_rollback t.kind) && is_processed t.status && reverses reference row

-- The unique indexes that an insert may run into.
unfoldable pub wager_clash : WagerTransaction → WagerRow → Bool
unfolding same_reversal
wager_clash t row =
    row.columns.id == t.id
    || sql_eq row.columns.provider_id t.provider_id
      && sql_eq row.columns.external_transaction_id t.external_transaction_id
    || sql_eq row.columns.provider_id t.provider_id
      && sql_eq row.columns.idempotency_key t.idempotency_key
    || is_opening row.columns.kind && is_opening t.kind && row.columns.wallet_id == t.wallet_id
    || same_reversal t t.reference_transaction_id row

-- `INSERT … ON CONFLICT DO NOTHING`, with `reference_attempts` 0 and `next_reference_attempt_at`
-- `now()`.
unfoldable pub insert_wager : WagerTransaction → Time → Db → Result (Unit {0} × Db)
insert_wager t now db = elim (first (wager_clash t) db.wagers) [
  | some row ↦ fail wager_conflict
  | none ↦ ok (
    tt,
    record db {
      wagers =
          record { columns = to_columns t; reference_attempts = 0; next_reference_attempt_at = now }
          ∷ db.wagers;
    },
  )
]

-- `scanWager` on a row.
unfoldable pub scan_wager : WagerRow → Result WagerTransaction
scan_wager row =
    Errors.◌>>=◌ (money_from_minor_units row.columns.money.amount row.columns.money.currency)
      (λ money. rehydrate_wager_transaction (record row.columns {
        money = money;
        result_balance = stored_balance money row.columns.result_balance;
      }))

unfoldable pub select_wager : (WagerRow → Bool) → Time → Db → Result WagerTransaction
select_wager matches now db = elim (first matches db.wagers) [
  | none ↦ fail wager_not_found
  | some row ↦ scan_wager row
]

-- The three conditions of the lookups.
unfoldable pub has_id : Text → Uuid → WagerRow → Bool
has_id provider_id id row = str_eq row.columns.provider_id provider_id && row.columns.id == id

unfoldable pub has_external_id : Text → Text → WagerRow → Bool
has_external_id provider_id external_id row =
    sql_eq row.columns.provider_id provider_id
    && sql_eq row.columns.external_transaction_id external_id

unfoldable pub has_key : Text → Text → WagerRow → Bool
has_key provider_id key row =
    sql_eq row.columns.provider_id provider_id && sql_eq row.columns.idempotency_key key

-- `WHERE id=$1 AND status IN ('PENDING','PENDING_REFERENCE')`
unfoldable pub is_open_row : Uuid → WagerRow → Bool
is_open_row id row =
    row.columns.id == id
    && (is_pending row.columns.status || is_pending_reference row.columns.status)

-- The columns that `Update` sets.
unfoldable pub set_outcome : WagerTransaction → WagerRow → WagerRow
set_outcome t row = record row {
  columns = record (row.columns) {
    status = t.status;
    reference_transaction_id = t.reference_transaction_id;
    failure_code = t.failure_code;
    result_balance = stored_balance row.columns.money t.result_balance;
    updated_at = t.updated_at;
  };
}

-- Another row that reverses the same reference.
unfoldable pub other_reversal : WagerTransaction → WagerRow → Bool
unfolding same_reversal
other_reversal t row =
    not (row.columns.id == t.id) && same_reversal t t.reference_transaction_id row

unfoldable pub set_wager : WagerTransaction → Time → Db → Result (Unit {0} × Db)
unfolding other_reversal
set_wager t now db = elim (first (is_open_row t.id) db.wagers) [
  | none ↦ fail wager_not_pending
  | some row ↦ elim (first (other_reversal t) db.wagers) [
    | some other ↦ err (database (text "23505"))
    | none ↦
        ok (tt, record db { wagers = update_first (is_open_row t.id) (set_outcome t) db.wagers })
  ]
]

reversal_exists : Uuid → Time → Db → Result Bool
reversal_exists reference_id now db = elim (first (reverses reference_id) db.wagers) [
  | none ↦ ok false
  | some row ↦ ok true
]

module _ (rt : Runtime) where
  -- `Create`
  unfoldable pub create_wager : WagerTransaction → Action (Unit {0})
  create_wager t = statement rt (insert_wager t)

  unfoldable pub find_by_id : Text → Uuid → Action WagerTransaction
  find_by_id provider_id id = query rt (select_wager (has_id provider_id id))

  unfoldable pub find_by_external_id : Text → Text → Action WagerTransaction
  find_by_external_id provider_id external_id =
      query rt (select_wager (has_external_id provider_id external_id))

  unfoldable pub find_by_idempotency_key : Text → Text → Action WagerTransaction
  find_by_idempotency_key provider_id key = query rt (select_wager (has_key provider_id key))

  unfoldable pub has_successful_reversal : Uuid → Action Bool
  unfolding reversal_exists
  has_successful_reversal reference_id = query rt (reversal_exists reference_id)

  -- `Update`
  unfoldable pub update_wager : WagerTransaction → Action (Unit {0})
  update_wager t = statement rt (set_wager t)
