-- ===== src/Postgres/References.antt =====
-- internal/infrastructure/postgres/reference_repository.go
use backend_challenge.Base.{
  ℕ, suc, ℤ, pos, negsuc, neg, pos_part, ◌+ℤ◌, ◌*◌, ◌/◌, Bool, true, false, ◌&&◌, ◌||◌, Option,
  none, some, List, [], ◌∷◌, ◌==◌, leb, ltb, if◌then◌else◌,
}
use backend_challenge.Text.{Text}
use backend_challenge.Errors.{Result, ok, err, fail, other, wager_not_pending}
use backend_challenge.Domain.Wallet.{Uuid, Time, Wallet}
use backend_challenge.Domain.Wager.{WagerTransaction, is_pending_reference}
use backend_challenge.Domain.Events.{
  IntegrationEvent, EventMetadata, pending_reference_event, event_metadata,
}
use backend_challenge.Postgres.Tables.{Db, WagerRow, OutboxRow, first, update_first}
use backend_challenge.Postgres.UnitOfWork.{Runtime, Action, statement, query, pure, ◌>>=◌}
use backend_challenge.Postgres.Wagers.{find_by_id}

pub record PendingReference : Type 0 where
  pub transaction : WagerTransaction
  pub attempts : ℕ
  pub correlation_id : Text
  pub causation_id : Text

-- `ORDER BY` two numbers, `LIMIT 1`, over the rows of a condition.
module _ {ℓ} {A : Type ℓ} (key : A → ℕ × ℕ) (p : A → Bool) where
  sooner : A → A → Bool
  sooner a b = ltb (key a).0 (key b).0 || (key a).0 == (key b).0 && leb (key a).1 (key b).1

  unfoldable pub earliest : List A → Option A
  unfolding sooner
  earliest [] = none
  earliest (x ∷ xs) =
      let rest = earliest xs in
      if p x
      then elim rest [ none ↦ some x | some y ↦ some (if sooner x y then x else y) ]
      else rest

retry_key : WagerRow → ℕ × ℕ
retry_key row = (row.next_reference_attempt_at, row.columns.id)

-- `status='PENDING_REFERENCE' AND next_reference_attempt_at<=clock_timestamp()`
unfoldable pub is_due : Time → WagerRow → Bool
is_due now row = is_pending_reference row.columns.status && leb row.next_reference_attempt_at now

abbrev found {ℓ} : {A : Type ℓ} → Option A → Bool
found none = false
found (some a) = true

-- The wallet of the first operation that is due; the join drops one that has no wallet.
due_wallet : Time → Db → Result (Option Uuid)
unfolding earliest retry_key is_due first
due_wallet now db =
    elim (earliest retry_key
      (λ row.
        is_due now row && found (first (λ (w : Wallet). w.id == row.columns.wallet_id) db.wallets))
      db.wagers) [ none ↦ ok none | some row ↦ ok (some row.columns.wallet_id) ]

unfoldable pub due_operation : Uuid → Time → Db → Result (Option WagerRow)
unfolding earliest retry_key is_due
due_operation wallet_id now db =
    ok (earliest retry_key (λ row. row.columns.wallet_id == wallet_id && is_due now row) db.wagers)

event_key : OutboxRow → ℕ × ℕ
event_key row = ((event_metadata row.event).occurred_at, (event_metadata row.event).event_id)

is_waiting_event : Uuid → Uuid → IntegrationEvent → Bool
is_waiting_event wallet_id transaction_id (pending_reference_event metadata event_data) =
    metadata.aggregate_id == wallet_id && event_data.transaction_id == transaction_id
is_waiting_event wallet_id transaction_id event = false

-- The tracing of the event that announced the wait.
waiting_metadata : Uuid → Uuid → Time → Db → Result EventMetadata
unfolding earliest event_key is_waiting_event
waiting_metadata wallet_id transaction_id now db =
    elim (earliest event_key (λ row. is_waiting_event wallet_id transaction_id row.event)
      db.outbox) [ none ↦ err other | some row ↦ ok (event_metadata row.event) ]

-- `delay.Microseconds()` times a microsecond, for a duration in nanoseconds
unfoldable pub whole_micros : ℤ → ℤ
whole_micros (pos n) = pos (n / 1000 * 1000)
whole_micros (negsuc n) = neg (pos (suc n / 1000 * 1000))

-- `clock_timestamp()` plus an interval
unfoldable pub later : Time → ℤ → Time
later now delay = pos_part (pos now +ℤ whole_micros delay)

unfoldable pub set_attempts : ℕ → Time → WagerRow → WagerRow
set_attempts attempts next row = record row {
  reference_attempts = attempts;
  next_reference_attempt_at = next;
}

unfoldable pub is_waiting_row : Uuid → WagerRow → Bool
is_waiting_row id row = row.columns.id == id && is_pending_reference row.columns.status

unfoldable pub schedule : Uuid → ℕ → ℤ → Time → Db → Result (Unit {0} × Db)
schedule id attempts delay now db = elim (first (is_waiting_row id) db.wagers) [
  | none ↦ fail wager_not_pending
  | some row ↦ ok (
    tt,
    record db {
      wagers = update_first (is_waiting_row id) (set_attempts attempts (later now delay)) db.wagers;
    },
  )
]

module _ (rt : Runtime) where
  -- The steps of `ClaimPendingReference` behind the choice of a row.
  unfoldable pub claim_row : Uuid → Option WagerRow → Action (Option PendingReference)
  unfolding waiting_metadata
  claim_row wallet_id none = pure none
  claim_row wallet_id (some row) = do
    transaction ← find_by_id rt row.columns.provider_id row.columns.id
    metadata ← query rt (waiting_metadata wallet_id row.columns.id)
    pure (
        some (record {
          transaction = transaction;
          attempts = row.reference_attempts;
          correlation_id = metadata.correlation_id;
          causation_id = metadata.causation_id;
        }))

  unfoldable pub claim_wallet : Option Uuid → Action (Option PendingReference)
  unfolding claim_row due_operation
  claim_wallet none = pure none
  claim_wallet (some wallet_id) = do
    row ← query rt (due_operation wallet_id)
    claim_row wallet_id row

  unfoldable pub claim_pending_reference : Action (Option PendingReference)
  unfolding claim_wallet due_wallet
  claim_pending_reference = do wallet ← query rt due_wallet; claim_wallet wallet

  unfoldable pub schedule_reference_retry : Uuid → ℕ → ℤ → Action (Unit {0})
  schedule_reference_retry id attempts delay = statement rt (schedule id attempts delay)
