-- ===== src/Domain/Wager/Data.antt =====
-- The data of a wager transaction (wager_transaction.go).
use backend_challenge.Base.{Bool, true, false, Option, ◌&&◌, ◌||◌, none, some}
use backend_challenge.Text.{text, Text}
use backend_challenge.Domain.Money.{Money}
use backend_challenge.Domain.Wallet.{Uuid, Time}

-- Both are strings in the program; `unknown` is any string but those that it names.
pub data WagerKind : Type 0 where
  opening bet win loss refund rollback : WagerKind
  unknown : Text → WagerKind

pub data WagerStatus : Type 0 where
  pending pending_reference processed rejected failed : WagerStatus
  unknown : Text → WagerStatus

-- `WagerTransactionState` has the same fields, exported.
pub record WagerTransaction : Type 0 where
  pub id : Uuid
  pub external_transaction_id : Text
  pub provider_id : Text
  pub idempotency_key : Text
  pub payload_hash : Text
  pub wallet_id : Uuid
  pub player_id : Uuid
  pub round_id : Text
  pub game_id : Text
  pub kind : WagerKind
  pub money : Money
  pub reference_external_transaction_id : Option Text
  pub reference_transaction_id : Option Uuid
  pub status : WagerStatus
  pub failure_code : Option Text
  pub result_balance : Option Money
  pub created_at : Time
  pub updated_at : Time

-- `IsValid` of a kind
unfoldable pub known_kind : WagerKind → Bool
known_kind (WagerKind.unknown name) = false
known_kind kind = true

abbrev pub is_opening : WagerKind → Bool
is_opening opening = true
is_opening kind = false

abbrev pub is_bet : WagerKind → Bool
is_bet bet = true
is_bet kind = false

abbrev pub is_win : WagerKind → Bool
is_win win = true
is_win kind = false

abbrev pub is_loss : WagerKind → Bool
is_loss loss = true
is_loss kind = false

abbrev pub is_refund : WagerKind → Bool
is_refund refund = true
is_refund kind = false

abbrev pub is_rollback : WagerKind → Bool
is_rollback rollback = true
is_rollback kind = false

abbrev pub is_pending : WagerStatus → Bool
is_pending pending = true
is_pending status = false

abbrev pub is_pending_reference : WagerStatus → Bool
is_pending_reference pending_reference = true
is_pending_reference status = false

abbrev pub is_processed : WagerStatus → Bool
is_processed processed = true
is_processed status = false

abbrev pub is_rejected : WagerStatus → Bool
is_rejected rejected = true
is_rejected status = false

abbrev terminal_status : WagerStatus → Bool
terminal_status processed = true
terminal_status rejected = true
terminal_status failed = true
terminal_status status = false

unfoldable pub is_terminal : WagerTransaction → Bool
is_terminal w = terminal_status w.status

-- `p != nil`
abbrev pub present {ℓ} : {A : Type ℓ} → Option A → Bool
present none = false
present (some a) = true

unfoldable pub needs_reference : WagerTransaction → Bool
needs_reference w =
    is_refund w.kind
    || is_rollback w.kind
    || is_win w.kind && present w.reference_external_transaction_id

-- `string(status)`
unfoldable pub status_text : WagerStatus → Text
status_text pending = text "PENDING"
status_text pending_reference = text "PENDING_REFERENCE"
status_text processed = text "PROCESSED"
status_text rejected = text "REJECTED"
status_text failed = text "FAILED"
status_text (unknown other) = other
