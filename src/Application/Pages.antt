-- ===== src/Application/Pages.antt =====
-- `ListLedger.Execute` (internal/application/list_ledger.go) over `ListLedger`
-- (internal/infrastructure/postgres/wallet_queries.go).
use backend_challenge.Base.{
  ℕ, zero, suc, ◌-◌, ◌+◌, Bool, true, not, ◌||◌, ◌&&◌, Option, none, some, List, [], ◌∷◌, ◌==◌, ltb,
  ℤ, pos, ltb_ℤ, pos_part, length, take, if◌then◌else◌,
}
use backend_challenge.Text.{Text, is_empty}
use backend_challenge.Errors
use backend_challenge.Errors.{
  Result, ok, fail, fail_if, ◌>>=◌, ◌>>◌, invalid_ledger_page, invalid_wallet,
}
use backend_challenge.Domain.Money.{money_from_minor_units}
use backend_challenge.Domain.Wallet.{Uuid, Time, is_nil, is_zero_time}
use backend_challenge.Domain.Ledger.{WalletLedgerEntry}
use backend_challenge.Postgres
use backend_challenge.Postgres.{Runtime, Db, Action, lift, query, find_wallet}
use backend_challenge.Application.Reconcile.{financial_state}

pub record LedgerPosition : Type 0 where
  pub wallet_id : Uuid
  pub created_at : Time
  pub id : Uuid

abbrev pub position_of : Uuid → WalletLedgerEntry → LedgerPosition
position_of wallet_id entry = record {
  wallet_id = wallet_id;
  created_at = entry.created_at;
  id = entry.id;
}

-- A `LedgerRecord` has the fields of the entry.
pub record LedgerPage : Type 0 where
  pub items : List WalletLedgerEntry
  pub next_cursor : Text

module _ {ℓ} {A : Type ℓ} where
  -- The rows that a condition keeps.
  unfoldable pub keep : (A → Bool) → List A → List A
  keep p [] = []
  keep p (x ∷ xs) = let rest = keep p xs in if p x then x ∷ rest else rest

  unfoldable pub nth : ℕ → List A → Option A
  nth n [] = none
  nth zero (x ∷ xs) = some x
  nth (suc n) (x ∷ xs) = nth n xs

-- `(created_at,id) < ($3,$4)`
unfoldable pub is_below : Time → Uuid → WalletLedgerEntry → Bool
is_below created_at id entry =
    ltb entry.created_at created_at || entry.created_at == created_at && ltb entry.id id

unfoldable pub is_after : Option LedgerPosition → WalletLedgerEntry → Bool
unfolding is_below
is_after none entry = true
is_after (some position) entry = is_below position.created_at position.id entry

-- `ORDER BY created_at DESC,id DESC`
unfoldable pub place : WalletLedgerEntry → List WalletLedgerEntry → List WalletLedgerEntry
unfolding is_below
place entry [] = entry ∷ []
place entry (x ∷ xs) =
    let rest = place entry xs in
    if is_below entry.created_at entry.id x then entry ∷ x ∷ xs else x ∷ rest

-- The entries with `wallet_id=$1`, in that order.
unfoldable pub ordered : Uuid → List WalletLedgerEntry → List WalletLedgerEntry
unfolding place
ordered wallet_id [] = []
ordered wallet_id (entry ∷ ledger) =
    let rest = ordered wallet_id ledger in
    if entry.wallet_id == wallet_id then place entry rest else rest

-- The rows of the query.
unfoldable pub page_rows :
    Uuid → Option LedgerPosition → ℕ → List WalletLedgerEntry → List WalletLedgerEntry
unfolding keep is_after ordered
page_rows wallet_id position limit ledger =
    take limit (keep (is_after position) (ordered wallet_id ledger))

-- The amounts of a row, which has one column for their currency.
unfoldable pub read_entry : WalletLedgerEntry → Result WalletLedgerEntry
unfolding financial_state
read_entry row = do
  money ← financial_state (money_from_minor_units row.money.amount row.money.currency)
  before ← financial_state (money_from_minor_units row.balance_before.amount row.money.currency)
  after ← financial_state (money_from_minor_units row.balance_after.amount row.money.currency)
  ok (record row { money = money; balance_before = before; balance_after = after })

unfoldable pub read_entries : List WalletLedgerEntry → Result (List WalletLedgerEntry)
unfolding read_entry
read_entries [] = ok []
read_entries (row ∷ rows) = do
  entry ← read_entry row
  entries ← read_entries rows
  ok (entry ∷ entries)

-- The JSON text of a position in base64: `encode` is `json.Marshal` and `EncodeToString`, `decode`
-- is `DecodeString`, the strict decoder of JSON and the end of the input behind its value.
pub record CursorCodec : Type 0 where
  pub encode : LedgerPosition → Result Text
  pub decode : Text → Option LedgerPosition

unfoldable pub valid_position : Uuid → Option LedgerPosition → Result (Option LedgerPosition)
valid_position wallet_id none = fail invalid_ledger_page
valid_position wallet_id (some position) =
    if not (position.wallet_id == wallet_id)
      || is_nil position.id
      || is_zero_time position.created_at
    then fail invalid_ledger_page
    else ok (some position)

-- `decodeLedgerCursor`
unfoldable pub decode_ledger_cursor : CursorCodec → Uuid → Text → Result (Option LedgerPosition)
unfolding valid_position
decode_ledger_cursor codec wallet_id cursor =
    if is_empty cursor
    then ok none
    else if ltb 512 (length cursor)
    then fail invalid_ledger_page
    else valid_position wallet_id (codec.decode cursor)

-- The page of the rows, one of which may be the first of the next page. The index is in range
-- where the limit is positive.
unfoldable pub ledger_page : CursorCodec → Uuid → ℕ → List WalletLedgerEntry → Result LedgerPage
unfolding nth
ledger_page codec wallet_id limit items =
    if ltb limit (length items)
    then elim (nth (limit - 1) items) [
      | none ↦ Errors.err Errors.other
      | some last ↦ (do
        cursor ← codec.encode (position_of wallet_id last)
        ok (record { items = take limit items; next_cursor = cursor }))
    ]
    else ok (record { items = items; next_cursor = [] })

module _ (rt : Runtime) (codec : CursorCodec) where
  -- `WalletQueries.ListLedger`
  unfoldable pub list_rows : Uuid → Option LedgerPosition → ℕ → Action (List WalletLedgerEntry)
  list_rows wallet_id position limit =
      Postgres.◌>>=◌ (find_wallet rt wallet_id)
        (λ wallet. query rt (λ now db. read_entries (page_rows wallet_id position limit db.ledger)))

  -- `Execute`
  unfoldable pub list_ledger : Uuid → Text → ℤ → Action LedgerPage
  list_ledger wallet_id cursor limit =
      Postgres.◌>>◌ (lift (fail_if (is_nil wallet_id) invalid_wallet)) (
        Postgres.◌>>◌
          (lift (fail_if (ltb_ℤ limit (pos 1) || ltb_ℤ (pos 100) limit) invalid_ledger_page))
          (Postgres.◌>>=◌ (lift (decode_ledger_cursor codec wallet_id cursor)) (λ position.
            Postgres.◌>>=◌ (list_rows wallet_id position (pos_part limit + 1))
              (λ items. lift (ledger_page codec wallet_id (pos_part limit) items)))))
