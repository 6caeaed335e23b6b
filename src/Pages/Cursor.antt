-- ===== src/Pages/Cursor.antt =====
-- The cursor of a page is read back as the position of its last entry (`ListLedger.Execute` and
-- `decodeLedgerCursor`, internal/application/list_ledger.go).
use backend_challenge.Base.{
  ◌≡◌, ◌≢◌, ◌≤◌, ◌<◌, sym, ap, ◌∙◌, ℕ, suc, ◌-◌, true, false, inl, inr, some, List, ltb, length,
  arith, All, Option-cases,
}
use backend_challenge.Text.{Text, is_empty}
use backend_challenge.Errors.{ok, ok_inj, err_not_ok, >>=-eq-ok}
use backend_challenge.Domain.Wallet.{Uuid}
use backend_challenge.Domain.Ledger.{WalletLedgerEntry}
use backend_challenge.Application.{
  LedgerPosition, LedgerPage, CursorCodec, position_of, nth, ledger_page, decode_ledger_cursor,
  valid_position,
}
use backend_challenge.Pages.Continuation.{nth-All, nth-take}

-- A text that is encoded is read back, is not empty and has at most 512 bytes.
pub record IsFaithful (codec : CursorCodec) : Type 0 where
  pub read_back : (p : LedgerPosition) (s : Text) → codec.encode p ≡ ok s → codec.decode s ≡ some p
  pub non_empty : (p : LedgerPosition) (s : Text) → codec.encode p ≡ ok s → is_empty s ≡ false
  pub short : (p : LedgerPosition) (s : Text) → codec.encode p ≡ ok s → length s ≤ 512

abbrev pub IsIdentified : WalletLedgerEntry → Type 0
IsIdentified entry = (entry.id ≢ 0) × (entry.created_at ≢ 0)

decode_encoded :
    (codec : CursorCodec) (id : Uuid) (entry : WalletLedgerEntry) (s : Text)
    → IsFaithful codec
    → IsIdentified entry
    → codec.encode (position_of id entry) ≡ ok s
    → decode_ledger_cursor codec id s ≡ ok (some (position_of id entry))
unfolding decode_ledger_cursor valid_position
decode_encoded codec id entry s faithful (identified, dated) h =
    let fits : ltb 512 (length s) ≡ false = ground (arith, faithful.short _ s h) in
    rw (faithful.non_empty _ s h, fits, faithful.read_back _ s h)
      (ground (arith, identified, dated))

-- Where a page has more entries behind it, and the entries have identifiers and dates, the cursor
-- of the page is read as the position of the last entry of the page.
pub ledger_page-cursor :
    (codec : CursorCodec) (id : Uuid) (n : ℕ) (items : List WalletLedgerEntry) (page : LedgerPage)
    → IsFaithful codec
    → All IsIdentified items
    → suc n < length items
    → ledger_page codec id (suc n) items ≡ ok page
    → (last : WalletLedgerEntry) × (nth n page.items ≡ some last)
      × (decode_ledger_cursor codec id page.next_cursor ≡ ok (some (position_of id last)))
unfolding ledger_page
ledger_page-cursor codec id n items page faithful identified more h =
    let longer : ltb (suc n) (length items) ≡ true = ground (arith, more) in
    let index : suc n - 1 ≡ n = omega arith in
    elim (Option-cases (nth n items)) [
      | inl missing ↦ absurd (err_not_ok (rw (longer, index, missing) at h))
      | inr (last, found) ↦
          let (cursor, encoded, done) =
            >>=-eq-ok (codec.encode (position_of id last)) _ (rw (longer, index, found) at h) in
          let same = ok_inj done in
          (
            last,
            ap (λ p. nth n p.items) (sym same) ∙ nth-take n items ∙ found,
            ap (λ p. decode_ledger_cursor codec id p.next_cursor) (sym same)
                ∙ decode_encoded codec id last cursor faithful
                    (nth-All IsIdentified n items last identified found) encoded,
          )
    ]
