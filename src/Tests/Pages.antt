-- ===== src/Tests/Pages.antt =====
-- The pages of a ledger of three entries.
use backend_challenge.Base.{
  ◌≤◌, length, ◌≡◌, ◌++◌, subst, refl, arith, Option, some, none, false, [], ◌∷◌, List,
}
use backend_challenge.Text.{Text, is_empty}
use backend_challenge.Errors.{ok, ok_inj}
use backend_challenge.Domain.Wallet.{Uuid, Time}
use backend_challenge.Domain.Ledger.{WalletLedgerEntry, credit}
use backend_challenge.Application.{
  LedgerPosition, LedgerPage, CursorCodec, position_of, page_rows, keep, nth, ordered, is_after,
  is_below, place, ledger_page, decode_ledger_cursor,
}
use backend_challenge.Pages.Order.{HasUniqueIds}
use backend_challenge.Pages.Continuation.{page_rows-continues}
use backend_challenge.Pages.Cursor.{IsFaithful, ledger_page-cursor}
use backend_challenge.Tests.Scenario.{money}

abbrev entry : Uuid → Time → WalletLedgerEntry
entry id created_at = record {
  id = id;
  wallet_id = 102;
  transaction_id = 6;
  direction = credit;
  money = money 5;
  balance_before = money 0;
  balance_after = money 5;
  created_at = created_at;
}

abbrev ledger : List WalletLedgerEntry
ledger = entry 31 4 ∷ entry 33 9 ∷ entry 32 4 ∷ []

-- Of two entries of one time, the greater identifier comes first.
in_order : page_rows 102 none 100 ledger ≡ entry 33 9 ∷ entry 32 4 ∷ entry 31 4 ∷ []
unfolding page_rows keep is_after ordered place is_below
in_order = refl

second : nth 1 (page_rows 102 none 2 ledger) ≡ some (entry 32 4)
unfolding page_rows keep is_after ordered place is_below nth
second = refl

ledger-HasUniqueIds : HasUniqueIds ledger
ledger-HasUniqueIds = ((omega arith, (omega arith, tt)), ((omega arith, tt), (tt, tt)))

page_rows-continues_example :
    page_rows 102 none 2 ledger ++ page_rows 102 (some (position_of 102 (entry 32 4))) 2 ledger
    ≡ page_rows 102 none 4 ledger
page_rows-continues_example =
    page_rows-continues 102 none 1 2 ledger (entry 32 4) ledger-HasUniqueIds second

-- A cursor of three characters.
abbrev decode_numbers : Text → Option LedgerPosition
decode_numbers (w ∷ t ∷ i ∷ []) = some (record { wallet_id = w; created_at = t; id = i })
decode_numbers s = none

abbrev codec : CursorCodec
codec = record {
  encode = λ p. ok (p.wallet_id ∷ p.created_at ∷ p.id ∷ []);
  decode = decode_numbers;
}

codec-IsFaithful : IsFaithful codec
codec-IsFaithful = record {
  read_back = λ p s h. subst (λ s. decode_numbers s ≡ some p) (ok_inj h) refl;
  non_empty = λ p s h. subst (λ s. is_empty s ≡ false) (ok_inj h) refl;
  short = λ p s h. subst (λ s. length s ≤ 512) (ok_inj h) (omega arith);
}

abbrev first_page : LedgerPage
first_page = record { items = entry 33 9 ∷ entry 32 4 ∷ []; next_cursor = 102 ∷ 4 ∷ 32 ∷ [] }

first_page_is : ledger_page codec 102 2 (entry 33 9 ∷ entry 32 4 ∷ entry 31 4 ∷ []) ≡ ok first_page
unfolding ledger_page nth
first_page_is = refl

ledger_page-cursor_example :
    (last : WalletLedgerEntry) × (nth 1 first_page.items ≡ some last)
    × (decode_ledger_cursor codec 102 first_page.next_cursor ≡ ok (some (position_of 102 last)))
ledger_page-cursor_example =
    ledger_page-cursor codec 102 1 (entry 33 9 ∷ entry 32 4 ∷ entry 31 4 ∷ []) first_page
      codec-IsFaithful
      ((omega arith, omega arith), ((omega arith, omega arith), ((omega arith, omega arith), tt)))
      (omega arith) first_page_is
