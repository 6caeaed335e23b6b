-- ===== src/Books/Settlement.antt =====
-- The settlement of a movement and its ledger entry close the books (process_wager.go).
use backend_challenge.Base.{ap, ◌∙◌, ◌≡◌, IsInt64}
use backend_challenge.Errors.{ok}
use backend_challenge.Domain.Money
use backend_challenge.Domain.Money.{Money}
use backend_challenge.Domain.Wallet.{Wallet}
use backend_challenge.Domain.Ledger.{LedgerDirection}
use backend_challenge.Domain.Ledger.Entry.{new_wallet_ledger_entry_change}
use backend_challenge.Domain.Wager.{WagerTransaction, mark_processed}
use backend_challenge.Domain.Wager.Transitions.{mark_processed_inv}
use backend_challenge.Postgres.{Runtime}
use backend_challenge.Application.{Trace, settle, record_movement}
use backend_challenge.Books.Logic.{
  Frames->>=, lift->>=, lift-Frames, pure-Frames, Books, Ensures, >>=-Ensures, pure-Ensures,
  Frames-Ensures, Ensures-weaken, clock-Frames, fresh_id-Frames,
}
use backend_challenge.Books.Frames.{update_wager-Frames, create_event-Frames}
use backend_challenge.Books.Balance.{IsBalanced}
use backend_challenge.Books.Halfway.{IsHalfway}
use backend_challenge.Books.Movement.{IsMoved, create_entry-Ensures}

-- The operation that is returned has the given amount.
abbrev pub Same : (Books → Type 0) → Money → WagerTransaction → Books → Type 0
Same P money t b = P b × (t.money ≡ money)

module _ (rt : Runtime) (trace : Trace) where
  module _ (P : Books → Type 0) where
    same_money : (v w : WagerTransaction) → v ≡ w → v.money ≡ w.money
    same_money v w h = ap (λ (u : WagerTransaction). u.money) h

    settled-money :
        (t processed : WagerTransaction) (wallet : Wallet)
        (now : backend_challenge.Domain.Wallet.Time)
        → mark_processed now t wallet.balance ≡ ok processed
        → processed.money ≡ t.money
    settled-money t processed wallet now h =
        ap (λ (v : WagerTransaction). v.money)
          (mark_processed_inv now t wallet.balance processed h).2

    pub settle-Ensures :
        (t : WagerTransaction) (wallet : Wallet)
        → Ensures P (settle rt trace t wallet) (Same P t.money)
    unfolding settle
    settle-Ensures t wallet = Frames->>= P (Same P t.money) _ _ (clock-Frames rt) (λ now.
        lift->>= P (Same P t.money) _ _ (λ processed done.
          Frames->>= P (Same P t.money) _ _ (update_wager-Frames rt processed) (λ stored.
            Frames->>= P (Same P t.money) _ _ (fresh_id-Frames rt) (λ id.
              Frames->>= P (Same P t.money) _ _ (lift-Frames _) (λ event.
                Frames->>= P (Same P t.money) _ _ (create_event-Frames rt event) (λ sent.
                  Ensures-weaken P _ _ (Same P t.money) (pure-Ensures P processed) (λ v b h. (
                    h.0,
                    same_money v processed h.1 ∙ settled-money t processed wallet now done,
                  ))))))))

  -- The entry of a movement, of the amount that was settled, closes the books.
  pub record_movement-Ensures :
      (processed : WagerTransaction) (direction : LedgerDirection) (before wallet : Wallet)
      → IsInt64 processed.money.amount
      → Money.IsValid before.balance
      → IsMoved before wallet
      → Ensures
          (IsHalfway before wallet)
          (record_movement rt trace processed direction before wallet)
          (λ a. IsBalanced)
  unfolding record_movement
  record_movement-Ensures processed direction before wallet range hb moved =
      let H = IsHalfway before wallet in
      let R = λ (a : WagerTransaction). IsBalanced in
      Frames->>= H R _ _ (clock-Frames rt) (λ now.
        Frames->>= H R _ _ (fresh_id-Frames rt) (λ entry_id. lift->>= H R _ _ (λ entry done.
          let (owner, change) =
            new_wallet_ledger_entry_change now entry_id wallet.id processed.id direction
              processed.money before.balance wallet.balance entry range hb moved.valid done in
          >>=-Ensures _ _ H (λ u. IsBalanced) R
            (create_entry-Ensures rt before wallet entry owner change)
            (λ u. Frames->>= IsBalanced R _ _ (fresh_id-Frames rt) (λ id.
              Frames->>= IsBalanced R _ _ (lift-Frames _) (λ changed.
                Frames->>= IsBalanced R _ _ (create_event-Frames rt changed)
                  (λ sent. Frames-Ensures IsBalanced _ (pure-Frames processed))))))))
