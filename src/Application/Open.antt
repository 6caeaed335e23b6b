-- ===== src/Application/Open.antt =====
-- `OpenWallet.Execute` (internal/application/open_wallet.go).
use backend_challenge.Base.{if◌then◌else◌, []}
use backend_challenge.Text.{Text}
use backend_challenge.Domain.Money
use backend_challenge.Domain.Money.{Money}
use backend_challenge.Domain.Wallet.{Uuid, Wallet, new_wallet}
use backend_challenge.Domain.Wager.{new_opening_transaction}
use backend_challenge.Domain.Ledger.{credit, new_wallet_ledger_entry}
use backend_challenge.Domain.Events.{new_wager_transaction_processed, new_wallet_balance_changed}
use backend_challenge.Postgres.{
  Runtime, Action, pure, lift, clock, fresh_id, within_transaction, ◌>>=◌, ◌>>◌, create_wallet,
  create_wager, create_entry, create_event,
}
use backend_challenge.Application.Execute.{context_error, correlation}

pub record OpenWalletInput : Type 0 where
  pub player_id : Uuid
  pub initial_balance : Money
  pub correlation_id : Text

module _ (rt : Runtime) where
  -- The opening operation of a wallet that does not start empty, its ledger entry and events.
  unfoldable pub open_with : Text → Wallet → Action (Unit {0})
  open_with correlation_id wallet = do
    settled_at ← clock rt
    opening ← lift (new_opening_transaction settled_at (rt.opening_id wallet.id) wallet)
    create_wager rt opening
    before ← lift (Money.zero_money wallet.balance.currency)
    now ← clock rt
    entry_id ← fresh_id rt
    entry ← lift (
        new_wallet_ledger_entry now entry_id wallet.id opening.id credit wallet.balance before
          wallet.balance)
    create_entry rt entry
    processed_id ← fresh_id rt
    processed ← lift (new_wager_transaction_processed processed_id opening correlation_id [])
    changed_id ← fresh_id rt
    changed ←
        lift (new_wallet_balance_changed changed_id opening entry wallet.version correlation_id [])
    create_event rt processed
    create_event rt changed

  -- The work of the transaction.
  unfoldable pub store_opening : Text → Wallet → Action (Unit {0})
  unfolding open_with
  store_opening correlation_id wallet = do
    create_wallet rt wallet
    if Money.is_zero wallet.balance then pure tt else open_with correlation_id wallet

  -- `Execute`
  unfoldable pub open_wallet : OpenWalletInput → Action Wallet
  open_wallet input = do
    context_error rt
    now ← clock rt
    id ← fresh_id rt
    wallet ← lift (new_wallet now id input.player_id input.initial_balance)
    correlation_id ← correlation rt input.correlation_id
    within_transaction rt (store_opening correlation_id wallet)
    pure wallet
