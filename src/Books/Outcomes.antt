-- ===== src/Books/Outcomes.antt =====
-- The outcomes of `processWager` that move no money leave the books (process_wager.go): a
-- rejection, the wait for a reference, and what settles an operation.
use backend_challenge.Text.{Text}
use backend_challenge.Errors.{is_error, insufficient_balance, money_overflow, Error, Result, err}
use backend_challenge.Domain.Wallet.{Time, Uuid, Wallet}
use backend_challenge.Domain.Wager.{WagerTransaction}
use backend_challenge.Postgres.{
  Runtime, clock, lift, update_wager, fresh_id, create_event, pure, ◌>>=◌, ◌>>◌,
}
use backend_challenge.Domain.Events.{IntegrationEvent}
use backend_challenge.Application.{
  insufficient_code, failure_money_overflow, Trace, reject_wager, wait_for_reference, wait_first,
  settle, refuse_movement,
}
use backend_challenge.Books.Logic.{
  if-Frames, Frames, >>=-Frames, lift-Frames, pure-Frames, clock-Frames, fresh_id-Frames,
}
use backend_challenge.Books.Frames.{update_wager-Frames, create_event-Frames}

module _ (rt : Runtime) (trace : Trace) where
  -- A change of the operation, its row and its event.
  changed-Frames :
      (change : Time → Result WagerTransaction)
      (announce : Uuid → WagerTransaction → Result IntegrationEvent)
      → Frames (do
        now ← clock rt
        changed ← lift (change now)
        update_wager rt changed
        id ← fresh_id rt
        event ← lift (announce id changed)
        create_event rt event
        pure changed)
  changed-Frames change announce = >>=-Frames _ _ (clock-Frames rt) (λ now.
      >>=-Frames _ _ (lift-Frames _) (λ changed.
        >>=-Frames _ _ (update_wager-Frames rt changed) (λ stored.
          >>=-Frames _ _ (fresh_id-Frames rt) (λ id. >>=-Frames _ _ (lift-Frames _) (λ event.
            >>=-Frames _ _ (create_event-Frames rt event) (λ sent. pure-Frames changed))))))

  pub reject_wager-Frames :
      (t : WagerTransaction) (code : Text) → Frames (reject_wager rt trace t code)
  unfolding reject_wager
  reject_wager-Frames t code = changed-Frames _ _

  pub wait_for_reference-Frames : (t : WagerTransaction) → Frames (wait_for_reference rt trace t)
  unfolding wait_for_reference wait_first
  wait_for_reference-Frames t = if-Frames _ _ _ (pure-Frames t) (changed-Frames _ _)

  pub settle-Frames : (t : WagerTransaction) (wallet : Wallet) → Frames (settle rt trace t wallet)
  unfolding settle
  settle-Frames t wallet = changed-Frames _ _

  pub refuse_movement-Frames :
      (t : WagerTransaction) (e : Error) → Frames (refuse_movement rt trace t e)
  unfolding refuse_movement
  refuse_movement-Frames t e =
      if-Frames (is_error e insufficient_balance) _ _ (reject_wager-Frames t (insufficient_code t))
        (if-Frames (is_error e money_overflow) _ _ (reject_wager-Frames t failure_money_overflow)
          (lift-Frames (err e)))
