-- ===== src/Books/Execute.antt =====
-- `Execute` and `ExecuteMessage` keep the books balanced under every fault (process_wager.go).
use backend_challenge.Base.{subst, sym, not-false, ◌≡◌, Option, none, IsInt64}
use backend_challenge.Text.{is_blank, Text}
use backend_challenge.Errors.{fail_if-passed, invalid_money, then-eq-ok, ok}
use backend_challenge.Domain.Money
use backend_challenge.Domain.Wallet.{Time, Uuid}
use backend_challenge.Domain.Wager.{new_wager_transaction, WagerTransaction}
use backend_challenge.Domain.Wager.Transitions.{new_wager_transaction_inv}
use backend_challenge.Postgres.{World, Runtime}
use backend_challenge.Application.{
  requested_wager, ProcessWagerInput, InboxMessage, correlation, context_error, execute_request,
  execute, execute_message, payload_hash,
}
use backend_challenge.Books.Logic.{
  books, Frames, Keeps, >>=-Frames, >>=-Keeps, Frames-Keeps, lift-Frames, pure-Frames, clock-Frames,
  fresh_id-Frames, if-Frames, lift->>=-Keeps,
}
use backend_challenge.Books.Statements.{query-Frames, within_transaction-Keeps}
use backend_challenge.Books.Balance.{IsBalanced}
use backend_challenge.Books.Request.{deliver-Ensures}

module _ (rt : Runtime) where
  pub correlation-Frames : (id : Text) → Frames (correlation rt id)
  unfolding correlation
  correlation-Frames id =
      if-Frames (is_blank id) _ _
        (>>=-Frames _ _ (fresh_id-Frames rt) (λ fresh. pure-Frames (rt.uuid_text fresh)))
        (pure-Frames id)

  payload-money :
      (input : ProcessWagerInput) (hash : Text)
      → IsInt64 input.money.amount
      → payload_hash rt input ≡ ok hash
      → Money.IsValid input.money
  unfolding payload_hash Money.validate
  payload-money input hash range h =
      let (valid, hashed) = then-eq-ok (Money.validate input.money) _ h in
      record { accepted = not-false _ (fail_if-passed _ invalid_money valid); in_range = range }

  requested-money :
      (input : ProcessWagerInput) (hash : Text) (now : Time) (id : Uuid) (t : WagerTransaction)
      → Money.IsValid input.money
      → new_wager_transaction now id (requested_wager input hash) ≡ ok t
      → Money.IsValid t.money
  requested-money input hash now id t hm h =
      let (valid, known, external, built) =
        new_wager_transaction_inv now id (requested_wager input hash) t h in
      subst (λ (u : WagerTransaction). Money.IsValid u.money) (sym built) hm

  pub execute_request-Keeps :
      (provider : Text) (input : ProcessWagerInput) (message : Option InboxMessage)
      → IsInt64 input.money.amount
      → Keeps IsBalanced (execute_request rt provider input message)
  unfolding execute_request context_error
  execute_request-Keeps provider input message range =
      let P = IsBalanced in
      >>=-Keeps _ _ P (Frames-Keeps P _ (query-Frames rt _)) (λ live.
        >>=-Keeps _ _ P (Frames-Keeps P _ (lift-Frames _)) (λ checked.
          lift->>=-Keeps P _ _ (λ hash hashed.
            >>=-Keeps _ _ P (Frames-Keeps P _ (clock-Frames rt)) (λ now.
              >>=-Keeps _ _ P (Frames-Keeps P _ (fresh_id-Frames rt)) (λ id.
                lift->>=-Keeps P _ _ (λ t built.
                  >>=-Keeps _ _ P (Frames-Keeps P _ (correlation-Frames input.correlation_id))
                    (λ correlation_id. within_transaction-Keeps rt P _ (
                      deliver-Ensures rt input _ t message (
                        requested-money input hash now id t (payload-money input hash range hashed)
                          built)))))))))

  -- `Execute` keeps the books balanced, for an amount that is an `int64` and whatever fails: when it
  -- returns, with a result or an error, each wallet's balance is the sum of its ledger entries, if
  -- the books were balanced before.
  pub execute-IsBalanced :
      (provider : Text) (input : ProcessWagerInput) (w : World)
      → IsInt64 input.money.amount
      → IsBalanced (books w.db)
      → IsBalanced (books (execute rt provider input w).1.db)
  unfolding execute Keeps
  execute-IsBalanced provider input w range h = execute_request-Keeps provider input none range w h

  execute_message-Keeps :
      (provider : Text) (input : ProcessWagerInput) (message_id body : Text)
      → IsInt64 input.money.amount
      → Keeps IsBalanced (execute_message rt provider input message_id body)
  unfolding execute_message
  execute_message-Keeps provider input message_id body range =
      >>=-Keeps _ _ IsBalanced (Frames-Keeps IsBalanced _ (lift-Frames _))
        (λ given. execute_request-Keeps provider input _ range)

  -- `ExecuteMessage` keeps the books balanced, for an amount that is an `int64` and whatever fails,
  -- whether the message is new or was received before.
  pub execute_message-IsBalanced :
      (provider : Text) (input : ProcessWagerInput) (message_id body : Text) (w : World)
      → IsInt64 input.money.amount
      → IsBalanced (books w.db)
      → IsBalanced (books (execute_message rt provider input message_id body w).1.db)
  unfolding Keeps
  execute_message-IsBalanced provider input message_id body w range h =
      execute_message-Keeps provider input message_id body range w h
