-- ===== src/Books/Request.antt =====
-- The unit of work of a request closes the books (process_wager.go).
use backend_challenge.Base.{Option, none, some}
use backend_challenge.Errors.{wager_not_found, wager_conflict, Result, ok, err, is_error}
use backend_challenge.Domain.Money
use backend_challenge.Domain.Wallet
use backend_challenge.Domain.Wallet.{Wallet, Time, Uuid}
use backend_challenge.Domain.Wager.{WagerTransaction}
use backend_challenge.Postgres.{◌>>=◌, Runtime, Action}
use backend_challenge.Application.{
  replay_found, Trace, ProcessWagerInput, WagerResult, InboxMessage, find_wager_replay,
  second_lookup, unless_replayed, after_create, locked, process_request, replay_message,
  first_delivery, deliver,
}
use backend_challenge.Books.Logic.{
  Books, Ensures, Frames, >>=-Frames, >>=-Ensures, Frames->>=, Ensures-given, Ensures-weaken,
  Frames-Ensures, lift-Frames, pure-Frames, attempt-Frames, if-Frames, if-Ensures,
}
use backend_challenge.Books.Frames.{
  find_by_external_id-Frames, find_by_idempotency_key-Frames, create_wager-Frames, register-Frames,
  complete-Frames,
}
use backend_challenge.Books.Balance.{IsBalanced}
use backend_challenge.Books.Movement.{Holds}
use backend_challenge.Books.Process.{Balances, process_wager-Balances}
use backend_challenge.Books.Stored.{find_wallet-Ensures}

framed :
    {A : Type 0} (P : Books → Type 0) (m : Action A)
    → ((b : Books) → P b → IsBalanced b)
    → Frames m
    → Ensures P m Balances
framed P m f h = Ensures-weaken P m (λ a. P) Balances (Frames-Ensures P m h) (λ a b. f b)

module _ (rt : Runtime) where
  second_lookup-Frames :
      (t : WagerTransaction) (r : Result WagerTransaction) → Frames (second_lookup rt t r)
  unfolding second_lookup
  second_lookup-Frames t (ok existing) = pure-Frames (ok existing)
  second_lookup-Frames t (err e) =
      if-Frames (is_error e wager_not_found) _ _
        (attempt-Frames _ (find_by_external_id-Frames rt _ _)) (pure-Frames (err e))

  find_wager_replay-Frames : (t : WagerTransaction) → Frames (find_wager_replay rt t)
  unfolding find_wager_replay
  find_wager_replay-Frames t =
      >>=-Frames _ _ (attempt-Frames _ (find_by_idempotency_key-Frames rt _ _)) (λ by_key.
        >>=-Frames _ _ (second_lookup-Frames t by_key)
          (λ looked_up. lift-Frames (replay_found t looked_up)))

  -- A lookup, and what follows where it finds nothing.
  unless_replayed-Ensures :
      (P : Books → Type 0) (t : WagerTransaction) (rest : Action WagerResult)
      → ((b : Books) → P b → IsBalanced b)
      → Ensures P rest Balances
      → Ensures P (find_wager_replay rt t >>= λ replay. unless_replayed rt replay rest) Balances
  unfolding unless_replayed
  unless_replayed-Ensures P t rest f h =
      Frames->>= P Balances _ _ (find_wager_replay-Frames t) (λ replay.
        elim replay as (λ k. Ensures P (unless_replayed rt k rest) Balances) [
          | none ↦ h
          | some result ↦
              Ensures-weaken P _ (λ a. P) Balances (Frames-Ensures P _ (pure-Frames result))
                (λ a b. f b)
        ])

  after_create-Ensures :
      (trace : Trace) (wallet : Wallet) (t : WagerTransaction) (r : Result (Unit {0}))
      → Wallet.IsValid wallet
      → Money.IsValid t.money
      → Ensures (Holds wallet) (after_create rt trace wallet t r) Balances
  unfolding after_create
  after_create-Ensures trace wallet t (ok done) valid hm =
      >>=-Ensures _ _ (Holds wallet) Balances Balances
        (process_wager-Balances rt trace wallet valid t hm)
        (λ processed. Frames-Ensures IsBalanced _ (pure-Frames _))
  after_create-Ensures trace wallet t (err e) valid hm =
      if-Ensures (is_error e wager_conflict) _ _ (Holds wallet) Balances
        (unless_replayed-Ensures (Holds wallet) t _ (λ b h. h.0)
          (framed (Holds wallet) _ (λ b h. h.0) (lift-Frames _)))
        (framed (Holds wallet) _ (λ b h. h.0) (lift-Frames _))

  locked-Ensures :
      (input : ProcessWagerInput) (trace : Trace) (t : WagerTransaction) (wallet : Wallet)
      → Wallet.IsValid wallet
      → Money.IsValid t.money
      → Ensures (Holds wallet) (locked rt input trace t wallet) Balances
  unfolding locked
  locked-Ensures input trace t wallet valid hm =
      unless_replayed-Ensures (Holds wallet) t _ (λ b h. h.0)
        (Frames->>= (Holds wallet) Balances _ _ (lift-Frames _) (λ checked.
          Frames->>= (Holds wallet) Balances _ _ (attempt-Frames _ (create_wager-Frames rt t))
            (λ created. after_create-Ensures trace wallet t created valid hm)))

  process_request-Ensures :
      (input : ProcessWagerInput) (trace : Trace) (t : WagerTransaction)
      → Money.IsValid t.money
      → Ensures IsBalanced (process_request rt input trace t) Balances
  unfolding process_request
  process_request-Ensures input trace t hm =
      unless_replayed-Ensures IsBalanced t _ (λ b h. h)
        (>>=-Ensures _ _ IsBalanced _ Balances (find_wallet-Ensures rt input.wallet_id) (λ wallet.
          Ensures-given (Holds wallet) _ _ Balances
            (λ valid. locked-Ensures input trace t wallet valid hm)))

  replay_message-Ensures :
      (t : WagerTransaction) → Ensures IsBalanced (replay_message rt t) Balances
  unfolding replay_message
  replay_message-Ensures t =
      unless_replayed-Ensures IsBalanced t _ (λ b h. h)
        (framed IsBalanced _ (λ b h. h) (lift-Frames _))

  pub deliver-Ensures :
      (input : ProcessWagerInput) (trace : Trace) (t : WagerTransaction)
      (message : Option InboxMessage)
      → Money.IsValid t.money
      → Ensures IsBalanced (deliver rt input trace t message) Balances
  unfolding deliver first_delivery
  deliver-Ensures input trace t none hm = process_request-Ensures input trace t hm
  deliver-Ensures input trace t (some message) hm =
      Frames->>= IsBalanced Balances _ _ (register-Frames rt _ message.id message.hash)
        (λ duplicate. if-Ensures duplicate _ _ IsBalanced Balances (replay_message-Ensures t) (
          >>=-Ensures _ _ IsBalanced Balances Balances (process_request-Ensures input trace t hm)
            (λ result.
              Frames->>= IsBalanced Balances _ _ (complete-Frames rt _ message.id)
                (λ done. Frames-Ensures IsBalanced _ (pure-Frames result)))))
