-- ===== src/Workers/Balance.antt =====
-- What the workers do to the books in any number of turns (internal/infrastructure/workers).
use backend_challenge.Base.{
  List, Option-cases, Option, Bool-cases, Bool, ℕ, zero, suc, true, false, inl, inr, none, some,
}
use backend_challenge.Workers.Loop.{Turn, stopped, again, rested, work, while_running, after_turn}
use backend_challenge.Workers.Turns.{
  unless_cancelled, published_turn, retried_turn, reference_turn, handled_turn, received_turn,
  wager_turn, observe_publish,
}
use backend_challenge.Books.Logic.{books}
use backend_challenge.Books.Balance.{IsBalanced}
use backend_challenge.Books.Claims.{FitColumns}
use backend_challenge.Text.{Text}
use backend_challenge.Domain.Wager.{is_pending_reference}
use backend_challenge.Errors.{Result, ok, err}
use backend_challenge.Postgres.{Runtime, Db, called}
use backend_challenge.Adapters.Machine.{Machine, time_since, time_now, is_cancelled, Task, Broker}
use backend_challenge.Adapters.Tasks.{TaskKeeps}
use backend_challenge.Workers.Turns.{unless_cancelled}
use backend_challenge.Workers.Loop.{Turn, work, after_turn, while_running}
use backend_challenge.Application.Delays.{ReferenceRetryPolicy}
use backend_challenge.Books.Columns.{Fits}
use backend_challenge.Domain.Wallet.{Time}
use backend_challenge.Application.{Publication, retry_references, ReferenceRetryResult}
use backend_challenge.Books.Retry.{retry_references-IsBalanced}
use backend_challenge.Books.RetryColumns.{retry_references-Fits}
use backend_challenge.Adapters.Messages.{WagerMessage}
use backend_challenge.Adapters.Consumer.{receive, Received, ProviderBySender}
use backend_challenge.Books.Consumer.{handle-IsBalanced}

-- A worker keeps what its turns keep.
module _ (P : Db → Type 0) (broker : Broker) where
  after_turn-Keeps :
      (rest : Task Bool) (t : Turn) → TaskKeeps P rest → TaskKeeps P (after_turn rest t)
  unfolding after_turn
  after_turn-Keeps rest stopped keeps = λ m h. h
  after_turn-Keeps rest again keeps = keeps
  after_turn-Keeps rest rested keeps = keeps

  while_running-Keeps :
      (turn : Task Turn) (rest : Task Bool) (cancelled : Bool)
      → TaskKeeps P turn
      → TaskKeeps P rest
      → TaskKeeps P (while_running turn rest cancelled)
  unfolding while_running
  while_running-Keeps turn rest true keeps kept m h = h
  while_running-Keeps turn rest false keeps kept m h =
      after_turn-Keeps rest (turn m).0 kept (turn m).1 (keeps m h)

  pub work-Keeps :
      (turn : Task Turn) (turns : ℕ) → TaskKeeps P turn → TaskKeeps P (work broker turn turns)
  unfolding work is_cancelled
  work-Keeps turn zero keeps m h = h
  work-Keeps turn (suc turns) keeps m h =
      while_running-Keeps turn (work broker turn turns) (broker.is_cancelled m.world.calls) keeps
        (work-Keeps turn turns keeps) (record m { world = called m.world }) h

  pub unless_cancelled-Keeps :
      (rt : Runtime) (rest : Task Turn)
      → TaskKeeps P rest
      → TaskKeeps P (unless_cancelled rt broker rest)
  unfolding unless_cancelled is_cancelled
  unless_cancelled-Keeps rt rest keeps m h = elim (Bool-cases (broker.is_cancelled m.world.calls)) [
    | inl over ↦ rw (over, unless_cancelled) h
    | inr on ↦ rw (on, unless_cancelled) (keeps (record m { world = called m.world }) h)
  ]

  pub published_turn-Keeps :
      (rt : Runtime) (publication : Publication)
      → TaskKeeps P (published_turn rt broker publication)
  unfolding published_turn observe_publish time_since
  published_turn-Keeps rt publication m h = elim (Option-cases publication.failure) [
    | inr (e, failed) ↦ elim (Option-cases publication.event) [
      | inr (pending, claimed) ↦ rw (failed, claimed, published_turn) h
      | inl nothing ↦ rw (failed, nothing, published_turn) h
    ]
    | inl done ↦ elim (Option-cases publication.event) [
      | inr (pending, claimed) ↦ rw (done, claimed, published_turn) h
      | inl nothing ↦ rw (done, nothing, published_turn) h
    ]
  ]

  retried_turn-Keeps :
      (rt : Runtime) (started : Time) (r : Result (Option ReferenceRetryResult))
      → TaskKeeps P (retried_turn rt broker started r)
  unfolding retried_turn time_since
  retried_turn-Keeps rt started (err e) m h = h
  retried_turn-Keeps rt started (ok none) m h = h
  retried_turn-Keeps rt started (ok (some result)) m h =
      elim (Bool-cases (is_pending_reference result.status)) [
        | inl waits ↦ rw (waits, retried_turn) h
        | inr decided ↦ rw (decided, retried_turn) h
      ]

  handled_turn-Keeps :
      (rt : Runtime) (r : Result (Unit {0})) → TaskKeeps P (handled_turn rt broker r)
  unfolding handled_turn
  handled_turn-Keeps rt (ok x) m h = h
  handled_turn-Keeps rt (err e) m h = h

module _ (rt : Runtime) (broker : Broker) where
  received_turn-IsBalanced :
      (decode : Text → Option WagerMessage) (senders : ProviderBySender)
      (r : Result (Option Received))
      → TaskKeeps (λ db. IsBalanced (books db)) (received_turn rt broker decode senders r)
  unfolding received_turn
  received_turn-IsBalanced decode senders (err e) m h = h
  received_turn-IsBalanced decode senders (ok none) m h = h
  received_turn-IsBalanced decode senders (ok (some received)) m h =
      handle-IsBalanced rt broker decode senders received m h

  wager_turn-IsBalanced :
      (decode : Text → Option WagerMessage) (senders : ProviderBySender)
      (fetch : ℕ → Result (List Received))
      → TaskKeeps (λ db. IsBalanced (books db)) (wager_turn rt broker decode senders fetch)
  unfolding wager_turn
  wager_turn-IsBalanced decode senders fetch m h =
      let treated =
        received_turn rt broker decode senders (receive (fetch m.world.calls))
          (record m { world = called m.world }) in
      unless_cancelled-Keeps (λ db. IsBalanced (books db)) broker rt
        (handled_turn rt broker treated.0)
        (handled_turn-Keeps (λ db. IsBalanced (books db)) broker rt treated.0) treated.1
        (received_turn-IsBalanced decode senders (receive (fetch m.world.calls))
          (record m { world = called m.world }) h)

  -- The worker of the queue keeps the books balanced in any number of turns, whatever the queue
  -- gives to it and whatever fails, if they were balanced before.
  pub wager_worker-IsBalanced :
      (decode : Text → Option WagerMessage) (senders : ProviderBySender)
      (fetch : ℕ → Result (List Received)) (turns : ℕ) (m : Machine)
      → IsBalanced (books m.world.db)
      → IsBalanced
          (books (work broker (wager_turn rt broker decode senders fetch) turns m).1.world.db)
  wager_worker-IsBalanced decode senders fetch turns m h =
      work-Keeps (λ db. IsBalanced (books db)) broker (wager_turn rt broker decode senders fetch)
        turns (wager_turn-IsBalanced decode senders fetch) m h

  -- Balanced books, with amounts that fit their column.
  abbrev IsSound : Db → Type 0
  IsSound db = IsBalanced (books db) × FitColumns db.wagers

  reference_turn-IsSound :
      (policy : ReferenceRetryPolicy) → TaskKeeps IsSound (reference_turn rt broker policy)
  unfolding reference_turn time_now Fits
  reference_turn-IsSound policy m (balanced, fit) =
      let (result, w) = retry_references rt policy (called m.world) in
      unless_cancelled-Keeps IsSound broker rt
        (retried_turn rt broker (rt.now m.world.calls) result)
        (retried_turn-Keeps IsSound broker rt (rt.now m.world.calls) result)
        (record m { world = w })
        (
          retry_references-IsBalanced rt policy (called m.world) fit balanced,
          retry_references-Fits rt policy (called m.world) fit,
        )

  -- The worker of the waiting operations keeps the books balanced in any number of turns and
  -- whatever fails, if they were balanced before and the amounts of the stored operations fit their
  -- column, a `bigint`; the amounts still do afterwards.
  pub reference_worker-IsBalanced :
      (policy : ReferenceRetryPolicy) (turns : ℕ) (m : Machine)
      → IsBalanced (books m.world.db)
      → FitColumns m.world.db.wagers
      → IsBalanced (books (work broker (reference_turn rt broker policy) turns m).1.world.db)
        × FitColumns (work broker (reference_turn rt broker policy) turns m).1.world.db.wagers
  reference_worker-IsBalanced policy turns m balanced fit =
      work-Keeps IsSound broker (reference_turn rt broker policy) turns
        (reference_turn-IsSound policy) m (balanced, fit)
