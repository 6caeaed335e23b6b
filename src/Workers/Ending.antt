-- ===== src/Workers/Ending.antt =====
-- A worker returns after its context is cancelled (internal/infrastructure/workers).
use backend_challenge.Base.{
  Bool-cases, Option, ℤ, Option-cases, Bool, refl, ℕ, zero, suc, ◌+◌, ◌≤◌, arith, true, false, inl,
  inr, ◌≡◌, none, some,
}
use backend_challenge.Errors.{Result-cases, ok, err, Result, Error}
use backend_challenge.Postgres.{
  claim_event, fresh_id, PendingEvent, claim_outbox, retry_event, mark_published, Runtime, Db,
  Action, statement, called, World,
}
use backend_challenge.Adapters.Machine.{time_since, is_cancelled, Task, Broker, Machine}
use backend_challenge.Workers.Loop.{Turn, stopped, again, rested, work, while_running, after_turn}
use backend_challenge.Domain.Wallet.{Time}
use backend_challenge.Workers.Turns.{
  publication_of, observe_publish, unless_cancelled, outbox_turn, published_turn,
}
use backend_challenge.Application.Delays.{validate_outbox, outbox_delay, OutboxPolicy}
use backend_challenge.Application.{valid_policy, Publication, publish_outbox, claimed, sent}

-- The number of the next call.
abbrev pub at : Machine → ℕ
at m = m.world.calls

-- The turn takes no call back.
unfoldable pub Advances : {A : Type 0} → Task A → Type 0
Advances task = (m : Machine) → at m ≤ at (task m).1

-- The context is cancelled from a call on.
unfoldable pub IsCancelledFrom : Broker → ℕ → Type 0
IsCancelledFrom broker k = (n : ℕ) → k ≤ n → broker.is_cancelled n ≡ true

module _ (broker : Broker) (turn : Task Turn) (advances : Advances turn) (k : ℕ)
    (over : IsCancelledFrom broker k) where
  while_running-ends :
      (rest : Task Bool) (cancelled : Bool) (m : Machine)
      → ((n : Machine) → at m ≤ at n → (rest n).0 ≡ true)
      → (while_running turn rest cancelled m).0 ≡ true
  unfolding while_running after_turn Advances
  while_running-ends rest true m ends = refl
  while_running-ends rest false m ends =
      elim (turn m).0 as (λ t. (after_turn rest t (turn m).1).0 ≡ true) [
        | stopped ↦ refl
        | again ↦ ends (turn m).1 (advances m)
        | rested ↦ ends (turn m).1 (advances m)
      ]

  pub work-ends :
      (turns : ℕ) (m : Machine) → k ≤ at m + turns → (work broker turn (suc turns) m).0 ≡ true
  unfolding work is_cancelled IsCancelledFrom
  work-ends zero m h = rw (over (at m) (omega arith)) refl
  work-ends (suc turns) m h =
      while_running-ends (work broker turn (suc turns)) (broker.is_cancelled (at m))
        (record m { world = called m.world }) (λ n le. work-ends turns n (omega arith))

-- The action takes no call back.
unfoldable pub Goes : {A : Type 0} → Action A → Type 0
Goes m = (w : World) → w.calls ≤ (m w).1.calls

module _ (rt : Runtime) where
  statement-Goes : {A : Type 0} (step : Time → Db → Result (A × Db)) → Goes (statement rt step)
  unfolding Goes statement
  statement-Goes step w = elim (Option-cases (rt.fault w.calls)) [
    | inr (e, failed) ↦ rw (failed, statement) (omega arith)
    | inl passed ↦ elim (Result-cases (step (rt.now w.calls) w.db)) [
      | inr (e, refused) ↦ rw (passed, refused, statement) (omega arith)
      | inl ((a, db), done) ↦ rw (passed, done, statement) (omega arith)
    ]
  ]

  claim_outbox-Goes : (lease : ℤ) → Goes (claim_outbox rt lease)
  unfolding claim_outbox fresh_id Goes
  claim_outbox-Goes lease w =
      let go = statement-Goes (claim_event (rt.new_id w.calls) lease) (called w) in omega arith

  mark_published-Goes : (pending : PendingEvent) → Goes (mark_published rt pending)
  unfolding mark_published
  mark_published-Goes pending = statement-Goes _

  retry_event-Goes : (pending : PendingEvent) (delay : ℤ) → Goes (retry_event rt pending delay)
  unfolding retry_event
  retry_event-Goes pending delay = statement-Goes _

module _ (rt : Runtime) (publish : PendingEvent → Option Error) (cancelled : Bool)
    (policy : OutboxPolicy) where
  sent-Goes :
      (pending : PendingEvent) (o : Option Error)
      → Goes (sent rt publish cancelled policy pending o)
  unfolding sent Goes
  sent-Goes pending none w = mark_published-Goes rt pending w
  sent-Goes pending (some e) w = elim (Bool-cases cancelled) [
    | inl over ↦ rw over (omega arith)
    | inr on ↦ rw on (retry_event-Goes rt pending (outbox_delay policy pending.attempts) w)
  ]

  claimed-Goes : (r : Result (Option PendingEvent)) → Goes (claimed rt publish cancelled policy r)
  unfolding claimed Goes
  claimed-Goes (err e) w = omega arith
  claimed-Goes (ok none) w = omega arith
  claimed-Goes (ok (some pending)) w = sent-Goes pending (publish pending) w

  publish_outbox-Goes : Goes (publish_outbox rt publish cancelled policy)
  unfolding publish_outbox valid_policy Goes
  publish_outbox-Goes w = elim (Result-cases (validate_outbox policy)) [
    | inr (e, refused) ↦ rw (refused, publish_outbox, valid_policy) (omega arith)
    | inl (x, valid) ↦
        let reserved = claim_outbox-Goes rt policy.lease_duration w in
        let rest =
          claimed-Goes (claim_outbox rt policy.lease_duration w).0
            (claim_outbox rt policy.lease_duration w).1 in
        rw (valid, publish_outbox, valid_policy) (omega arith)
  ]

module _ (rt : Runtime) (broker : Broker) where
  published_turn-Advances :
      (publication : Publication) → Advances (published_turn rt broker publication)
  unfolding published_turn observe_publish time_since Advances
  published_turn-Advances publication m = elim (Option-cases publication.failure) [
    | inr (e, failed) ↦ elim (Option-cases publication.event) [
      | inr (pending, given) ↦ rw (failed, given, published_turn) (omega arith)
      | inl nothing ↦ rw (failed, nothing, published_turn) (omega arith)
    ]
    | inl done ↦ elim (Option-cases publication.event) [
      | inr (pending, given) ↦ rw (done, given, published_turn) (omega arith)
      | inl nothing ↦ rw (done, nothing, published_turn) (omega arith)
    ]
  ]

  outbox_turn-Advances :
      (publish : PendingEvent → Option Error) (is_over : ℕ → Bool) (policy : OutboxPolicy)
      → Advances (outbox_turn rt broker publish is_over policy)
  unfolding outbox_turn unless_cancelled is_cancelled Advances Goes
  outbox_turn-Advances publish is_over policy m =
      let done = publish_outbox rt publish (is_over (at m)) policy m.world in
      let go = publish_outbox-Goes rt publish (is_over (at m)) policy m.world in
      let after = record m { world = called done.1 } in
      let rest = published_turn-Advances (publication_of rt broker done.0) after in
      elim (Bool-cases (broker.is_cancelled done.1.calls)) [
        | inl over ↦ rw (over, outbox_turn, unless_cancelled) (omega arith)
        | inr on ↦ rw (on, outbox_turn, unless_cancelled) (omega arith)
      ]

  -- The outbox's worker returns: where its context is cancelled from the call `k` on, it has
  -- returned after as many turns as calls are left until then, and one more, whatever the publisher
  -- returns and whatever fails.
  pub outbox_worker-ends :
      (publish : PendingEvent → Option Error) (is_over : ℕ → Bool) (policy : OutboxPolicy) (k : ℕ)
      → IsCancelledFrom broker k
      → (turns : ℕ) (m : Machine) → k ≤ at m + turns
      → (work broker (outbox_turn rt broker publish is_over policy) (suc turns) m).0 ≡ true
  outbox_worker-ends publish is_over policy k over =
      work-ends broker (outbox_turn rt broker publish is_over policy)
        (outbox_turn-Advances publish is_over policy) k over
