-- ===== src/Adapters/Consumer/Requests.antt =====
-- When a message is removed from the queue (`Handle`,
-- internal/infrastructure/messaging/sqs_consumer.go).
use backend_challenge.Base.{
  ◌↔◌, ap, ◌∙◌, false-not_true, ◌+◌, Option-cases, ◌⊎◌, ◌⊎◌, Option, ◌≡◌, refl, Bool, true, false,
  ◌||◌, List, [], ◌∷◌, inl, inr, Bool-cases, leb, pos_part,
}
use backend_challenge.Text.{Text}
use backend_challenge.Errors.{err_not_ok, Result-cases, joined, ok, err, Result, Error}
use backend_challenge.Postgres.{called, Runtime}
use backend_challenge.Domain.Wallet.{Time}
use backend_challenge.Adapters.Messages.{parse_wager_message, WagerMessage}
use backend_challenge.Adapters.Responses.{permanent_message_error}
use backend_challenge.Adapters.Machine.{
  time_now, send, is_cancelled, time_since, Machine, Broker, QueueCall, delete_message,
  change_visibility,
}
use backend_challenge.Adapters.Consumer.Handle.{
  process_message, authorized_provider, check_sender, release, join_error, conclude, Received,
  ProviderBySender, handle, observe_failure, attempts_of,
}
use backend_challenge.Application.{execute_message, ProcessWagerInput, WagerResult}

-- Whether a deletion was requested.
abbrev pub is_delete : QueueCall → Bool
is_delete (delete_message receipt) = true
is_delete (change_visibility receipt seconds) = false

unfoldable pub has_delete : List QueueCall → Bool
has_delete [] = false
has_delete (call ∷ calls) = is_delete call || has_delete calls

-- The error is reported, alone or with that of the visibility's change.
abbrev pub Reports : Error → Result (Unit {0}) → Type 0
Reports e r = (r ≡ err e) ⊎ ((changed : Error) × (r ≡ err (joined e changed)))

join_error-Reports : (e : Error) (r : Result (Unit {0})) → Reports e (join_error e r)
join_error-Reports e (ok x) = inl refl
join_error-Reports e (err changed) = inr (changed, refl)

module _ (rt : Runtime) (broker : Broker) (decode : Text → Option WagerMessage)
    (senders : ProviderBySender) (received : Received) where
  abbrev is_left : Error → Bool
  is_left e = permanent_message_error e || leb 5 (pos_part (attempts_of received.receive_count))

  -- After an error no deletion is requested, the tables stay, and the error is reported.
  conclude-err :
      (started : Time) (e : Error) (m : Machine)
      → ((conclude rt broker decode senders received started (err e) m).1.world.db ≡ m.world.db)
        × (has_delete (conclude rt broker decode senders received started (err e) m).1.queue
            ≡ has_delete m.queue)
        × Reports e (conclude rt broker decode senders received started (err e) m).0
  unfolding conclude observe_failure has_delete time_since is_cancelled send
  conclude-err started e m = elim (Bool-cases (is_left e)) [
    | inl left ↦ elim (Bool-cases (broker.is_cancelled (m.world.calls + 1))) [
      | inl stopped ↦ rw (left, stopped) (refl, refl, inl refl)
      | inr on ↦ rw (left, on) (refl, refl, join_error-Reports e _)
    ]
    | inr retried ↦ elim (Bool-cases (broker.is_cancelled (m.world.calls + 1))) [
      | inl stopped ↦ rw (retried, stopped) (refl, refl, inl refl)
      | inr on ↦ rw (retried, on) (refl, refl, join_error-Reports e _)
    ]
  ]

  -- After a success the tables stay.
  conclude-ok :
      (started : Time) (result : WagerResult) (m : Machine)
      → (conclude rt broker decode senders received started (ok result) m).1.world.db ≡ m.world.db
  unfolding conclude time_since send
  conclude-ok started result m = elim (Option-cases (broker.fault m.world.calls)) [
    | inl sent ↦ rw sent refl
    | inr (e, failed) ↦ rw failed refl
  ]

  -- After a success a deletion is requested.
  conclude-deletes :
      (started : Time) (result : WagerResult) (m : Machine)
      → has_delete (conclude rt broker decode senders received started (ok result) m).1.queue ≡ true
  unfolding conclude time_since send has_delete
  conclude-deletes started result m = elim (Option-cases (broker.fault m.world.calls)) [
    | inl sent ↦ rw sent refl
    | inr (e, failed) ↦ rw failed refl
  ]

  release-frame :
      (stopped : Bool) (m : Machine)
      → ((release rt broker decode senders received stopped m).1.world.db ≡ m.world.db)
        × (has_delete (release rt broker decode senders received stopped m).1.queue
            ≡ has_delete m.queue)
  unfolding release send has_delete
  release-frame true m = (refl, refl)
  release-frame false m = (refl, refl)

  -- What a treatment that succeeded has done: the body was a message, its sender and group were
  -- checked, and `ExecuteMessage` succeeded for the sender's provider.
  pub record IsProcessed (m : Machine) (result : WagerResult) : Type 0 where
    pub message : WagerMessage
    pub input : ProcessWagerInput
    pub parsed : parse_wager_message decode received.body ≡ ok (message, input)
    pub checked : check_sender senders received input (rt.uuid_text input.wallet_id) ≡ ok tt
    pub executed :
        (execute_message rt
          (authorized_provider senders received.sender_id)
          input
          message.message_id
          received.body
          (called m.world)).0
        ≡ ok result

  -- The treatment sends nothing to the queue, and a success of it has processed the message.
  treated_inv :
      (m : Machine) (result : WagerResult)
      → (process_message rt broker decode senders received
          (parse_wager_message decode received.body)
          (time_now rt m).1).0
        ≡ ok result
      → IsProcessed m result
  unfolding process_message time_now
  treated_inv m result h = elim (Result-cases (parse_wager_message decode received.body)) [
    | inr (e, bad) ↦ absurd (err_not_ok (rw bad at h))
    | inl ((message, input), parsed) ↦
        elim (Result-cases (check_sender senders received input (rt.uuid_text input.wallet_id))) [
          | inr (e, refused) ↦ absurd (err_not_ok (rw (parsed, refused, process_message) at h))
          | inl (x, checked) ↦ record {
            message = message;
            input = input;
            parsed = parsed;
            checked = checked;
            executed = rw (parsed, checked, process_message) at h;
          }
        ]
  ]

  treated_queue :
      (parsed : Result (WagerMessage × ProcessWagerInput)) (m : Machine)
      → (process_message rt broker decode senders received parsed m).1.queue ≡ m.queue
  unfolding process_message
  treated_queue (err e) m = refl
  treated_queue (ok (message, input)) m =
      elim (Result-cases (check_sender senders received input (rt.uuid_text input.wallet_id))) [
        | inl (x, checked) ↦ rw (checked, process_message) refl
        | inr (e, refused) ↦ rw (refused, process_message) refl
      ]

  time_now-queue : (m : Machine) → (time_now rt m).1.queue ≡ m.queue
  unfolding time_now
  time_now-queue m = refl

  -- The machine and the outcome behind the treatment.
  abbrev pub treatment : Machine → Result WagerResult × Machine
  treatment m =
      process_message rt broker decode senders received (parse_wager_message decode received.body)
        (time_now rt m).1

  -- The end of `Handle` leaves the tables as the treatment left them.
  pub handle-db :
      (m : Machine)
      → (handle rt broker decode senders received m).1.world.db ≡ (treatment m).1.world.db
  unfolding handle is_cancelled
  handle-db m = elim (Result-cases (treatment m).0) [
    | inl (result, treated) ↦
        rw treated ((release-frame _ _).0 ∙ conclude-ok _ result (treatment m).1)
    | inr (e, failed) ↦ rw failed ((release-frame _ _).0 ∙ (conclude-err _ e (treatment m).1).0)
  ]

  -- After an error the message stays in the queue, and the error is reported.
  pub handle-err :
      (m : Machine) (e : Error)
      → (treatment m).0 ≡ err e
      → (has_delete (handle rt broker decode senders received m).1.queue ≡ has_delete m.queue)
        × Reports e (handle rt broker decode senders received m).0
  unfolding handle is_cancelled
  handle-err m e failed =
      let (tables, calls, reported) = conclude-err (time_now rt m).0 e (treatment m).1 in
      rw failed (
        (release-frame _ _).1
            ∙ calls
            ∙ ap has_delete (
                treated_queue (parse_wager_message decode received.body) (time_now rt m).1
                ∙ time_now-queue m),
        reported,
      )

  -- What the processed message makes of the treatment.
  treated_lem :
      (m : Machine) (result : WagerResult) → IsProcessed m result → (treatment m).0 ≡ ok result
  unfolding process_message time_now
  treated_lem m result h = rw (h.parsed, h.checked, process_message) h.executed

  -- After a success the deletion is requested.
  handle-ok :
      (m : Machine) (result : WagerResult)
      → (treatment m).0 ≡ ok result
      → has_delete (handle rt broker decode senders received m).1.queue ≡ true
  unfolding handle is_cancelled
  handle-ok m result treated =
      rw treated ((release-frame _ _).1 ∙ conclude-deletes _ result (treatment m).1)

  -- A message is removed from the queue just where it was processed: if no deletion was requested
  -- before, `Handle` requests one if and only if the body is a message of a known sender in its
  -- wallet's group and `ExecuteMessage` for the sender's provider succeeds. The tables are as the
  -- treatment of the message left them.
  pub handle-acknowledged :
      (m : Machine)
      → has_delete m.queue ≡ false
      → ((has_delete (handle rt broker decode senders received m).1.queue ≡ true)
          ↔ ((result : WagerResult) × IsProcessed m result))
        × ((handle rt broker decode senders received m).1.world.db ≡ (treatment m).1.world.db)
  handle-acknowledged m fresh = (
    (
      λ deleted. elim (Result-cases (treatment m).0) [
        | inl (result, treated) ↦ (result, treated_inv m result treated)
        | inr (e, failed) ↦ absurd (false-not_true ((handle-err m e failed).0 ∙ fresh) deleted)
      ],
      λ (result, h). handle-ok m result (treated_lem m result h),
    ),
    handle-db m,
  )
