-- ===== src/Adapters/Consumer/Refusals.antt =====
-- What `Handle` does with a message that it refuses
-- (internal/infrastructure/messaging/sqs_consumer.go).
use backend_challenge.Base.{
  if◌then◌else◌, Bool, false, ◌+◌, ◌≤◌, ℕ, ◌∷◌, ◌≡◌, refl, sym, ap, ◌∙◌, true, ◌||◌, not, ◌⊎◌, inl,
  inr, Option, arith, Bool-cases,
}
use backend_challenge.Text.{Text, str_eq, is_empty}
use backend_challenge.Errors.{
  err_not_ok, err_inj, provider_not_authorized, is_error, Error, ok, err, sentinel, invalid_message,
}
use backend_challenge.Postgres.{Runtime}
use backend_challenge.Application.{ProcessWagerInput}
use backend_challenge.Adapters.Messages.{WagerMessage, parse_wager_message}
use backend_challenge.Adapters.Responses.{permanent_message_error}
use backend_challenge.Adapters.Machine.{
  time_since, send, is_cancelled, change_visibility, QueueCall, Machine, Broker, time_now,
}
use backend_challenge.Adapters.Consumer.Handle.{
  retry_seconds, release, observe_failure, conclude, Received, ProviderBySender, check_sender,
  authorized_provider, process_message, handle,
}
use backend_challenge.Adapters.Consumer.Requests.{Reports, treatment, handle-db, handle-err}
use backend_challenge.Domain.Wallet.{Time}

-- A cancelled context stays cancelled, as the documentation of `context` says.
unfoldable pub IsLasting : Broker → Type 0
IsLasting broker = (n k : ℕ) → n ≤ k → broker.is_cancelled n ≡ true → broker.is_cancelled k ≡ true

not_authorized-permanent : permanent_message_error (sentinel provider_not_authorized) ≡ true
unfolding permanent_message_error is_error
not_authorized-permanent = refl

invalid-permanent : permanent_message_error (sentinel invalid_message) ≡ true
unfolding permanent_message_error is_error
invalid-permanent = refl

-- The errors of the two checks in front of the use case.
IsRefusal : Error → Type 0
IsRefusal e = (e ≡ sentinel provider_not_authorized) ⊎ (e ≡ sentinel invalid_message)

IsRefusal-permanent : (e : Error) → IsRefusal e → permanent_message_error e ≡ true
unfolding IsRefusal
IsRefusal-permanent e (inl h) = rw h not_authorized-permanent
IsRefusal-permanent e (inr h) = rw h invalid-permanent

check_sender-err :
    (senders : ProviderBySender) (received : Received) (input : ProcessWagerInput) (wallet : Text)
    (e : Error)
    → check_sender senders received input wallet ≡ err e
    → IsRefusal e
unfolding check_sender IsRefusal
check_sender-err senders received input wallet e h =
    elim (Bool-cases (
      is_empty (authorized_provider senders received.sender_id)
      || not (str_eq (authorized_provider senders received.sender_id) input.provider_id))) [
        | inl stranger ↦ inl (err_inj (sym (rw stranger at h)))
        | inr known ↦ elim (Bool-cases (not (str_eq received.message_group_id wallet))) [
          | inl astray ↦ inr (err_inj (sym (rw (known, astray) at h)))
          | inr right ↦ absurd (err_not_ok (sym (rw (known, right) at h)))
        ]
      ]

parse-err :
    (decode : Text → Option WagerMessage) (body : Text) (e : Error)
    → parse_wager_message decode body ≡ err e
    → e ≡ sentinel invalid_message
unfolding parse_wager_message
parse-err decode body e h = ground arith

module _ (rt : Runtime) (broker : Broker) (decode : Text → Option WagerMessage)
    (senders : ProviderBySender) (received : Received) where
  -- A refusal by the checks in front of the use case.
  abbrev pub IsRefused : Error → Type 0
  IsRefused e =
      (parse_wager_message decode received.body ≡ err e)
      ⊎ ((message : WagerMessage) × (input : ProcessWagerInput) × (parse_wager_message decode
              received.body
            ≡ ok (message, input))
          × (check_sender senders received input (rt.uuid_text input.wallet_id) ≡ err e))

  refused_treatment :
      (m : Machine) (e : Error)
      → IsRefused e
      → treatment rt broker decode senders received m ≡ (err e, (time_now rt m).1)
  unfolding process_message
  refused_treatment m e (inl bad) = rw bad refl
  refused_treatment m e (inr (message, input, parsed, refused)) =
      rw (parsed, refused, process_message) refl

  refused_cause : (e : Error) → IsRefused e → IsRefusal e
  unfolding IsRefusal
  refused_cause e (inl bad) = inr (parse-err decode received.body e bad)
  refused_cause e (inr (message, input, parsed, refused)) =
      check_sender-err senders received input (rt.uuid_text input.wallet_id) e refused

  refused_error : (e : Error) → IsRefused e → permanent_message_error e ≡ true
  refused_error e refused = IsRefusal-permanent e (refused_cause e refused)

  -- The request that makes the message visible to the queue's receivers at once.
  abbrev pub released : QueueCall
  released = change_visibility received.receipt_handle 0

  retry-permanent :
      (e : Error)
      → permanent_message_error e ≡ true
      → retry_seconds rt broker decode senders received e ≡ 0
  unfolding retry_seconds
  retry-permanent e permanent = rw permanent refl

  -- A permanent error releases the message, but after a cancellation.
  conclude-released :
      (started : Time) (e : Error) (m : Machine)
      → permanent_message_error e ≡ true
      → broker.is_cancelled (m.world.calls + 1) ≡ false
      → (conclude rt broker decode senders received started (err e) m).1.queue ≡ released ∷ m.queue
  unfolding conclude observe_failure is_cancelled send time_since
  conclude-released started e m permanent on =
      rw (permanent, on)
        (ap (λ seconds. change_visibility received.receipt_handle seconds ∷ m.queue)
          (retry-permanent e permanent))

  conclude-stopped :
      (started : Time) (e : Error) (m : Machine)
      → permanent_message_error e ≡ true
      → broker.is_cancelled (m.world.calls + 1) ≡ true
      → ((conclude rt broker decode senders received started (err e) m).1.queue ≡ m.queue)
        × ((conclude rt broker decode senders received started (err e) m).1.world.calls
            ≡ m.world.calls + 1 + 1)
  unfolding conclude observe_failure is_cancelled send time_since
  conclude-stopped started e m permanent stopped = rw (permanent, stopped) (refl, refl)

  -- The deferred release.
  release-queue :
      (stopped : Bool) (m : Machine)
      → (release rt broker decode senders received stopped m).1.queue
        ≡ (if stopped then released ∷ m.queue else m.queue)
  unfolding release send
  release-queue true m = refl
  release-queue false m = refl

  handle_queue :
      (m : Machine) (e : Error) (stopped : Bool)
      → treatment rt broker decode senders received m ≡ (err e, (time_now rt m).1)
      → let concluded =
          conclude rt broker decode senders received (time_now rt m).0 (err e) (time_now rt m).1 in
        broker.is_cancelled concluded.1.world.calls ≡ stopped
        → (handle rt broker decode senders received m).1.queue
          ≡ (if stopped then released ∷ concluded.1.queue else concluded.1.queue)
  unfolding handle is_cancelled
  handle_queue m e stopped treated now = rw treated (rw now (release-queue stopped _))

  handle-released :
      IsLasting broker
      → (m : Machine) (e : Error)
      → treatment rt broker decode senders received m ≡ (err e, (time_now rt m).1)
      → permanent_message_error e ≡ true
      → ((handle rt broker decode senders received m).1.queue ≡ released ∷ m.queue)
        ⊎ ((handle rt broker decode senders received m).1.queue ≡ released ∷ released ∷ m.queue)
  unfolding time_now IsLasting
  handle-released lasting m e treated permanent =
      let concluded =
        conclude rt broker decode senders received (time_now rt m).0 (err e) (time_now rt m).1 in
      elim (Bool-cases (broker.is_cancelled (m.world.calls + 1 + 1))) [
        | inl stopped ↦
            let (kept, calls) =
              conclude-stopped (time_now rt m).0 e (time_now rt m).1 permanent stopped in
            let later =
              lasting (m.world.calls + 1 + 1) concluded.1.world.calls (omega (arith, calls))
                stopped in
            inl (handle_queue m e true treated later ∙ ap (λ calls. released ∷ calls) kept)
        | inr on ↦
            let sent = conclude-released (time_now rt m).0 e (time_now rt m).1 permanent on in
            elim (Bool-cases (broker.is_cancelled concluded.1.world.calls)) [
              | inl stopped ↦
                  inr (handle_queue m e true treated stopped ∙ ap (λ calls. released ∷ calls) sent)
              | inr still ↦ inl (handle_queue m e false treated still ∙ sent)
            ]
      ]

  -- A body that is no message, a sender that is not mapped to the message's provider, and a group
  -- that is not the wallet's are refused, where a cancellation lasts: the tables are as they were,
  -- the requests to the queue are those that make the message visible again at once, one or, at a
  -- shutdown, two, the error is reported, and it is the refusal of the provider or of the message.
  pub handle-refused :
      IsLasting broker
      → (m : Machine) (e : Error) → IsRefused e
      → ((handle rt broker decode senders received m).1.world.db ≡ m.world.db)
        × (((handle rt broker decode senders received m).1.queue ≡ released ∷ m.queue)
            ⊎ ((handle rt broker decode senders received m).1.queue
                ≡ released ∷ released ∷ m.queue))
        × Reports e (handle rt broker decode senders received m).0
        × ((e ≡ sentinel provider_not_authorized) ⊎ (e ≡ sentinel invalid_message))
  unfolding time_now IsRefusal
  handle-refused lasting m e refused =
      let same = refused_treatment m e refused in
      let (calls, reported) =
        handle-err rt broker decode senders received m e (ap (λ r. r.0) same) in
      (
        handle-db rt broker decode senders received m ∙ ap (λ r. r.1.world.db) same,
        handle-released lasting m e same (refused_error e refused),
        reported,
        refused_cause e refused,
      )
