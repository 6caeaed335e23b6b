-- ===== src/Tests/Outbox.antt =====
-- A reservation on an outbox with a published event and an event that is due.
use backend_challenge.Base.{arith, ◌≤◌, ◌+ℤ◌, ◌≡◌, refl, true, false, some, none, [], ◌∷◌, pos, ltb}
use backend_challenge.Text.{text}
use backend_challenge.Errors.{network, ok}
use backend_challenge.Domain.Wallet.{Uuid}
use backend_challenge.Domain.Wager.{refund}
use backend_challenge.Domain.Events.{
  IntegrationEvent, pending_reference_event, wager_transaction_pending_reference,
}
use backend_challenge.Postgres.{
  claim_outbox, World, publish_key, mark_published, OutboxRow, Db, PendingEvent, claim_event, first,
  earliest, is_claimable, reserve, same_event_id, update_first, later, whole_micros, is_reserved,
}
use backend_challenge.Publishing.Reservation.{claim_event-exclusive}
use backend_challenge.Tests.Scenario.{runtime, money, empty_db}
use backend_challenge.Publishing.Lasting.{claim, create, operate_all, gives}
use backend_challenge.Publishing.Open.{rows_of}
use backend_challenge.Publishing.Outcome.{publish_outbox_outcome, IsEnded}
use backend_challenge.Application.Delays.{OutboxPolicy, validate_outbox}
use backend_challenge.Publishing.Published.{mark_published_lasts}
use backend_challenge.Application.{publish_outbox}

abbrev event : Uuid → IntegrationEvent
event id =
    pending_reference_event
      (record {
        event_id = id;
        event_type = wager_transaction_pending_reference;
        aggregate_id = 102;
        correlation_id = text "c";
        causation_id = text "";
        occurred_at = 5;
        version = 1;
      })
      (record {
        transaction_id = 6;
        wallet_id = 102;
        player_id = 7;
        provider_id = text "p";
        external_transaction_id = text "e2";
        round_id = text "r";
        game_id = text "g";
        kind = refund;
        money = money 250;
        reference_external_transaction_id = text "e1";
      })

abbrev sent_row : OutboxRow
sent_row = record {
  event = event 11;
  attempts = 1;
  next_attempt_at = 5;
  published_at = some 8;
  locked_until = none;
  lock_token = none;
}

abbrev pub due_row : OutboxRow
due_row = record {
  event = event 12;
  attempts = 2;
  next_attempt_at = 9;
  published_at = none;
  locked_until = some 20;
  lock_token = some 70;
}

-- The reservation of the row whose last one has expired, for 30 microseconds.
abbrev taken_row : OutboxRow
taken_row = record due_row { attempts = 3; locked_until = some 30100; lock_token = some 71 }

abbrev outbox_db : Db
outbox_db = record empty_db { outbox = sent_row ∷ due_row ∷ [] }

abbrev taken_db : Db
taken_db = record empty_db { outbox = sent_row ∷ taken_row ∷ [] }

abbrev taken_event : PendingEvent
taken_event = record { event = event 12; attempts = 3; lock_token = 71 }

claim_takes : claim_event 71 (pos 30000) 100 outbox_db ≡ ok (some taken_event, taken_db)
unfolding claim_event earliest is_claimable reserve same_event_id update_first later whole_micros
    ◌+ℤ◌
claim_takes = refl

lease_runs : ltb 30099 (later 100 (pos 30000)) ≡ true
unfolding later whole_micros ◌+ℤ◌
lease_runs = refl

claim_event-exclusive_example :
    (row : OutboxRow) × (first (same_event_id 12) taken_db.outbox ≡ some row)
    × (row.lock_token ≡ some 71)
    × (is_claimable 30099 row ≡ false)
claim_event-exclusive_example =
    claim_event-exclusive 71 (pos 30000) 100 outbox_db taken_db taken_event claim_takes 30099
      lease_runs

-- The lease is over at its end.
claimable_at_end : is_claimable 30100 taken_row ≡ true
unfolding is_claimable
claimable_at_end = refl

taken_is_found : first (same_event_id 12) taken_db.outbox ≡ some taken_row
unfolding first same_event_id
taken_is_found = refl

taken_is_reserved : is_reserved 12 71 201 taken_row ≡ true
unfolding is_reserved
taken_is_reserved = refl

abbrev taken_world : World
taken_world = record { db = taken_db; calls = 200 }

one_row : rows_of 12 taken_db.outbox ≤ 1
unfolding rows_of
one_row = omega arith

-- The event is published, and then stored again and claimed before the last claim.
mark_published_lasts_example :
    ((mark_published runtime taken_event taken_world).0 ≡ ok tt)
    × ((settled : OutboxRow) × (first
            (same_event_id 12)
            (mark_published runtime taken_event taken_world).1.db.outbox
          ≡ some settled)
        × (settled.published_at ≡ some 201))
    × (gives 12
          (claim_outbox runtime (pos 30000) (
            operate_all runtime
              (create (event 12) ∷ claim (pos 30000) ∷ [])
              (mark_published runtime taken_event taken_world).1)).0
        ≡ false)
mark_published_lasts_example =
    mark_published_lasts runtime taken_event taken_world taken_row
      (create (event 12) ∷ claim (pos 30000) ∷ []) (pos 30000) refl one_row taken_is_found
      taken_is_reserved

abbrev pub outbox_policy : OutboxPolicy
outbox_policy = record {
  lease_duration = pos 30000000000;
  initial_delay = pos 1000000000;
  max_delay = pos 60000000000;
}

abbrev due_world : World
due_world = record { db = outbox_db; calls = 99 }

due_is_first : earliest publish_key (is_claimable 101) outbox_db.outbox ≡ some due_row
unfolding earliest is_claimable
due_is_first = refl

due_is_found : first (same_event_id 12) outbox_db.outbox ≡ some due_row
unfolding first same_event_id
due_is_found = refl

policy_is_valid : validate_outbox outbox_policy ≡ ok tt
unfolding validate_outbox
policy_is_valid = refl

due_lease_runs : ltb 102 (later 101 (pos 30000000000)) ≡ true
unfolding later whole_micros ◌+ℤ◌
due_lease_runs = refl

publish_outbox_outcome_example :
    IsEnded runtime outbox_policy due_world due_row
      (λ pending. some network)
      false
      (publish_outbox runtime (λ pending. some network) false outbox_policy due_world)
publish_outbox_outcome_example =
    publish_outbox_outcome runtime (λ pending. some network) false outbox_policy due_world due_row
      (λ n. refl) policy_is_valid due_is_first due_is_found due_lease_runs
