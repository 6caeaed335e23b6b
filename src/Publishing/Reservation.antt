-- ===== src/Publishing/Reservation.antt =====
-- The reservation of an event and its end (`Claim` and `MarkPublished`,
-- internal/infrastructure/postgres/outbox_publisher_repository.go).
use backend_challenge.Base.{
  none_not_some, some_inj, ◌≡◌, sym, refl, true, false, some, inl, inr, ap, ℤ, ltb, arith,
  Option-cases,
}
use backend_challenge.Errors.{ok, ok_inj}
use backend_challenge.Domain.Wallet.{Uuid, Time}
use backend_challenge.Postgres.{
  Db, OutboxRow, PendingEvent, first, update_first, publish_key, earliest, later, claim_event,
  is_claimable, reserve, same_event_id, event_id, is_reserved, set_reserved,
}
use backend_challenge.Books.Balance.{first-update}
use backend_challenge.Publishing.Rows.{earliest-first, first-narrower}

same_event_id_refl : (row : OutboxRow) → same_event_id (event_id row.event) row ≡ true
unfolding same_event_id
same_event_id_refl row = ground arith

reserve-unclaimable :
    (token : Uuid) (until t : Time) (row : OutboxRow)
    → ltb t until ≡ true
    → is_claimable t (reserve token until row) ≡ false
unfolding is_claimable reserve
reserve-unclaimable token until t row h = ground (arith, h)

-- While the lease of an event that `Claim` gave runs, the row of the event holds the token of the
-- reservation, and no `Claim` may take it.
pub claim_event-exclusive :
    (token : Uuid) (lease : ℤ) (now : Time) (db after : Db) (pending : PendingEvent)
    → claim_event token lease now db ≡ ok (some pending, after)
    → (t : Time) → ltb t (later now lease) ≡ true
    → (row : OutboxRow) × (first (same_event_id (event_id pending.event)) after.outbox ≡ some row)
      × (row.lock_token ≡ some token)
      × (is_claimable t row ≡ false)
unfolding claim_event same_event_id reserve
claim_event-exclusive token lease now db after pending h t running =
    elim (Option-cases (earliest publish_key (is_claimable now) db.outbox)) [
      | inl missing ↦
          absurd (none_not_some refl (ap (λ r. r.0) (ok_inj (rw (missing, claim_event) at h))))
      | inr (row, found) ↦
          let same = ok_inj (rw (found, claim_event) at h) in
          let (held, first_held, own) =
            earliest-first publish_key (is_claimable now) (same_event_id (event_id row.event))
              db.outbox row found (same_event_id_refl row) in
          rw (sym (ap (λ r. r.1) same), sym (some_inj (ap (λ r. r.0) same)))
            (
              reserve token (later now lease) held,
              first-update (same_event_id (event_id row.event)) (same_event_id (event_id row.event))
                  (reserve token (later now lease)) (λ y e. refl) db.outbox held (λ y e. e)
                  first_held own,
              refl,
              reserve-unclaimable token (later now lease) t held running,
            )
    ]

pub reserved-own :
    (id token : Uuid) (now : Time) (row : OutboxRow)
    → is_reserved id token now row ≡ true
    → same_event_id id row ≡ true
unfolding is_reserved same_event_id
reserved-own id token now row h = ground (arith, h)

set_reserved-found :
    (id token : Uuid) (now : Time) (change : OutboxRow → OutboxRow) (db : Db) (row : OutboxRow)
    → first (is_reserved id token now) db.outbox ≡ some row
    → set_reserved id token change now db
      ≡ ok (tt, record db { outbox = update_first (is_reserved id token now) change db.outbox })
unfolding set_reserved
set_reserved-found id token now change db row found = rw (found, set_reserved) refl

-- An update under a reservation that runs succeeds, and changes the row of the event.
pub set_reserved-first :
    (id token : Uuid) (now : Time) (change : OutboxRow → OutboxRow) (db : Db) (row : OutboxRow)
    → ((y : OutboxRow) → same_event_id id (change y) ≡ same_event_id id y)
    → first (same_event_id id) db.outbox ≡ some row
    → is_reserved id token now row ≡ true
    → (set_reserved id token change now db
        ≡ ok (tt, record db { outbox = update_first (is_reserved id token now) change db.outbox }))
      × (first (same_event_id id) (update_first (is_reserved id token now) change db.outbox)
          ≡ some (change row))
set_reserved-first id token now change db row kept found reserved = (
  set_reserved-found id token now change db row (
      first-narrower (same_event_id id) (is_reserved id token now) db.outbox row
        (reserved-own id token now) found reserved),
  first-update (same_event_id id) (is_reserved id token now) change (λ y e. kept y) db.outbox row
      (reserved-own id token now) found reserved,
)
