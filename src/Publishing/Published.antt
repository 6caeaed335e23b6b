-- ===== src/Publishing/Published.antt =====
-- The end of a reservation by `MarkPublished`, and the claims after it
-- (internal/infrastructure/postgres/outbox_publisher_repository.go).
use backend_challenge.Base.{
  false-not_true, sym, some_inj, ap, none_not_some, inr, inl, refl, ◌≤◌, Bool-cases, arith,
  Option-cases, ℤ, any, ◌==◌, ◌≡◌, Bool, true, false, none, some, List, [], ◌∷◌,
}
use backend_challenge.Errors.{ok_inj, ok}
use backend_challenge.Domain.Wallet.{Uuid, Time}
use backend_challenge.Postgres.{
  called, fresh_id, Db, World, Runtime, OutboxRow, PendingEvent, first, update_first, earliest,
  publish_key, claim_event, claim_outbox, mark_published, is_claimable, is_reserved, same_event_id,
  event_id, published, statement,
}
use backend_challenge.Publishing.Reservation.{set_reserved-first, reserved-own}
use backend_challenge.Publishing.Rows.{earliest-first, first-narrower, earliest-holds}
use backend_challenge.Publishing.Lasting.{OutboxOperation, operate_all, gives, operate_all-IsFinal}
use backend_challenge.Publishing.Open.{rows_of, is_open, IsFinal, marked-closed}
use backend_challenge.Books.Statements.{statement-cases}

module _ (id : Uuid) where
  first-any :
      (p : OutboxRow → Bool) (rows : List OutboxRow) (row : OutboxRow)
      → first p rows ≡ some row
      → any p rows ≡ true
  unfolding first
  first-any p [] row h = absurd cc
  first-any p (y ∷ rows) row h = elim (Bool-cases (p y)) [
    | inl hit ↦ rw hit refl
    | inr missed ↦ rw missed (first-any p rows row (rw missed at h))
  ]

  claimable-is_open :
      (t : Time) (row : OutboxRow)
      → is_claimable t row ≡ true
      → (event_id row.event == id) ≡ true
      → is_open id row ≡ true
  unfolding is_claimable is_open
  claimable-is_open t row h e = ground (arith, h, e)

  -- A claim gives no event without an open row.
  claim-gives :
      (token : Uuid) (lease : ℤ) (now : Time) (db : Db) (given : PendingEvent) (after : Db)
      → IsFinal id db
      → claim_event token lease now db ≡ ok (some given, after)
      → (event_id given.event == id) ≡ false
  unfolding claim_event
  claim-gives token lease now db given after final h =
      elim (Option-cases (earliest publish_key (is_claimable now) db.outbox)) [
        | inl missing ↦
            absurd (none_not_some refl (ap (λ r. r.0) (ok_inj (rw (missing, claim_event) at h))))
        | inr (row, found) ↦
            let same = some_inj (ap (λ r. r.0) (ok_inj (rw (found, claim_event) at h))) in
            rw (sym same) (elim (Bool-cases (event_id row.event == id)) [
              | inr foreign ↦ foreign
              | inl own ↦
                  let opened =
                    claimable-is_open now row
                      (earliest-holds publish_key (is_claimable now) db.outbox row found) own in
                  let (y, there, holds) =
                    earliest-first publish_key (is_claimable now) (is_open id) db.outbox row found
                      opened in
                  absurd (false-not_true final.closed (first-any (is_open id) db.outbox y there))
            ])
      ]

  claimed-gives :
      (rt : Runtime) (lease : ℤ) (w : World)
      → IsFinal id w.db
      → gives id (claim_outbox rt lease w).0 ≡ false
  unfolding claim_outbox fresh_id
  claimed-gives rt lease w final =
      elim (statement-cases rt (claim_event (rt.new_id w.calls) lease) (called w)) [
        | inl (e, failed, same) ↦ rw failed refl
        | inr (none, db, done, value, stored) ↦ rw value refl
        | inr (some given, db, done, value, stored) ↦
            rw value (claim-gives (rt.new_id w.calls) lease _ w.db given db final done)
      ]

-- `MarkPublished` for an event whose reservation runs, on an outbox with one row of the event, as
-- its primary key has it, and where the statement does not fail: it succeeds, it sets the time of
-- the publication, and after any sequence of the outbox's statements, of any process and whatever
-- fails, no claim gives the event.
pub mark_published_lasts :
    (rt : Runtime) (pending : PendingEvent) (w : World) (row : OutboxRow)
    (operations : List OutboxOperation) (lease : ℤ)
    → rt.fault w.calls ≡ none
    → rows_of (event_id pending.event) w.db.outbox ≤ 1
    → first (same_event_id (event_id pending.event)) w.db.outbox ≡ some row
    → is_reserved (event_id pending.event) pending.lock_token (rt.now w.calls) row ≡ true
    → ((mark_published rt pending w).0 ≡ ok tt)
      × ((settled : OutboxRow) × (first
              (same_event_id (event_id pending.event))
              (mark_published rt pending w).1.db.outbox
            ≡ some settled)
          × (settled.published_at ≡ some (rt.now w.calls)))
      × (gives
            (event_id pending.event)
            (claim_outbox rt lease (operate_all rt operations (mark_published rt pending w).1)).0
          ≡ false)
unfolding mark_published published same_event_id statement
mark_published_lasts rt pending w row operations lease passed single found reserved =
    let id = event_id pending.event in
    let now = rt.now w.calls in
    let (done, marked) =
      set_reserved-first id pending.lock_token now (published now) w.db row (λ y. refl) found
        reserved in
    let final : IsFinal id (record w.db {
      outbox = update_first (is_reserved id pending.lock_token now) (published now) w.db.outbox;
    }) =
      record {
        closed =
            marked-closed id (is_reserved id pending.lock_token now) now w.db.outbox row
              (reserved-own id pending.lock_token now) single
              (first-narrower (same_event_id id) (is_reserved id pending.lock_token now) w.db.outbox
                row (reserved-own id pending.lock_token now) found reserved);
        kept = first-any id (same_event_id id) _ (published now row) marked;
      } in
    rw (passed, statement, done)
      (
        refl,
        (published now row, marked, refl),
        claimed-gives id rt lease _ (operate_all-IsFinal id rt operations _ final),
      )
