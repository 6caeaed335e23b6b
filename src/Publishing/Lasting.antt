-- ===== src/Publishing/Lasting.antt =====
-- The statements on the outbox, in any sequence (`Claim`, `MarkPublished` and `Retry`,
-- internal/infrastructure/postgres/outbox_publisher_repository.go, and `Create`,
-- internal/infrastructure/postgres/outbox_repository.go).
use backend_challenge.Base.{
  false-not_true, ap, sym, Option-cases, subst, inr, inl, Bool-cases, refl, ◌≡◌, Bool, true, false,
  Option, none, some, List, [], ◌∷◌, ◌==◌, arith, ℤ,
}
use backend_challenge.Errors.{ok_inj, err_not_ok, Result, ok, err}
use backend_challenge.Domain.Wallet.{Uuid, Time}
use backend_challenge.Domain.Events.{IntegrationEvent}
use backend_challenge.Postgres.{
  has_event_id, Db, World, Runtime, OutboxRow, PendingEvent, first, earliest, publish_key,
  claim_event, claim_outbox, mark_published, retry_event, insert_event, statement, is_claimable,
  is_reserved, same_event_id, event_id, set_reserved, published, postponed, reserve, later,
}
use backend_challenge.Postgres.{fresh_id, called}
use backend_challenge.Books.Statements.{statement-cases}
use backend_challenge.Publishing.Open.{updated-IsFinal, any_missing, IsFinal, is_open}

-- The statements on the outbox.
pub data OutboxOperation : Type 0 where
  create : IntegrationEvent → OutboxOperation
  claim : ℤ → OutboxOperation
  mark : PendingEvent → OutboxOperation
  retry : PendingEvent → ℤ → OutboxOperation

unfoldable pub operate : Runtime → OutboxOperation → World → World
operate rt (create event) w = (statement rt (insert_event event) w).1
operate rt (claim lease) w = (claim_outbox rt lease w).1
operate rt (mark pending) w = (mark_published rt pending w).1
operate rt (retry pending delay) w = (retry_event rt pending delay w).1

-- Any sequence of them, of any processes.
unfoldable pub operate_all : Runtime → List OutboxOperation → World → World
operate_all rt [] w = w
operate_all rt (operation ∷ operations) w = operate_all rt operations (operate rt operation w)

-- Whether a claim has given the event.
abbrev pub gives : Uuid → Result (Option PendingEvent) → Bool
gives id (ok (some pending)) = event_id pending.event == id
gives id (ok none) = false
gives id (err e) = false

equal_ids : (a b : Uuid) → (a == b) ≡ true → a ≡ b
equal_ids a b h = ground arith

module _ (id : Uuid) where
  -- What the statements do to an event without an open row.
  insert-IsFinal :
      (event : IntegrationEvent) (now : Time) (db : Db) (b : Bool) (after : Db)
      → insert_event event now db ≡ ok (b, after)
      → IsFinal id db
      → IsFinal id after
  unfolding insert_event is_open same_event_id has_event_id
  insert-IsFinal event now db b after h final =
      elim (Option-cases (first (has_event_id (event_id event)) db.outbox)) [
        | inr (row, found) ↦
            subst (IsFinal id) (ap (λ r. r.1) (ok_inj (rw (found, insert_event) at h))) final
        | inl missing ↦ elim (Bool-cases (event_id event == id)) [
          | inl same ↦
              let own =
                subst (λ e. first (has_event_id e) db.outbox ≡ none)
                  (equal_ids (event_id event) id same) missing in
              absurd (false-not_true (any_missing (same_event_id id) db.outbox own) final.kept)
          | inr foreign ↦
              subst (IsFinal id) (ap (λ r. r.1) (ok_inj (rw (missing, insert_event) at h)))
                (record {
                  closed = ground (arith, foreign, final.closed);
                  kept = ground (arith, foreign, final.kept);
                })
        ]
      ]

  claim-IsFinal :
      (token : Uuid) (lease : ℤ) (now : Time) (db : Db) (o : Option PendingEvent) (after : Db)
      → claim_event token lease now db ≡ ok (o, after)
      → IsFinal id db
      → IsFinal id after
  unfolding claim_event reserve is_open same_event_id
  claim-IsFinal token lease now db o after h final =
      elim (Option-cases (earliest publish_key (is_claimable now) db.outbox)) [
        | inl missing ↦
            subst (IsFinal id) (ap (λ r. r.1) (ok_inj (rw (missing, claim_event) at h))) final
        | inr (row, found) ↦
            subst (IsFinal id) (ap (λ r. r.1) (ok_inj (rw (found, claim_event) at h))) (
              updated-IsFinal id (same_event_id (event_id row.event))
                (reserve token (later now lease)) db (λ y e. e) (λ y. refl) final)
      ]

  set-IsFinal :
      (key token : Uuid) (change : OutboxRow → OutboxRow) (now : Time) (db : Db) (x : Unit {0})
      (after : Db)
      → ((y : OutboxRow) → is_open id y ≡ false → is_open id (change y) ≡ false)
      → ((y : OutboxRow) → same_event_id id (change y) ≡ same_event_id id y)
      → set_reserved key token change now db ≡ ok (x, after)
      → IsFinal id db
      → IsFinal id after
  unfolding set_reserved
  set-IsFinal key token change now db x after shuts same h final =
      elim (Option-cases (first (is_reserved key token now) db.outbox)) [
        | inl missing ↦ absurd (err_not_ok (rw (missing, set_reserved) at h))
        | inr (row, found) ↦
            subst (IsFinal id) (ap (λ r. r.1) (ok_inj (rw (found, set_reserved) at h)))
              (updated-IsFinal id (is_reserved key token now) change db shuts same final)
      ]

  statement-IsFinal :
      {A : Type 0} (rt : Runtime) (step : Time → Db → Result (A × Db)) (w : World)
      → ((now : Time) (db : Db) (a : A) (after : Db)
          → step now db ≡ ok (a, after)
          → IsFinal id db
          → IsFinal id after)
      → IsFinal id w.db
      → IsFinal id (statement rt step w).1.db
  statement-IsFinal rt step w keeps final = elim (statement-cases rt step w) [
    | inl (e, failed, kept) ↦ subst (IsFinal id) (sym kept) final
    | inr (a, db, done, value, stored) ↦
        subst (IsFinal id) (sym stored) (keeps _ w.db a db done final)
  ]

  operate-IsFinal :
      (rt : Runtime) (operation : OutboxOperation) (w : World)
      → IsFinal id w.db
      → IsFinal id (operate rt operation w).db
  unfolding operate claim_outbox fresh_id mark_published retry_event published postponed is_open
      same_event_id
  operate-IsFinal rt (create event) w final =
      statement-IsFinal rt (insert_event event) w (insert-IsFinal event) final
  operate-IsFinal rt (claim lease) w final =
      statement-IsFinal rt (claim_event (rt.new_id w.calls) lease) (called w)
        (claim-IsFinal (rt.new_id w.calls) lease) final
  operate-IsFinal rt (mark pending) w final =
      statement-IsFinal rt _ w
        (λ now db x after h f.
          set-IsFinal (event_id pending.event) pending.lock_token (published now) now db x after
            (λ y e. ground arith) (λ y. refl) h f)
        final
  operate-IsFinal rt (retry pending delay) w final =
      statement-IsFinal rt _ w
        (λ now db x after h f.
          set-IsFinal (event_id pending.event) pending.lock_token (postponed (later now delay)) now
            db x after (λ y e. e) (λ y. refl) h f)
        final

  pub operate_all-IsFinal :
      (rt : Runtime) (operations : List OutboxOperation) (w : World)
      → IsFinal id w.db
      → IsFinal id (operate_all rt operations w).db
  unfolding operate_all
  operate_all-IsFinal rt [] w final = final
  operate_all-IsFinal rt (operation ∷ operations) w final =
      operate_all-IsFinal rt operations (operate rt operation w)
        (operate-IsFinal rt operation w final)
