-- ===== src/Publishing/Open.antt =====
-- The open rows of an event in the outbox, and what an update makes of them
-- (internal/infrastructure/postgres/outbox_publisher_repository.go).
use backend_challenge.Base.{
  none_not_some, sym, ◌∙◌, inr, inl, Bool-cases, refl, ℕ, suc, ◌≤◌, ◌≡◌, Bool, true, false, ◌&&◌,
  Option, none, some, List, [], ◌∷◌, ◌<◌, any, ◌==◌, if◌then◌else◌, arith,
}
use backend_challenge.Domain.Wallet.{Uuid, Time}
use backend_challenge.Postgres.{
  Db, OutboxRow, first, update_first, same_event_id, event_id, published,
}

-- The rows of an event: at most one, by the primary key.
unfoldable pub rows_of : Uuid → List OutboxRow → ℕ
rows_of id [] = 0
rows_of id (row ∷ rows) =
    let rest = rows_of id rows in if event_id row.event == id then suc rest else rest

abbrev is_unset : Option Time → Bool
is_unset none = true
is_unset (some t) = false

pub any_missing :
    (p : OutboxRow → Bool) (rows : List OutboxRow) → first p rows ≡ none → any p rows ≡ false
unfolding first
any_missing p [] h = refl
any_missing p (row ∷ rows) h = elim (Bool-cases (p row)) [
  | inl hit ↦ absurd (none_not_some refl (sym (rw hit at h)))
  | inr missed ↦ rw missed (any_missing p rows (rw missed at h))
]

module _ (id : Uuid) where
  -- A row of the event that is not published.
  unfoldable pub is_open : OutboxRow → Bool
  is_open row = event_id row.event == id && is_unset row.published_at

  pub record IsFinal (db : Db) : Type 0 where
    pub closed : any is_open db.outbox ≡ false
    pub kept : any (same_event_id id) db.outbox ≡ true

  none_open : (rows : List OutboxRow) → rows_of id rows ≡ 0 → any is_open rows ≡ false
  unfolding rows_of is_open
  none_open [] h = refl
  none_open (row ∷ rows) h = ground (arith, none_open rows)

  one_row :
      (p : OutboxRow → Bool) (rows : List OutboxRow) (row : OutboxRow)
      → ((y : OutboxRow) → p y ≡ true → same_event_id id y ≡ true)
      → first p rows ≡ some row
      → 0 < rows_of id rows
  unfolding rows_of first same_event_id
  one_row p [] row within h = absurd cc
  one_row p (y ∷ rows) row within h = elim (Bool-cases (p y)) [
    | inl hit ↦ ground (arith, within y hit)
    | inr missed ↦ let more = one_row p rows row within (rw missed at h) in ground (arith, more)
  ]

  -- An update that opens no row.
  update-closed :
      (p : OutboxRow → Bool) (change : OutboxRow → OutboxRow) (rows : List OutboxRow)
      → ((y : OutboxRow) → is_open y ≡ false → is_open (change y) ≡ false)
      → any is_open rows ≡ false
      → any is_open (update_first p change rows) ≡ false
  unfolding update_first
  update-closed p change [] shuts h = refl
  update-closed p change (y ∷ rows) shuts h =
      ground (arith, shuts y, update-closed p change rows shuts)

  pub update-kept :
      (p : OutboxRow → Bool) (change : OutboxRow → OutboxRow) (rows : List OutboxRow)
      → ((y : OutboxRow) → same_event_id id (change y) ≡ same_event_id id y)
      → any (same_event_id id) (update_first p change rows) ≡ any (same_event_id id) rows
  unfolding update_first
  update-kept p change [] same = refl
  update-kept p change (y ∷ rows) same = ground (arith, same y, update-kept p change rows same)

  pub updated-IsFinal :
      (p : OutboxRow → Bool) (change : OutboxRow → OutboxRow) (db : Db)
      → ((y : OutboxRow) → is_open y ≡ false → is_open (change y) ≡ false)
      → ((y : OutboxRow) → same_event_id id (change y) ≡ same_event_id id y)
      → IsFinal db
      → IsFinal (record db { outbox = update_first p change db.outbox })
  updated-IsFinal p change db shuts same final = record {
    closed = update-closed p change db.outbox shuts final.closed;
    kept = update-kept p change db.outbox same ∙ final.kept;
  }

  -- Marking the only row of the event as published leaves none open.
  pub marked-closed :
      (p : OutboxRow → Bool) (now : Time) (rows : List OutboxRow) (row : OutboxRow)
      → ((y : OutboxRow) → p y ≡ true → same_event_id id y ≡ true)
      → rows_of id rows ≤ 1
      → first p rows ≡ some row
      → any is_open (update_first p (published now) rows) ≡ false
  unfolding update_first first rows_of is_open published same_event_id
  marked-closed p now [] row within single h = absurd cc
  marked-closed p now (y ∷ rows) row within single h = elim (Bool-cases (p y)) [
    | inl hit ↦ rw hit (ground (arith, within y hit, none_open rows))
    | inr missed ↦
        let there = rw missed at h in
        rw missed (
          ground (
            arith,
            one_row p rows row within there,
            marked-closed p now rows row within (ground (arith, one_row p rows row within there))
                there,
          ))
  ]
