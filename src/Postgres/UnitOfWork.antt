-- ===== src/Postgres/UnitOfWork.antt =====
-- Statements, transactions and what the program takes from outside
-- (internal/infrastructure/postgres/unit_of_work.go).
use backend_challenge.Base.{ℕ, ◌+◌, Bool, Option, none, some, if◌then◌else◌}
use backend_challenge.Text.{Text}
use backend_challenge.Errors.{Error, Result, ok, err}
use backend_challenge.Domain.Wallet.{Uuid, Time}
use backend_challenge.Domain.Wager.{WagerKind}
use backend_challenge.Domain.Events.{IntegrationEvent}
use backend_challenge.Postgres.Tables.{Db}

-- The financial content that is hashed: the fields of the anonymous structure in
-- `payloadHash` (internal/application/wager_payload.go).
pub record HashPayload : Type 0 where
  pub external_transaction_id : Text
  pub game_id : Text
  pub kind : WagerKind
  pub amount : Text
  pub currency : Text
  pub player_id : Uuid
  pub provider_id : Text
  pub reference_external_transaction_id : Option Text
  pub round_id : Text
  pub wallet_id : Uuid

-- What the program takes from libraries, the clock and the network, each call by its number:
-- `uuid.New`, `time.Now`, the failure of a statement (of the connection, a cancelled context, or
-- a constraint), and whether a commit whose reply is lost has taken place.
pub record Runtime : Type 0 where
  pub new_id : ℕ → Uuid
  pub now : ℕ → Time
  pub fault : ℕ → Option Error
  pub lost_reply : ℕ → Bool
  -- `uuid.NewSHA1(id, "OPENING")` and `id.String()`
  pub opening_id : Uuid → Uuid
  pub uuid_text : Uuid → Text
  -- the hexadecimal SHA-256 of the JSON of a payload, and of a message's body
  pub digest : HashPayload → Text
  pub body_digest : Text → Text
  -- the equality of two JSONB documents
  pub same_json : IntegrationEvent → IntegrationEvent → Bool

pub record World : Type 0 where
  pub db : Db
  pub calls : ℕ

abbrev pub Action : Type 0 → Type 0
Action A = World → Result A × World

module _ {A : Type 0} where
  abbrev pub pure : A → Action A
  pure a w = (ok a, w)

  abbrev pub lift : Result A → Action A
  lift r w = (r, w)

-- An action goes on from the value and the world of the one before it, unless that has failed.
abbrev pub next : {A B : Type 0} → Result A × World → (A → Action B) → Result B × World
next (ok a, w) f = f a w
next (err e, w) f = (err e, w)

infixl 5 ◌>>=◌ ◌>>◌
abbrev pub ◌>>=◌ : {A B : Type 0} → Action A → (A → Action B) → Action B
◌>>=◌ m f w = next (m w) f

abbrev pub ◌>>◌ : {B : Type 0} → Action (Unit {0}) → Action B → Action B
m >> k = m >>= λ _. k

abbrev pub called : World → World
called w = record w { calls = w.calls + 1 }

module _ (rt : Runtime) where
  -- `time.Now().UTC()` and `uuid.New()`
  unfoldable pub clock : Action Time
  clock w = (ok (rt.now w.calls), called w)

  unfoldable pub fresh_id : Action Uuid
  fresh_id w = (ok (rt.new_id w.calls), called w)

  -- A statement: it fails from outside, or runs at the time of the database's clock.
  unfoldable pub statement : {A : Type 0} → (Time → Db → Result (A × Db)) → Action A
  statement step w = elim (rt.fault w.calls) [
    | some e ↦ (err e, called w)
    | none ↦ elim (step (rt.now w.calls) w.db) [
      | ok (a, db) ↦ (ok a, record { db = db; calls = w.calls + 1 })
      | err e ↦ (err e, called w)
    ]
  ]

  -- A statement that changes nothing.
  unfoldable pub query : {A : Type 0} → (Time → Db → Result A) → Action A
  query step w = elim (rt.fault w.calls) [
    | some e ↦ (err e, called w)
    | none ↦ (step (rt.now w.calls) w.db, called w)
  ]

  -- COMMIT, whose failure rolls back unless only the reply is lost.
  unfoldable pub commit : {A : Type 0} → Db → A → Action A
  commit before a w = elim (rt.fault w.calls) [
    | some e ↦
        (err e, record { db = if rt.lost_reply w.calls then w.db else before; calls = w.calls + 1 })
    | none ↦ (ok a, called w)
  ]

  -- The end of `WithinTransaction`: COMMIT after a success, ROLLBACK after an error.
  unfoldable pub finish : {A : Type 0} → Db → Result A × World → Result A × World
  unfolding commit
  finish before (ok a, w) = commit before a w
  finish before (err e, w) = (err e, record w { db = before })

  -- `WithinTransaction`: BEGIN, the work, and its end.
  unfoldable pub within_transaction : {A : Type 0} → Action A → Action A
  unfolding finish
  within_transaction work w = elim (rt.fault w.calls) [
    | some e ↦ (err e, called w)
    | none ↦ finish w.db (work (called w))
  ]
