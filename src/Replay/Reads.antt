-- ===== src/Replay/Reads.antt =====
-- Actions that only read, and what follows them.
use backend_challenge.Base.{
  some, ◌≡◌, refl, sym, ◌∙◌, ◌⊎◌, inl, inr, Bool, true, false, if◌then◌else◌, Option-cases,
}
use backend_challenge.Errors.{Error, Result, ok, err, Result-cases}
use backend_challenge.Domain.Wallet.{Time}
use backend_challenge.Postgres.{
  Runtime, World, Db, Action, ◌>>=◌, lift, clock, fresh_id, query, within_transaction, called,
}
use backend_challenge.Application.{attempt}
use backend_challenge.Books.Logic.{bind-ok, bind-err}
use backend_challenge.Books.Statements.{query-db, within_transaction-cases}

module _ {A : Type 0} where
  unfoldable pub Reads : Action A → Type 0
  Reads m = (w : World) → (m w).1.db ≡ w.db

  -- The tables are as they were, and the result is the given one, or an error.
  pub record IsAnswered (answer : Result A) (db : Db) (p : Result A × World) : Type 0 where
    pub unchanged : p.1.db ≡ db
    pub answered : (p.0 ≡ answer) ⊎ ((e : Error) × (p.0 ≡ err e))

module _ {A B : Type 0} (m : Action A) (f : A → Action B) where
  pub >>=-Reads : Reads m → ((a : A) → Reads (f a)) → Reads (m >>= f)
  unfolding Reads
  >>=-Reads hm hf w = elim (Result-cases (m w).0) [
    | inl (a, h) ↦ rw (bind-ok m f w a h) (hf a (m w).1 ∙ hm w)
    | inr (e, h) ↦ rw (bind-err m f w e h) (hm w)
  ]

  pub >>=-IsAnswered :
      (answer : Result B) (db : Db) (w : World)
      → w.db ≡ db
      → Reads m
      → ((a : A) (v : World) → v.db ≡ db → (m w).0 ≡ ok a → IsAnswered answer db (f a v))
      → IsAnswered answer db ((m >>= f) w)
  unfolding Reads
  >>=-IsAnswered answer db w same hm hf = elim (Result-cases (m w).0) [
    | inl (a, h) ↦ rw (bind-ok m f w a h) (hf a (m w).1 (hm w ∙ same) h)
    | inr (e, h) ↦
        rw (bind-err m f w e h) (record { unchanged = hm w ∙ same; answered = inr (e, refl) })
  ]

-- From the given tables, the action is answered.
unfoldable pub Answers : {A : Type 0} → Result A → Db → Action A → Type 0
Answers answer db m = (w : World) → w.db ≡ db → IsAnswered answer db (m w)

module _ {A B : Type 0} (answer : Result B) (db : Db) where
  pub Reads->>= :
      (m : Action A) (f : A → Action B)
      → Reads m
      → ((a : A) → Answers answer db (f a))
      → Answers answer db (m >>= f)
  unfolding Answers
  Reads->>= m f hm hf w same = >>=-IsAnswered m f answer db w same hm (λ a v e h. hf a v e)

  pub lift->>=-Answers :
      (r : Result A) (f : A → Action B)
      → ((a : A) → r ≡ ok a → Answers answer db (f a))
      → Answers answer db (lift r >>= f)
  unfolding Answers Reads
  lift->>=-Answers r f hf w same =
      >>=-IsAnswered (lift r) f answer db w same (λ v. refl) (λ a v e h. hf a h v e)

module _ {A : Type 0} where
  pub lift-Reads : (r : Result A) → Reads (lift r)
  unfolding Reads
  lift-Reads r w = refl

  pub attempt-Reads : (m : Action A) → Reads m → Reads (attempt m)
  unfolding Reads
  attempt-Reads m h w = h w

  pub if-Reads : (b : Bool) (m n : Action A) → Reads m → Reads n → Reads (if b then m else n)
  if-Reads true m n hm hn = hm
  if-Reads false m n hm hn = hn

module _ {A : Type 0} (rt : Runtime) where
  pub query-Reads : (step : Time → Db → Result A) → Reads (query rt step)
  unfolding Reads
  query-Reads step w = query-db rt step w

  pub within_transaction-IsAnswered :
      (work : Action A) (answer : Result A) (db : Db) (w : World)
      → w.db ≡ db
      → IsAnswered answer db (work (called w))
      → IsAnswered answer db (within_transaction rt work w)
  within_transaction-IsAnswered work answer db w same h =
      elim (within_transaction-cases rt work w) [
        | inl (a, worked, done, stored) ↦ record {
          unchanged = stored ∙ h.unchanged;
          answered = rw (done ∙ sym worked) h.answered;
        }
        | inr (e, broken, inl restored) ↦ record {
          unchanged = restored ∙ same;
          answered = inr (e, broken);
        }
        | inr (e, broken, inr (a, worked, stored)) ↦ record {
          unchanged = stored ∙ h.unchanged;
          answered = inr (e, broken);
        }
      ]

module _ {A : Type 0} (rt : Runtime) where
  pub within_transaction-Answers :
      (work : Action A) (answer : Result A) (db : Db)
      → Answers answer db work
      → Answers answer db (within_transaction rt work)
  unfolding Answers
  within_transaction-Answers work answer db h w same =
      within_transaction-IsAnswered rt work answer db w same (h (called w) same)

pub clock-Reads : (rt : Runtime) → Reads (clock rt)
unfolding Reads clock
clock-Reads rt w = refl

pub fresh_id-Reads : (rt : Runtime) → Reads (fresh_id rt)
unfolding Reads fresh_id
fresh_id-Reads rt w = refl

-- What a query gives: what its step finds, or the fault.
pub query-cases :
    {A : Type 0} (rt : Runtime) (step : Time → Db → Result A) (w : World)
    → ((query rt step w).0 ≡ step (rt.now w.calls) w.db)
      ⊎ ((e : Error) × (rt.fault w.calls ≡ some e) × ((query rt step w).0 ≡ err e))
unfolding query
query-cases rt step w = elim (Option-cases (rt.fault w.calls)) [
  | inl passed ↦ rw (passed, query) (inl refl)
  | inr (e, faulty) ↦ rw (faulty, query) (inr (e, refl, refl))
]
