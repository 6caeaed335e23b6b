-- ===== src/Books/Statements.antt =====
-- Queries, statements and units of work, and what they do to the books
-- (internal/infrastructure/postgres/unit_of_work.go).
use backend_challenge.Base.{◌⊎◌, ◌∙◌, ap, ◌≡◌, refl, sym, inl, inr, Bool-cases, Option-cases}
use backend_challenge.Errors.{ok_inj, err_not_ok, Error, Result, ok, err, Result-cases}
use backend_challenge.Domain.Wallet.{Time}
use backend_challenge.Postgres.{
  finish, called, commit, Db, Runtime, World, Action, statement, query, within_transaction,
}
use backend_challenge.Books.Logic.{Books, books, Frames, Ensures, Keeps}

module _ {A : Type 0} (rt : Runtime) where
  pub query-db : (step : Time → Db → Result A) (w : World) → (query rt step w).1.db ≡ w.db
  unfolding query
  query-db step w = elim (Option-cases (rt.fault w.calls)) [
    | inl none_h ↦ rw (none_h, query) refl
    | inr some_h ↦ rw (some_h.1, query) refl
  ]

  pub query-value :
      (step : Time → Db → Result A) (w : World) (a : A)
      → (query rt step w).0 ≡ ok a
      → step (rt.now w.calls) w.db ≡ ok a
  unfolding query
  query-value step w a h = elim (Option-cases (rt.fault w.calls)) [
    | inl passed ↦ rw (passed, query) at h
    | inr (e, faulty) ↦ absurd (err_not_ok (rw (faulty, query) at h))
  ]

  pub query-Frames : (step : Time → Db → Result A) → Frames (query rt step)
  unfolding Frames
  query-Frames step w = ap books (query-db step w)

  -- A query's success gives what its step finds, in the books that it leaves.
  pub query-Ensures :
      (P : Books → Type 0) (step : Time → Db → Result A) (Q : A → Books → Type 0)
      → ((now : Time) (db : Db) (a : A) → P (books db) → step now db ≡ ok a → Q a (books db))
      → Ensures P (query rt step) Q
  unfolding Ensures
  query-Ensures P step Q found w a p h =
      rw (query-db step w) (found _ w.db a p (query-value step w a h))

  -- What a statement has done: its step, if it has succeeded, or nothing.
  pub statement-cases :
      (step : Time → Db → Result (A × Db)) (w : World)
      → ((e : Error) × ((statement rt step w).0 ≡ err e) × ((statement rt step w).1.db ≡ w.db))
        ⊎ ((a : A) × (db : Db) × (step (rt.now w.calls) w.db ≡ ok (a, db))
            × ((statement rt step w).0 ≡ ok a)
            × ((statement rt step w).1.db ≡ db))
  unfolding statement
  statement-cases step w = elim (Option-cases (rt.fault w.calls)) [
    | inr (e, faulty) ↦ rw (faulty, statement) (inl (e, refl, refl))
    | inl passed ↦
        rw (passed, statement)
          (elim (Result-cases (step (rt.now w.calls) w.db)) [
            | inl ((a, db), done) ↦ rw (done) (inr (a, db, refl, refl, refl))
            | inr (e, refused) ↦ rw (refused) (inl (e, refl, refl))
          ])
  ]

  pub statement-Frames :
      (step : Time → Db → Result (A × Db))
      → ((now : Time) (db : Db) (a : A) (after : Db)
          → step now db ≡ ok (a, after)
          → books after ≡ books db)
      → Frames (statement rt step)
  unfolding Frames
  statement-Frames step frames w = elim (statement-cases step w) [
    | inl (e, failed, kept) ↦ ap books kept
    | inr (a, db, done, e, stored) ↦ ap books stored ∙ frames _ w.db a db done
  ]

  pub statement-Ensures :
      (P : Books → Type 0) (step : Time → Db → Result (A × Db)) (Q : A → Books → Type 0)
      → ((now : Time) (db : Db) (a : A) (after : Db)
          → P (books db)
          → step now db ≡ ok (a, after)
          → Q a (books after))
      → Ensures P (statement rt step) Q
  unfolding Ensures
  statement-Ensures P step Q does w a p h = elim (statement-cases step w) [
    | inl (e, failed, kept) ↦ absurd (err_not_ok (sym failed ∙ h))
    | inr (b, db, done, e, stored) ↦
        rw stored (does _ w.db a db p (rw (ok_inj (sym e ∙ h)) at done))
  ]

  commit-cases :
      (before : Db) (a : A) (w : World)
      → (((commit rt before a w).0 ≡ ok a) × ((commit rt before a w).1.db ≡ w.db))
        ⊎ ((e : Error) × ((commit rt before a w).0 ≡ err e)
            × (((commit rt before a w).1.db ≡ w.db) ⊎ ((commit rt before a w).1.db ≡ before)))
  unfolding commit
  commit-cases before a w = elim (Option-cases (rt.fault w.calls)) [
    | inl passed ↦ rw (passed, commit) (inl (refl, refl))
    | inr (e, faulty) ↦
        rw (faulty, commit)
          (inr (
            e,
            refl,
            elim (Bool-cases (rt.lost_reply w.calls)) [
              | inl lost ↦ rw lost (inl refl)
              | inr failed ↦ rw failed (inr refl)
            ],
          ))
  ]

  -- A unit of work has succeeded, and its work is stored; or has failed, and the tables are as
  -- they were, or the work has succeeded and is stored although the reply to COMMIT was lost.
  pub within_transaction-cases :
      (work : Action A) (w : World)
      → let done = within_transaction rt work w in
        let worked = work (called w) in
        ((a : A) × (worked.0 ≡ ok a) × (done.0 ≡ ok a) × (done.1.db ≡ worked.1.db))
        ⊎ ((e : Error) × (done.0 ≡ err e)
            × ((done.1.db ≡ w.db) ⊎ ((a : A) × (worked.0 ≡ ok a) × (done.1.db ≡ worked.1.db))))
  unfolding within_transaction finish
  within_transaction-cases work w = elim (Option-cases (rt.fault w.calls)) [
    | inr (e, faulty) ↦ rw (faulty, within_transaction) (inr (e, refl, inl refl))
    | inl passed ↦
        rw (passed, within_transaction)
          (elim (Result-cases (work (called w)).0) [
            | inr (e, refused) ↦ rw (refused, finish) (inr (e, refl, inl refl))
            | inl (a, done) ↦
                rw (done, finish)
                  (elim (commit-cases w.db a (work (called w)).1) [
                    | inl (committed, stored) ↦ inl (a, refl, committed, stored)
                    | inr (e, broken, inl stored) ↦ inr (e, broken, inr (a, refl, stored))
                    | inr (e, broken, inr restored) ↦ inr (e, broken, inl restored)
                  ])
          ])
  ]

  -- A unit of work whose success keeps what holds of the books keeps it in every case.
  pub within_transaction-Keeps :
      (P : Books → Type 0) (work : Action A)
      → Ensures P work (λ a. P)
      → Keeps P (within_transaction rt work)
  unfolding Keeps Ensures
  within_transaction-Keeps P work ensures w p = elim (within_transaction-cases work w) [
    | inl (a, worked, done, stored) ↦ rw stored (ensures (called w) a p worked)
    | inr (e, broken, inl restored) ↦ rw restored p
    | inr (e, broken, inr (a, worked, stored)) ↦ rw stored (ensures (called w) a p worked)
  ]
