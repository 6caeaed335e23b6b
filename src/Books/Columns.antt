-- ===== src/Books/Columns.antt =====
-- The amounts of the stored operations still fit their column after a retry: no statement of it
-- changes an amount (internal/application/process_wager.go and retry_references.go).
use backend_challenge.Base.{
  ap, sym, Bool-cases, ◌∷◌, Option-cases, List, ◌≡◌, if◌then◌else◌, Bool, refl, [], inl, inr, true,
  false,
}
use backend_challenge.Errors.{ok_inj, err_not_ok, Result-cases, Result, ok}
use backend_challenge.Books.Statements.{statement-cases, within_transaction-cases}
use backend_challenge.Postgres.{
  called, within_transaction, other_reversal, is_open_row, first, Db, update_first, WagerRow,
  fresh_id, World, clock, Runtime, set_outcome, Action, set_wager, ◌>>=◌, pure, lift, query,
  statement,
}
use backend_challenge.Replay.Reads.{query-Reads, Reads}
use backend_challenge.Domain.Wager.{WagerTransaction}
use backend_challenge.Domain.Wallet.{Time}
use backend_challenge.Books.Claims.{FitColumns}
use backend_challenge.Books.Logic.{bind-err, bind-ok}
use backend_challenge.Application.{attempt}

-- The action keeps the amounts, whatever its result.
unfoldable pub Fits : {A : Type 0} → Action A → Type 0
Fits m = (w : World) → FitColumns w.db.wagers → FitColumns (m w).1.db.wagers

pub Reads-Fits : {A : Type 0} (m : Action A) → Reads m → Fits m
unfolding Reads Fits
Reads-Fits m reads w h = rw (reads w) h

pub >>=-Fits :
    {A B : Type 0} (m : Action A) (f : A → Action B)
    → Fits m
    → ((a : A) → Fits (f a))
    → Fits (m >>= f)
unfolding Fits
>>=-Fits m f hm hf w h = elim (Result-cases (m w).0) [
  | inl (a, e) ↦ rw (bind-ok m f w a e) (hf a (m w).1 (hm w h))
  | inr (x, e) ↦ rw (bind-err m f w x e) (hm w h)
]

pub lift-Fits : {A : Type 0} (r : Result A) → Fits (lift r)
unfolding Fits
lift-Fits r w h = h

pub pure-Fits : {A : Type 0} (a : A) → Fits (pure a)
unfolding Fits
pure-Fits a w h = h

pub attempt-Fits : {A : Type 0} (m : Action A) → Fits m → Fits (attempt m)
unfolding Fits
attempt-Fits m h w = h w

pub if-Fits : {A : Type 0} (b : Bool) (m n : Action A) → Fits m → Fits n → Fits (if b then m else n)
if-Fits true m n hm hn = hm
if-Fits false m n hm hn = hn

module _ (rt : Runtime) where
  pub clock-Fits : Fits (clock rt)
  unfolding clock Fits
  clock-Fits w h = h

  pub fresh_id-Fits : Fits (fresh_id rt)
  unfolding fresh_id Fits
  fresh_id-Fits w h = h

  pub query-Fits : {A : Type 0} (step : Time → Db → Result A) → Fits (query rt step)
  query-Fits step = Reads-Fits _ (query-Reads rt step)

  pub statement-Fits :
      {A : Type 0} (step : Time → Db → Result (A × Db))
      → ((now : Time) (db : Db) (a : A) (after : Db)
          → FitColumns db.wagers
          → step now db ≡ ok (a, after)
          → FitColumns after.wagers)
      → Fits (statement rt step)
  unfolding Fits
  statement-Fits step keeps w h = elim (statement-cases rt step w) [
    | inl (e, failed, kept) ↦ rw kept h
    | inr (a, db, done, e, stored) ↦ rw stored (keeps _ w.db a db h done)
  ]

  pub within_transaction-Fits :
      {A : Type 0} (work : Action A) → Fits work → Fits (within_transaction rt work)
  unfolding Fits
  within_transaction-Fits work keeps w h = elim (within_transaction-cases rt work w) [
    | inl (a, worked, done, stored) ↦ rw stored (keeps (called w) h)
    | inr (e, broken, inl restored) ↦ rw restored h
    | inr (e, broken, inr (a, worked, stored)) ↦ rw stored (keeps (called w) h)
  ]

-- An update that keeps the amounts.
pub update_first-FitColumns :
    (p : WagerRow → Bool) (f : WagerRow → WagerRow)
    → ((row : WagerRow) → (f row).columns.money ≡ row.columns.money)
    → (rows : List WagerRow) → FitColumns rows
    → FitColumns (update_first p f rows)
unfolding FitColumns update_first
update_first-FitColumns p f same [] h = h
update_first-FitColumns p f same (row ∷ rows) (here, rest) = elim (Bool-cases (p row)) [
  | inl chosen ↦ rw (chosen, same row) (here, rest)
  | inr passed ↦ rw passed (here, update_first-FitColumns p f same rows rest)
]

set_outcome-money :
    (t : WagerTransaction) (row : WagerRow) → (set_outcome t row).columns.money ≡ row.columns.money
unfolding set_outcome
set_outcome-money t row = refl

pub set_wager-FitColumns :
    (t : WagerTransaction) (now : Time) (db : Db) (u : Unit {0}) (after : Db)
    → FitColumns db.wagers
    → set_wager t now db ≡ ok (u, after)
    → FitColumns after.wagers
unfolding set_wager
set_wager-FitColumns t now db u after fit h =
    elim (Option-cases (first (is_open_row t.id) db.wagers)) [
      | inl missing ↦ absurd (err_not_ok (rw (missing, set_wager) at h))
      | inr (row, found) ↦ elim (Option-cases (first (other_reversal t) db.wagers)) [
        | inr (other, reversed) ↦ absurd (err_not_ok (rw (found, reversed, set_wager) at h))
        | inl alone ↦ rw (sym (ap (λ r. r.1) (ok_inj (rw (found, alone, set_wager) at h)))) (
            update_first-FitColumns (is_open_row t.id) (set_outcome t) (set_outcome-money t)
              db.wagers fit)
      ]
    ]
