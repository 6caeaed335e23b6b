-- ===== src/Books/Claims.antt =====
-- The operation that `ClaimPendingReference` gives has a valid amount
-- (internal/infrastructure/postgres/reference_repository.go and wager_repository.go).
use backend_challenge.Text.{Text}
use backend_challenge.Base.{
  none, some, ap, Option, Option-cases, ◌∙◌, inr, some_inj, sym, inl, Bool-cases, ◌∷◌, some,
  IsInt64, All, Bool, ◌≡◌, subst, List, refl,
}
use backend_challenge.Base.{[], Option}
use backend_challenge.Domain.Wager.{validate}
use backend_challenge.Postgres.{
  claim_wallet, claim_row, due_operation, find_by_id, has_id, PendingReference,
  claim_pending_reference, WagerRow, first, Runtime, World, scan_wager, select_wager, Action, ◌>>=◌,
  pure, query, Db,
}
use backend_challenge.Domain.Money.{money_from_minor_units}
use backend_challenge.Domain.Money
use backend_challenge.Domain.Wallet.{Uuid, Time}
use backend_challenge.Domain.Wager.{WagerTransaction, rehydrate_wager_transaction}
use backend_challenge.Errors.{then-eq-ok, err_not_ok, >>=-eq-ok, Result-cases, ok, Result, ok_inj}
use backend_challenge.Replay.Reads.{query-Reads, >>=-Reads, Reads}
use backend_challenge.Books.Stored.{money_from_minor_units_inv}
use backend_challenge.Books.Statements.{query-value}
use backend_challenge.Books.Logic.{bind-err, bind-ok}

-- The success of the action on these tables has the property.
module _ {A : Type 0} where
  unfoldable pub Finds : Db → Action A → (A → Type 0) → Type 0
  Finds db m Q = (w : World) (a : A) → w.db ≡ db → (m w).0 ≡ ok a → Q a

module _ {A : Type 0} (db : Db) where
  pure-Finds : (a : A) (Q : A → Type 0) → Q a → Finds db (pure a) Q
  unfolding Finds
  pure-Finds a Q q w b same h = subst Q (ok_inj h) q

  query-Finds :
      (rt : Runtime) (step : Time → Db → Result A) (Q : A → Type 0)
      → ((now : Time) (a : A) → step now db ≡ ok a → Q a)
      → Finds db (query rt step) Q
  unfolding Finds
  query-Finds rt step Q q w a same h =
      q (rt.now w.calls) a (rw (sym same) (query-value rt step w a h))

module _ {A B : Type 0} (db : Db) where
  >>=-Finds :
      (m : Action A) (f : A → Action B) (Q : A → Type 0) (R : B → Type 0)
      → Reads m
      → Finds db m Q
      → ((a : A) → Q a → Finds db (f a) R)
      → Finds db (m >>= f) R
  unfolding Finds Reads
  >>=-Finds m f Q R reads hm hf w b same h = elim (Result-cases (m w).0) [
    | inl (a, found) ↦
        hf a (hm w a same found) (m w).1 b (reads w ∙ same) (rw (bind-ok m f w a found) at h)
    | inr (e, failed) ↦ absurd (err_not_ok (rw (bind-err m f w e failed) at h))
  ]

-- The amounts of the stored operations fit their column, a `bigint`.
unfoldable pub FitColumns : List WagerRow → Type 0
FitColumns rows = All (λ row. IsInt64 row.columns.money.amount) rows

unfoldable pub HasMoney : WagerTransaction → Type 0
HasMoney t = Money.IsValid t.money

rehydrate-money :
    (state t : WagerTransaction) → rehydrate_wager_transaction state ≡ ok t → state.money ≡ t.money
unfolding rehydrate_wager_transaction
rehydrate-money state t h =
    let (valid, done) = then-eq-ok (validate state) _ h in ap (λ r. r.money) (ok_inj done)

scan_wager-IsValid :
    (row : WagerRow) (t : WagerTransaction)
    → IsInt64 row.columns.money.amount
    → scan_wager row ≡ ok t
    → HasMoney t
unfolding scan_wager HasMoney
scan_wager-IsValid row t range h =
    let (money, read, built) =
      >>=-eq-ok (money_from_minor_units row.columns.money.amount row.columns.money.currency) _ h in
    let (known, same) =
      money_from_minor_units_inv row.columns.money.amount row.columns.money.currency money read in
    subst Money.IsValid (sym same ∙ rehydrate-money _ t built)
      (record { accepted = known; in_range = range })

first-FitColumns :
    (p : WagerRow → Bool) (rows : List WagerRow) (row : WagerRow)
    → FitColumns rows
    → first p rows ≡ some row
    → IsInt64 row.columns.money.amount
unfolding FitColumns first
first-FitColumns p [] row fit h = absurd cc
first-FitColumns p (x ∷ rows) row (here, rest) h = elim (Bool-cases (p x)) [
  | inl chosen ↦ rw (sym (some_inj (rw chosen at h))) here
  | inr passed ↦ first-FitColumns p rows row rest (rw passed at h)
]

select_wager-HasMoney :
    (p : WagerRow → Bool) (now : Time) (db : Db) (t : WagerTransaction)
    → FitColumns db.wagers
    → select_wager p now db ≡ ok t
    → HasMoney t
unfolding select_wager
select_wager-HasMoney p now db t fit h = elim (Option-cases (first p db.wagers)) [
  | inl missing ↦ absurd (err_not_ok (rw (missing, select_wager) at h))
  | inr (row, found) ↦
      scan_wager-IsValid row t (first-FitColumns p db.wagers row fit found)
        (rw (found, select_wager) at h)
]

-- What is claimed has a valid amount.
unfoldable pub HasClaim : Option PendingReference → Type 0
HasClaim none = Unit {0}
HasClaim (some pending) = HasMoney pending.transaction

module _ (rt : Runtime) where
  pure-Reads : {A : Type 0} (a : A) → Reads (pure a)
  unfolding Reads
  pure-Reads a w = refl

  find_by_id-Reads : (provider : Text) (id : Uuid) → Reads (find_by_id rt provider id)
  unfolding find_by_id
  find_by_id-Reads provider id = query-Reads rt _

  claim_row-Reads : (wallet : Uuid) (row : Option WagerRow) → Reads (claim_row rt wallet row)
  unfolding claim_row
  claim_row-Reads wallet none = pure-Reads none
  claim_row-Reads wallet (some row) =
      >>=-Reads (find_by_id rt row.columns.provider_id row.columns.id) _
        (find_by_id-Reads row.columns.provider_id row.columns.id)
        (λ t. >>=-Reads (query rt _) _ (query-Reads rt _) (λ metadata. pure-Reads _))

  claim_wallet-Reads : (wallet : Option Uuid) → Reads (claim_wallet rt wallet)
  unfolding claim_wallet
  claim_wallet-Reads none = pure-Reads none
  claim_wallet-Reads (some wallet) =
      >>=-Reads (query rt (due_operation wallet)) _ (query-Reads rt (due_operation wallet))
        (claim_row-Reads wallet)

  pub claim-Reads : Reads (claim_pending_reference rt)
  unfolding claim_pending_reference
  claim-Reads = >>=-Reads (query rt _) _ (query-Reads rt _) claim_wallet-Reads

  module _ (db : Db) (fit : FitColumns db.wagers) where
    find_by_id-Finds : (provider : Text) (id : Uuid) → Finds db (find_by_id rt provider id) HasMoney
    unfolding find_by_id
    find_by_id-Finds provider id =
        query-Finds db rt _ HasMoney
          (λ now t h. select_wager-HasMoney (has_id provider id) now db t fit h)

    claim_row-Finds :
        (wallet : Uuid) (row : Option WagerRow) → Finds db (claim_row rt wallet row) HasClaim
    unfolding claim_row HasClaim
    claim_row-Finds wallet none = pure-Finds db none HasClaim tt
    claim_row-Finds wallet (some row) =
        >>=-Finds db (find_by_id rt row.columns.provider_id row.columns.id) _ HasMoney HasClaim
          (find_by_id-Reads row.columns.provider_id row.columns.id)
          (find_by_id-Finds row.columns.provider_id row.columns.id)
          (λ t money.
            >>=-Finds db (query rt _) _ (λ metadata. Unit {0}) HasClaim (query-Reads rt _)
              (query-Finds db rt _ (λ metadata. Unit {0}) (λ now metadata h. tt))
              (λ metadata seen. pure-Finds db _ HasClaim money))

    claim_wallet-Finds : (wallet : Option Uuid) → Finds db (claim_wallet rt wallet) HasClaim
    unfolding claim_wallet HasClaim
    claim_wallet-Finds none = pure-Finds db none HasClaim tt
    claim_wallet-Finds (some wallet) =
        >>=-Finds db (query rt (due_operation wallet)) _ (λ row. Unit {0}) HasClaim
          (query-Reads rt (due_operation wallet))
          (query-Finds db rt _ (λ row. Unit {0}) (λ now row h. tt))
          (λ row seen. claim_row-Finds wallet row)

    pub claim-Finds : Finds db (claim_pending_reference rt) HasClaim
    unfolding claim_pending_reference
    claim-Finds =
        >>=-Finds db (query rt _) _ (λ wallet. Unit {0}) HasClaim (query-Reads rt _)
          (query-Finds db rt _ (λ wallet. Unit {0}) (λ now wallet h. tt))
          (λ wallet seen. claim_wallet-Finds wallet)
