-- ===== src/Books/Reconcile.antt =====
-- What the reconciliation of a stored wallet finds (internal/application/reconcile_wallet.go and
-- internal/infrastructure/postgres/wallet_queries.go).
use backend_challenge.Base.{
  eq_of_parts, -ℤ_parts, not, neg, ◌≡◌, ◌↔◌, ◌⊎◌, ◌∙◌, refl, Bool, true, false, ◌&&◌, ◌||◌, ◌==◌,
  some, none, List, [], ◌∷◌, ℤ, pos, ◌-ℤ◌, ◌+ℤ◌, ltb_ℤ, min_int64, max_int64, IsInt64, inl, inr,
  arith, int_laws, Bool-cases, if◌then◌else◌,
}
use backend_challenge.Errors.{
  ◌>>=◌, money_overflow, joined, sentinel, ok, err, Result, Error, is_error,
  invalid_financial_state,
}
use backend_challenge.Domain.Money
use backend_challenge.Domain.Money.{Money, money_from_minor_units}
use backend_challenge.Domain.Money.Arithmetic.{sub-IsExact}
use backend_challenge.Domain.Wallet.{Uuid, Wallet, is_nil}
use backend_challenge.Domain.Ledger.{
  signed_amount, LedgerDirection, WalletLedgerEntry, credit, debit, unknown,
}
use backend_challenge.Text.{Text, str_eq_refl}
use backend_challenge.Postgres.{lift, called, next, World, Runtime, first, query}
use backend_challenge.Application.{
  entry_amount, ledger_sum, entry_count, read_sum, financial_state, snapshot_of,
  reconciliation_snapshot, reconciliation_result, reconcile_wallet, ReconciliationSnapshot,
  ReconciliationResult,
}
use backend_challenge.Books.Balance.{has_wallet_id}

abbrev is_credit : LedgerDirection → Bool
is_credit credit = true
is_credit debit = false
is_credit (unknown name) = false

-- The amounts of the wallet's credits, and those of its other entries.
unfoldable pub credited : Uuid → List WalletLedgerEntry → ℤ
credited id [] = pos 0
credited id (entry ∷ ledger) =
    let rest = credited id ledger in
    if entry.wallet_id == id && is_credit entry.direction then entry.money.amount +ℤ rest else rest

unfoldable pub debited : Uuid → List WalletLedgerEntry → ℤ
debited id [] = pos 0
debited id (entry ∷ ledger) =
    let rest = debited id ledger in
    if entry.wallet_id == id && not (is_credit entry.direction)
    then entry.money.amount +ℤ rest
    else rest

-- The balance that the ledger shows.
abbrev pub ledger_balance : Uuid → List WalletLedgerEntry → ℤ
ledger_balance id ledger = credited id ledger -ℤ debited id ledger

sum_credit : (a c d : ℤ) → a +ℤ (c -ℤ d) ≡ (a +ℤ c) -ℤ d
sum_credit a c d = omega int_laws

sum_debit : (a c d : ℤ) → neg a +ℤ (c -ℤ d) ≡ c -ℤ (a +ℤ d)
sum_debit a c d = omega int_laws

sum_zero : (a : ℤ) → pos 0 +ℤ a ≡ a
sum_zero a = omega int_laws

own_entry :
    (direction : LedgerDirection) (a c d : ℤ)
    → signed_amount direction a +ℤ (c -ℤ d)
      ≡ (if is_credit direction then a +ℤ c else c)
        -ℤ (if not (is_credit direction) then a +ℤ d else d)
own_entry credit a c d = sum_credit a c d
own_entry debit a c d = sum_debit a c d
own_entry (unknown name) a c d = sum_debit a c d

-- The sum of the query is the difference of the credits and the debits.
ledger_sum-eq :
    (id : Uuid) (ledger : List WalletLedgerEntry) → ledger_sum id ledger ≡ ledger_balance id ledger
unfolding ledger_sum entry_amount credited debited
ledger_sum-eq id [] = omega int_laws
ledger_sum-eq id (entry ∷ ledger) = elim (Bool-cases (entry.wallet_id == id)) [
  | inr foreign ↦ rw foreign (sum_zero (ledger_sum id ledger) ∙ ledger_sum-eq id ledger)
  | inl own ↦ rw own (
      rw (ledger_sum-eq id ledger)
        (own_entry entry.direction entry.money.amount (credited id ledger) (debited id ledger)))
]

-- What is reported of a wallet whose ledger shows the given balance.
pub record IsReconciled (row : Wallet) (total : ℤ) (result : ReconciliationResult) : Type 0 where
  pub owner : result.wallet_id ≡ row.id
  pub stored : result.stored_balance ≡ row.balance
  pub calculated :
      result.calculated_balance ≡ record { amount = total; currency = row.balance.currency }
  pub difference :
      result.difference
      ≡ record { amount = row.balance.amount -ℤ total; currency = row.balance.currency }
  pub consistent : (result.consistent ≡ true) ↔ (row.balance.amount ≡ total)

read_money :
    (amount : ℤ) (currency : Text)
    → Money.valid_currency currency ≡ true
    → money_from_minor_units amount currency ≡ ok (record { amount = amount; currency = currency })
unfolding money_from_minor_units
read_money amount currency h = rw h refl

abbrev found_snapshot : List WalletLedgerEntry → Wallet → ℤ → ReconciliationSnapshot
found_snapshot ledger row total = record {
  wallet_id = row.id;
  stored_balance = row.balance;
  calculated_balance = record { amount = total; currency = row.balance.currency };
  checked_entries = entry_count row.id ledger;
}

-- The snapshot of a wallet of an accepted currency.
snapshot_of-eq :
    (ledger : List WalletLedgerEntry) (row : Wallet)
    → Money.valid_currency row.balance.currency ≡ true
    → IsInt64 (ledger_balance row.id ledger)
    → snapshot_of ledger row ≡ ok (found_snapshot ledger row (ledger_balance row.id ledger))
unfolding snapshot_of financial_state read_sum
snapshot_of-eq ledger row known range =
    let small : (ltb_ℤ (ledger_balance row.id ledger) min_int64
          || ltb_ℤ max_int64 (ledger_balance row.id ledger))
        ≡ false =
      ground arith in
    rw (ledger_sum-eq row.id ledger, small)
      (rw
        (
          read_money row.balance.amount row.balance.currency known,
          read_money (ledger_balance row.id ledger) row.balance.currency known,
        )
        refl)

snapshot_of-err :
    (ledger : List WalletLedgerEntry) (row : Wallet)
    → (ltb_ℤ (ledger_balance row.id ledger) min_int64
        || ltb_ℤ max_int64 (ledger_balance row.id ledger))
      ≡ true
    → snapshot_of ledger row ≡ err (sentinel invalid_financial_state)
unfolding snapshot_of read_sum
snapshot_of-err ledger row large = rw (ledger_sum-eq row.id ledger, large) refl

is_zero_iff :
    (a b : ℤ) (currency : Text)
    → Money.valid_currency currency ≡ true
    → (Money.is_zero (record { amount = a -ℤ b; currency = currency }) ≡ true) ↔ (a ≡ b)
unfolding Money.is_zero Money.validate
is_zero_iff a b currency h = (
  λ e. eq_of_parts a b (ground (arith, -ℤ_parts a b, h, e)),
  λ e. ground (arith, -ℤ_parts a b, h, e),
)

-- The comparison of the stored and the calculated balance.
module _ (ledger : List WalletLedgerEntry) (row : Wallet) where
  abbrev total : ℤ
  total = ledger_balance row.id ledger

  -- Whether both the calculated balance and the difference are of the machine's type.
  abbrev pub IsComparable : Type 0
  IsComparable = IsInt64 total × IsInt64 (row.balance.amount -ℤ total)

  abbrev pub IsOutcome : Result ReconciliationResult → Type 0
  IsOutcome answer =
      (IsComparable
        × (result : ReconciliationResult) × (answer ≡ ok result)
        × IsReconciled row total result)
      ⊎ ((¬ IsComparable)
          × (e : Error) × (answer ≡ err e)
          × (is_error e invalid_financial_state ≡ true))

  compared :
      Money.IsValid row.balance
      → IsInt64 total
      → IsOutcome (reconciliation_result (found_snapshot ledger row total))
  unfolding reconciliation_result financial_state is_error
  compared valid range =
      let calculated : Money = record { amount = total; currency = row.balance.currency } in
      elim (sub-IsExact row.balance calculated valid
        (record { accepted = valid.accepted; in_range = range })
        (str_eq_refl row.balance.currency)) [
          | inl (difference, exact) ↦ inl (
            (range, difference),
            record {
              wallet_id = row.id;
              stored_balance = row.balance;
              calculated_balance = calculated;
              difference = record {
                amount = row.balance.amount -ℤ total;
                currency = row.balance.currency;
              };
              consistent = Money.is_zero (record {
                amount = row.balance.amount -ℤ total;
                currency = row.balance.currency;
              });
              checked_entries = entry_count row.id ledger;
            },
            rw (exact, reconciliation_result) refl,
            record {
              owner = refl;
              stored = refl;
              calculated = refl;
              difference = refl;
              consistent = is_zero_iff row.balance.amount total row.balance.currency valid.accepted;
            },
          )
          | inr (large, over) ↦ inr (
            λ comparable. large comparable.1,
            joined (sentinel invalid_financial_state) (sentinel money_overflow),
            rw (over, reconciliation_result) refl,
            refl,
          )
        ]

  snapshot-IsOutcome :
      Money.IsValid row.balance → IsOutcome (snapshot_of ledger row >>= reconciliation_result)
  unfolding is_error
  snapshot-IsOutcome valid = elim (Bool-cases (ltb_ℤ total min_int64 || ltb_ℤ max_int64 total)) [
    | inl large ↦ inr (
      λ comparable. ground (arith, comparable.0, large),
      sentinel invalid_financial_state,
      rw (snapshot_of-err ledger row large) refl,
      refl,
    )
    | inr small ↦
        let range : IsInt64 total = ground arith in
        rw (snapshot_of-eq ledger row valid.accepted range) (compared valid range)
  ]

next-lift :
    {A B : Type 0} (r : Result A) (f : A → Result B) (w : World)
    → next (r, w) (λ a. lift (f a)) ≡ (r >>= f, w)
next-lift (ok a) f w = refl
next-lift (err e) f w = refl

snapshot_query :
    (rt : Runtime) (id : Uuid) (w : World) (row : Wallet)
    → rt.fault w.calls ≡ none
    → first (has_wallet_id id) w.db.wallets ≡ some row
    → query rt (reconciliation_snapshot id) w ≡ (snapshot_of w.db.ledger row, called w)
unfolding query reconciliation_snapshot
snapshot_query rt id w row passed found = rw (passed, query, found, reconciliation_snapshot) refl

-- The reconciliation of a stored wallet with a valid balance, where the query does not fail, changes
-- no table. Where the difference of the wallet's credits and debits in the ledger, and that of the
-- stored balance to it, are of the machine's type, it reports both balances and their exact
-- difference, and the wallet as consistent just where its balance is that of the ledger. Otherwise
-- it ends with the error of an invalid financial state.
pub reconcile_wallet-IsOutcome :
    (rt : Runtime) (id : Uuid) (w : World) (row : Wallet)
    → is_nil id ≡ false
    → rt.fault w.calls ≡ none
    → first (has_wallet_id id) w.db.wallets ≡ some row
    → Money.IsValid row.balance
    → ((reconcile_wallet rt id w).1.db ≡ w.db)
      × IsOutcome w.db.ledger row (reconcile_wallet rt id w).0
unfolding reconcile_wallet
reconcile_wallet-IsOutcome rt id w row known passed found valid =
    rw
      (
        known,
        snapshot_query rt id w row passed found,
        next-lift (snapshot_of w.db.ledger row) reconciliation_result (called w),
      )
      (refl, snapshot-IsOutcome w.db.ledger row valid)
