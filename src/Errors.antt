-- ===== src/Errors.antt =====
-- The error values of the program, `errors.Is`, and fallible results.
-- Sentinels: internal/domain, internal/application, internal/application/ports and
-- internal/infrastructure/auth.
use backend_challenge.Base.{
  ℕ, ◌≡◌, refl, Bool, true, false, ◌||◌, ◌==◌, ◌⊎◌, inl, inr, Option, none, some,
}
use backend_challenge.Text.{Text}

-- The values that the program declares by `errors.New` and compares by `errors.Is`.
pub data Sentinel : Type 0 where
  invalid_money currency_mismatch money_overflow : Sentinel
  invalid_wallet insufficient_balance wallet_currency : Sentinel
  invalid_ledger_direction invalid_ledger_entry invalid_ledger_balance : Sentinel
  invalid_wager_kind invalid_wager_status invalid_wager_transaction : Sentinel
  invalid_wager_money reference_required terminal_transaction : Sentinel
  external_opening invalid_wager_reference reference_not_processed invalid_event : Sentinel
  provider_not_authorized idempotency_conflict wallet_identity_mismatch : Sentinel
  invalid_message invalid_retry_policy invalid_outbox_policy invalid_ledger_page : Sentinel
  wager_not_found wager_conflict wager_not_pending : Sentinel
  inbox_conflict inbox_incomplete outbox_conflict outbox_lease_lost : Sentinel
  wallet_not_found wallet_conflict wallet_concurrent_update : Sentinel
  transaction_required invalid_financial_state : Sentinel
  unauthenticated identity_provider_unavailable : Sentinel
  -- of the standard library
  deadline_exceeded canceled eof : Sentinel

-- The identity of a sentinel: its place in the list.
abbrev pub rank : Sentinel → ℕ
rank invalid_money = 0
rank currency_mismatch = 1
rank money_overflow = 2
rank invalid_wallet = 3
rank insufficient_balance = 4
rank wallet_currency = 5
rank invalid_ledger_direction = 6
rank invalid_ledger_entry = 7
rank invalid_ledger_balance = 8
rank invalid_wager_kind = 9
rank invalid_wager_status = 10
rank invalid_wager_transaction = 11
rank invalid_wager_money = 12
rank reference_required = 13
rank terminal_transaction = 14
rank external_opening = 15
rank invalid_wager_reference = 16
rank reference_not_processed = 17
rank invalid_event = 18
rank provider_not_authorized = 19
rank idempotency_conflict = 20
rank wallet_identity_mismatch = 21
rank invalid_message = 22
rank invalid_retry_policy = 23
rank invalid_outbox_policy = 24
rank invalid_ledger_page = 25
rank wager_not_found = 26
rank wager_conflict = 27
rank wager_not_pending = 28
rank inbox_conflict = 29
rank inbox_incomplete = 30
rank outbox_conflict = 31
rank outbox_lease_lost = 32
rank wallet_not_found = 33
rank wallet_conflict = 34
rank wallet_concurrent_update = 35
rank transaction_required = 36
rank invalid_financial_state = 37
rank deadline_exceeded = 38
rank canceled = 39
rank eof = 40
rank unauthenticated = 41
rank identity_provider_unavailable = 42

-- An error value, without the texts that `fmt.Errorf` adds: a wrapped error (`%w`) is the error
-- that it wraps, and `joined` is `errors.Join` or a format with two `%w`.
pub data Error : Type 0 where
  sentinel : Sentinel → Error
  -- a `pgconn.PgError`, by its SQLSTATE, a `net.Error`, and any other
  database : Text → Error
  network : Error
  other : Error
  joined : Error → Error → Error

-- `errors.Is`
unfoldable pub is_error : Error → Sentinel → Bool
is_error (sentinel s) t = rank s == rank t
is_error (database code) t = false
is_error network t = false
is_error other t = false
is_error (joined a b) t = is_error a t || is_error b t

-- The code of the first `pgconn.PgError` that `errors.As` finds.
abbrev or_else : Option Text → Option Text → Option Text
or_else (some code) later = some code
or_else none later = later

unfoldable pub database_code : Error → Option Text
database_code (database code) = some code
database_code (joined a b) = or_else (database_code a) (database_code b)
database_code e = none

-- The values of a function that returns `(A, error)`, or `error` alone with `A` the unit type.
pub data Result {ℓ} (A : Type ℓ) : Type ℓ where
  ok : A → Result A
  err : Error → Result A

abbrev pub fail {ℓ} : {A : Type ℓ} → Sentinel → Result A
fail s = err (sentinel s)

-- The early return: the next step runs on the value of a step that has not failed.
infixl 5 ◌>>=◌ ◌>>◌
abbrev pub ◌>>=◌ {k l} :
    {Value : Type k} {Next : Type l} → Result Value → (Value → Result Next) → Result Next
err e >>= step = err e
ok value >>= step = step value

abbrev pub ◌>>◌ {l} : {Next : Type l} → Result (Unit {0}) → Result Next → Result Next
check >> rest = check >>= λ done. rest

-- `if cond { return err }`
abbrev pub fail_if : Bool → Sentinel → Result (Unit {0})
fail_if true s = fail s
fail_if false s = ok tt

-- `err != nil`
abbrev pub failed {ℓ} : {A : Type ℓ} → Result A → Bool
failed (ok a) = false
failed (err e) = true

pub Result-cases {ℓ} :
    {A : Type ℓ} (r : Result A) → ((a : A) × (r ≡ ok a)) ⊎ ((e : Error) × (r ≡ err e))
Result-cases (ok a) = inl (a, refl)
Result-cases (err e) = inr (e, refl)

-- What a successful step of a chain has done.
pub >>=-eq-ok {k l} :
    {Value : Type k} {Next : Type l} (first : Result Value) (step : Value → Result Next)
    {last : Next}
    → (first >>= step) ≡ ok last
    → (value : Value) × (first ≡ ok value) × (step value ≡ ok last)
>>=-eq-ok (err e) step h = absurd cc
>>=-eq-ok (ok value) step h = (value, refl, h)

pub then-eq-ok :
    {B : Type 0} (m : Result (Unit {0})) (rest : Result B) {b : B}
    → (m >> rest) ≡ ok b
    → (m ≡ ok tt) × (rest ≡ ok b)
then-eq-ok m rest h = let (u, first, second) = >>=-eq-ok m (λ _. rest) h in (first, second)

pub ok_inj {ℓ} : {A : Type ℓ} {a b : A} → ok a ≡ ok b → a ≡ b
ok_inj h = cc

pub err_inj {ℓ} : {A : Type ℓ} {a b : Error} → ◌≡◌ {A = Result A} (err a) (err b) → a ≡ b
err_inj h = cc

pub err_not_ok {ℓ} : {A : Type ℓ} {e : Error} {a : A} → ¬ (err e ≡ ok a)
err_not_ok h = cc

-- What a guard that was passed has tested, and what the steps behind it have done.
pub fail_if-eq-ok {ℓ} :
    {B : Type ℓ} (test : Bool) (s : Sentinel) (rest : Result B) {b : B}
    → (fail_if test s >> rest) ≡ ok b
    → (test ≡ false) × (rest ≡ ok b)
fail_if-eq-ok true s rest h = cc
fail_if-eq-ok false s rest h = (refl, h)

pub fail_if-passed : (test : Bool) (s : Sentinel) → fail_if test s ≡ ok tt → test ≡ false
fail_if-passed true s h = cc
fail_if-passed false s h = refl
