-- ===== src/Domain/Wallet.antt =====
-- Wallets (internal/domain/wallet.go).
pub mod Movement
pub mod Invariant
use backend_challenge.Base.{
  ℕ, suc, ◌+◌, ◌≤◌, ◌<◌, ◌≡◌, ◌≢◌, Bool, true, false, not, ◌&&◌, ◌||◌, ltb, ◌==◌, pos, ltb_ℤ, ◌≤ℤ◌,
}
use backend_challenge.Text.{str_eq}
use backend_challenge.Errors.{
  Result, ok, fail, fail_if, failed, ◌>>=◌, ◌>>◌, invalid_money, invalid_wallet,
  insufficient_balance, wallet_currency,
}
use backend_challenge.Domain.Money
use backend_challenge.Domain.Money.{Money}

-- A `uuid.UUID` as a number, `uuid.Nil` being 0, and a `time.Time` as a number of ticks since the
-- zero time.
abbrev pub Uuid : Type 0
Uuid = ℕ

abbrev pub Time : Type 0
Time = ℕ

-- `id == uuid.Nil`, `t.IsZero()` and `a.Before(b)`
abbrev pub is_nil : Uuid → Bool
is_nil id = id == 0

abbrev pub is_zero_time : Time → Bool
is_zero_time t = t == 0

abbrev pub before : Time → Time → Bool
before a b = ltb a b

-- `math.MaxInt64`; a version is an `int64` that is never negative.
abbrev pub max_version : ℕ
max_version = 9223372036854775807

pub record Wallet : Type 0 where
  pub id : Uuid
  pub player_id : Uuid
  pub balance : Money
  pub version : ℕ
  pub created_at : Time
  pub updated_at : Time

-- `NewWallet`, with the values of `time.Now` and `uuid.New`
unfoldable pub new_wallet : Time → Uuid → Uuid → Money → Result Wallet
new_wallet now id player_id initial_balance = do
  fail_if (is_nil player_id) invalid_wallet
  fail_if (failed (Money.validate initial_balance)) invalid_wallet
  fail_if (ltb_ℤ initial_balance.amount (pos 0)) invalid_wallet
  ok (record {
    id = id;
    player_id = player_id;
    balance = initial_balance;
    version = 1;
    created_at = now;
    updated_at = now;
  })

unfoldable pub validate_movement : Wallet → Money → Result (Unit {0})
validate_movement w money = do
  fail_if (is_nil w.id || is_nil w.player_id) invalid_wallet
  fail_if (failed (Money.validate w.balance) || ltb_ℤ w.balance.amount (pos 0)) invalid_wallet
  fail_if (ltb w.version 1 || w.version == max_version) invalid_wallet
  fail_if (not (Money.is_positive money)) invalid_money

unfoldable pub credit : Time → Wallet → Money → Result Wallet
credit now w money = do
  validate_movement w money
  fail_if (not (str_eq money.currency w.balance.currency)) wallet_currency
  new_balance ← Money.add w.balance money
  ok (record w { balance = new_balance; version = w.version + 1; updated_at = now })

unfoldable pub debit : Time → Wallet → Money → Result Wallet
debit now w money = do
  validate_movement w money
  fail_if (not (str_eq money.currency w.balance.currency)) wallet_currency
  insufficient ← Money.less_than w.balance money
  fail_if insufficient insufficient_balance
  new_balance ← Money.sub w.balance money
  ok (record w { balance = new_balance; version = w.version + 1; updated_at = now })

unfoldable pub rehydrate_wallet : Uuid → Uuid → Money → ℕ → Time → Time → Result Wallet
rehydrate_wallet id player_id balance version created_at updated_at = do
  fail_if (is_nil id || is_nil player_id) invalid_wallet
  fail_if (ltb version 1) invalid_wallet
  fail_if (failed (Money.validate balance)) invalid_wallet
  fail_if (ltb_ℤ balance.amount (pos 0)) invalid_wallet
  fail_if (is_zero_time created_at || before updated_at created_at) invalid_wallet
  ok (record {
    id = id;
    player_id = player_id;
    balance = balance;
    version = version;
    created_at = created_at;
    updated_at = updated_at;
  })

-- What holds of every wallet between two operations.
pub record IsValid (w : Wallet) : Type 0 where
  pub identified : w.id ≢ 0
  pub owned : w.player_id ≢ 0
  pub balance_valid : Money.IsValid w.balance
  pub nonneg : pos 0 ≤ℤ w.balance.amount
  pub versioned : (1 ≤ w.version) × (w.version ≤ max_version)
  pub created : w.created_at ≢ 0
  pub ordered : w.created_at ≤ w.updated_at
