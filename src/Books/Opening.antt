-- ===== src/Books/Opening.antt =====
-- `OpenWallet.Execute` opens a wallet whose balance its opening entry accounts for (open_wallet.go).
use backend_challenge.Base.{
  none_not_some, some_inj, ◌≤◌, ◌≡◌, refl, sym, ◌∙◌, subst, Bool, true, false, ◌==◌, none, some,
  List, [], ◌∷◌, arith, IsInt64, pos, inl, inr, Bool-cases, not-false,
}
use backend_challenge.Text.{Text}
use backend_challenge.Errors.{
  err_not_ok, err, Result, ok, ok_inj, fail_if-eq-ok, invalid_wallet, invalid_money, failed,
}
use backend_challenge.Domain.Money
use backend_challenge.Domain.Money.{validate, Money, zero_money, money_from_minor_units}
use backend_challenge.Domain.Wallet.{Wallet, Time, Uuid, new_wallet, max_version}
use backend_challenge.Domain.Events.{IntegrationEvent}
use backend_challenge.Domain.Ledger.{credit}
use backend_challenge.Domain.Ledger.Entry.{new_wallet_ledger_entry_change}
use backend_challenge.Postgres.{
  lift, fresh_id, create_event, ◌>>◌, Runtime, World, Db, first, wallet_clash, insert_wallet,
  create_wallet, conflicting, is_unique_violation, statement, ◌>>=◌,
}
use backend_challenge.Application.{
  OpenWalletInput, open_with, store_opening, open_wallet, context_error,
}
use backend_challenge.Books.Logic.{
  Books, books, Ensures, Keeps, >>=-Ensures, >>=-Keeps, Frames-Keeps, Frames->>=, Frames-Ensures,
  lift-Frames, pure-Frames, clock-Frames, fresh_id-Frames, lift->>=-Keeps, lift->>=, Ensures-weaken,
}
use backend_challenge.Books.Statements.{query-Frames, statement-Ensures, within_transaction-Keeps}
use backend_challenge.Books.Frames.{create_wager-Frames, create_event-Frames}
use backend_challenge.Books.Balance.{IsBalanced, has_wallet_id, same_id}
use backend_challenge.Books.Halfway.{id_same, id_other, IsHalfway, unchanged-IsBalanced}
use backend_challenge.Books.Movement.{create_entry-Ensures}
use backend_challenge.Books.Process.{Balances}
use backend_challenge.Books.Execute.{correlation-Frames}

-- A new wallet: of a valid balance, and version 1.
pub record IsNew (wallet : Wallet) : Type 0 where
  pub valid : Money.IsValid wallet.balance
  pub first_version : wallet.version ≡ 1

accepted_if_validated :
    (m : Money) → failed (Money.validate m) ≡ false → Money.valid_currency m.currency ≡ true
unfolding Money.validate
accepted_if_validated m h = ground arith

new_wallet-IsNew :
    (now : Time) (id player_id : Uuid) (balance : Money) (wallet : Wallet)
    → IsInt64 balance.amount
    → new_wallet now id player_id balance ≡ ok wallet
    → IsNew wallet
unfolding new_wallet
new_wallet-IsNew now id player_id balance wallet range h =
    let (owned, h1) = fail_if-eq-ok _ invalid_wallet _ h in
    let (known, h2) = fail_if-eq-ok _ invalid_wallet _ h1 in
    let (funded, done) = fail_if-eq-ok _ invalid_wallet _ h2 in
    subst IsNew (ok_inj done) (record {
      valid = record { accepted = accepted_if_validated balance known; in_range = range };
      first_version = refl;
    })

-- The wallet before its opening entry.
abbrev empty : Wallet → Wallet
empty wallet = record wallet {
  balance = record { amount = pos 0; currency = wallet.balance.currency };
}

clash_id :
    (wallet row : Wallet) → has_wallet_id wallet.id row ≡ true → wallet_clash wallet row ≡ true
unfolding wallet_clash
clash_id wallet row h = rw h refl

first-here :
    {A : Type 0} (p : A → Bool) (x : A) (xs : List A) → p x ≡ true → first p (x ∷ xs) ≡ some x
unfolding first
first-here p x xs h = rw h refl

first-later :
    {A : Type 0} (p : A → Bool) (x : A) (xs : List A) → p x ≡ false → first p (x ∷ xs) ≡ first p xs
unfolding first
first-later p x xs h = rw h refl

first-none :
    {A : Type 0} (p q : A → Bool) (xs : List A)
    → ((x : A) → p x ≡ true → q x ≡ true)
    → first q xs ≡ none
    → first p xs ≡ none
unfolding first
first-none p q [] within h = refl
first-none p q (x ∷ xs) within h = elim (Bool-cases (q x)) [
  | inl hit ↦ absurd (none_not_some h (first-here q x xs hit))
  | inr missed ↦ elim (Bool-cases (p x)) [
    | inl found ↦ absurd (ground (arith, within x found, missed))
    | inr passed ↦ rw passed (first-none p q xs within (rw missed at h))
  ]
]

insert_wallet_inv :
    (wallet : Wallet) (now : Time) (db : Db) (u : Unit {0}) (after : Db)
    → insert_wallet wallet now db ≡ ok (u, after)
    → (first (wallet_clash wallet) db.wallets ≡ none)
      × (books after ≡ record (books db) { wallets = wallet ∷ db.wallets })
unfolding insert_wallet
insert_wallet_inv wallet now db u after h = (ground arith, ground arith)

pub insert_wallet-IsHalfway :
    (wallet : Wallet) (b : Books)
    → IsNew wallet
    → IsBalanced b
    → first (wallet_clash wallet) b.wallets ≡ none
    → IsHalfway (empty wallet) wallet (record b { wallets = wallet ∷ b.wallets })
insert_wallet-IsHalfway wallet b new h free =
    let absent =
      first-none (has_wallet_id wallet.id) (wallet_clash wallet) b.wallets (clash_id wallet) free in
    let here =
      first-here (has_wallet_id wallet.id) wallet b.wallets (id_same wallet.id wallet.id refl) in
    record {
      others = λ id row ne found. h.backed id row (
          sym (
            first-later (has_wallet_id id) wallet b.wallets
              (id_other wallet.id id (λ e. ne (sym e))))
          ∙ found);
      unowned = λ id missing. elim (Bool-cases (wallet.id == id)) [
        | inl same ↦ h.unowned id (
            subst (λ i. first (has_wallet_id i) b.wallets ≡ none) (same_id wallet.id id same)
              absent)
        | inr ne ↦ h.unowned id (sym (first-later (has_wallet_id id) wallet b.wallets ne) ∙ missing)
      ];
      kept = λ missing. none_not_some missing here;
      sum_before = sym (h.unowned wallet.id absent);
      stored = λ row found.
          subst
            (λ (r : Wallet).
              IsInt64 r.balance.amount
              × (r.version ≤ max_version)
              × (r.balance.amount ≡ wallet.balance.amount))
            (some_inj (sym here ∙ found))
            (new.valid.in_range, rw new.first_version (omega arith), refl);
    }

conflicting-ok : (r : Result (Unit {0})) (u : Unit {0}) → conflicting r ≡ ok u → r ≡ ok u
unfolding conflicting
conflicting-ok (ok x) u h = h
conflicting-ok (err e) u h = elim (Bool-cases (is_unique_violation e)) [
  | inl clash ↦ absurd (err_not_ok (rw clash at h))
  | inr failed ↦ absurd (err_not_ok (rw failed at h))
]

inserted_wallet-Ensures :
    (rt : Runtime) (wallet : Wallet)
    → IsNew wallet
    → Ensures IsBalanced
        (statement rt (insert_wallet wallet))
        (λ u. IsHalfway (empty wallet) wallet)
inserted_wallet-Ensures rt wallet new =
    statement-Ensures rt IsBalanced _ (λ u. IsHalfway (empty wallet) wallet)
      (λ now db u after h done.
        let (free, stored) = insert_wallet_inv wallet now db u after done in
        rw stored (insert_wallet-IsHalfway wallet (books db) new h free))

create_wallet-Ensures :
    (rt : Runtime) (wallet : Wallet)
    → IsNew wallet
    → Ensures IsBalanced (create_wallet rt wallet) (λ u. IsHalfway (empty wallet) wallet)
unfolding create_wallet Ensures
create_wallet-Ensures rt wallet new w u h done =
    inserted_wallet-Ensures rt wallet new w u h
      (conflicting-ok (statement rt (insert_wallet wallet) w).0 u done)

zero_amount :
    (currency : Text) (m : Money)
    → zero_money currency ≡ ok m
    → (m.amount ≡ pos 0) × Money.IsValid m
unfolding zero_money money_from_minor_units
zero_amount currency m h =
    let (known, done) = fail_if-eq-ok _ invalid_money _ h in
    subst (λ (z : Money). (z.amount ≡ pos 0) × Money.IsValid z) (ok_inj done)
      (refl, record { accepted = not-false _ known; in_range = (omega arith, omega arith) })

is_zero_amount : (m : Money) → Money.is_zero m ≡ true → m.amount ≡ pos 0
unfolding Money.is_zero
is_zero_amount m h = ground arith

-- The two events.
module _ (rt : Runtime) where
  announced :
      (make_first make_second : Uuid → Result IntegrationEvent)
      → Ensures IsBalanced
          (do
            first_id ← fresh_id rt
            first_event ← lift (make_first first_id)
            second_id ← fresh_id rt
            second_event ← lift (make_second second_id)
            create_event rt first_event
            create_event rt second_event)
          Balances
  announced make_first make_second =
      let B = IsBalanced in
      Frames->>= B Balances _ _ (fresh_id-Frames rt) (λ first_id.
        Frames->>= B Balances _ _ (lift-Frames _) (λ first_event.
          Frames->>= B Balances _ _ (fresh_id-Frames rt) (λ second_id.
            Frames->>= B Balances _ _ (lift-Frames _) (λ second_event.
              Frames->>= B Balances _ _ (create_event-Frames rt first_event)
                (λ sent. Frames-Ensures B _ (create_event-Frames rt second_event))))))

module _ (rt : Runtime) (wallet : Wallet) (new : IsNew wallet) where
  open_with-Ensures :
      (correlation_id : Text)
      → Ensures (IsHalfway (empty wallet) wallet) (open_with rt correlation_id wallet) Balances
  unfolding open_with
  open_with-Ensures correlation_id =
      let H = IsHalfway (empty wallet) wallet in
      Frames->>= H Balances _ _ (clock-Frames rt) (λ settled_at.
        Frames->>= H Balances _ _ (lift-Frames _) (λ opening.
          Frames->>= H Balances _ _ (create_wager-Frames rt opening) (λ stored.
            lift->>= H Balances _ _ (λ before zero.
              let (nothing, hb) = zero_amount wallet.balance.currency before zero in
              Frames->>= H Balances _ _ (clock-Frames rt) (λ now.
                Frames->>= H Balances _ _ (fresh_id-Frames rt) (λ entry_id.
                  lift->>= H Balances _ _ (λ entry done.
                    let (owner, change) =
                      new_wallet_ledger_entry_change now entry_id wallet.id opening.id credit
                        wallet.balance before wallet.balance entry new.valid.in_range hb new.valid
                        done in
                    >>=-Ensures _ _ H (λ u. IsBalanced) Balances
                      (create_entry-Ensures rt (empty wallet) wallet entry owner
                        (rw nothing at change))
                      (λ u. announced rt _ _))))))))

  store_opening-Ensures :
      (correlation_id : Text) → Ensures IsBalanced (store_opening rt correlation_id wallet) Balances
  unfolding store_opening
  store_opening-Ensures correlation_id =
      >>=-Ensures _ _ IsBalanced (λ u. IsHalfway (empty wallet) wallet) Balances
        (create_wallet-Ensures rt wallet new)
        (λ u. elim (Bool-cases (Money.is_zero wallet.balance)) [
          | inl none_paid ↦ rw none_paid (
              Ensures-weaken (IsHalfway (empty wallet) wallet) _
                (λ a. IsHalfway (empty wallet) wallet) Balances
                (Frames-Ensures (IsHalfway (empty wallet) wallet) _ (pure-Frames tt))
                (λ a b h.
                  unchanged-IsBalanced (empty wallet) wallet b h
                    (is_zero_amount wallet.balance none_paid)))
          | inr paid ↦ rw paid (open_with-Ensures correlation_id)
        ])

module _ (rt : Runtime) where
  open_wallet-Keeps :
      (input : OpenWalletInput)
      → IsInt64 input.initial_balance.amount
      → Keeps IsBalanced (open_wallet rt input)
  unfolding open_wallet context_error
  open_wallet-Keeps input range =
      let P = IsBalanced in
      >>=-Keeps _ _ P (Frames-Keeps P _ (query-Frames rt _)) (λ live.
        >>=-Keeps _ _ P (Frames-Keeps P _ (clock-Frames rt)) (λ now.
          >>=-Keeps _ _ P (Frames-Keeps P _ (fresh_id-Frames rt)) (λ id.
            lift->>=-Keeps P _ _ (λ wallet built.
              >>=-Keeps _ _ P (Frames-Keeps P _ (correlation-Frames rt input.correlation_id))
                (λ correlation_id.
                  >>=-Keeps _ _ P
                    (within_transaction-Keeps rt P _ (
                      store_opening-Ensures rt wallet
                        (new_wallet-IsNew now id input.player_id input.initial_balance wallet range
                          built)
                        correlation_id))
                    (λ stored. Frames-Keeps P _ (pure-Frames wallet)))))))

  -- The opening of a wallet, of an initial balance of the machine's type, keeps the books balanced
  -- whatever fails: a new wallet's balance is accounted for by its opening entry, or is zero.
  pub open_wallet-IsBalanced :
      (input : OpenWalletInput) (w : World)
      → IsInt64 input.initial_balance.amount
      → IsBalanced (books w.db)
      → IsBalanced (books (open_wallet rt input w).1.db)
  unfolding Keeps
  open_wallet-IsBalanced input w range h = open_wallet-Keeps input range w h
