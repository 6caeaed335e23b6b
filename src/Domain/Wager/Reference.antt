-- ===== src/Domain/Wager/Reference.antt =====
-- What `validateReference` (wager_transaction.go) accepts, described without its tests.
use backend_challenge.Base.{
  not-false, ℕ, ◌≡◌, ◌≢◌, ◌↔◌, refl, ◌⊎◌, inl, inr, Bool, true, false, not, ◌&&◌, ◌||◌, Option,
  none, some, arith, ◌==◌, ==_iff, ==_refl,
}
use backend_challenge.Text.{Text, str_eq_iff, str_eq_sound, str_eq_refl}
use backend_challenge.Errors
use backend_challenge.Errors.{
  Result, ok, fail_if, ◌>>◌, fail_if-eq-ok, fail_if-passed, invalid_wager_reference,
  reference_not_processed,
}
use backend_challenge.Domain.Money.{money_eq}
use backend_challenge.Domain.Wager.{
  WagerTransaction, WagerKind, bet, win, refund, rollback, processed, is_win, is_processed, is_bet,
  is_refund, needs_reference, may_refer, validate, validate_reference, names_reference,
  resolved_otherwise,
}

-- The kinds that an operation may refer to: a win or a refund to a bet, a rollback to a bet, a
-- win or a refund.
pub data MayRefer : WagerKind → WagerKind → Type 0 where
  win_bet : MayRefer win bet
  refund_bet : MayRefer refund bet
  rollback_bet : MayRefer rollback bet
  rollback_win : MayRefer rollback win
  rollback_refund : MayRefer rollback refund

-- The operation that a transaction refers to.
pub record IsReference (w reference : WagerTransaction) : Type 0 where
  pub needed : needs_reference w ≡ true
  pub valid : validate reference ≡ ok tt
  pub other : reference.id ≢ w.id
  pub same_provider : reference.provider_id ≡ w.provider_id
  pub named : w.reference_external_transaction_id ≡ some reference.external_transaction_id
  pub same_wallet : reference.wallet_id ≡ w.wallet_id
  pub same_player : reference.player_id ≡ w.player_id
  pub same_currency : reference.money.currency ≡ w.money.currency
  pub same_round : reference.round_id ≡ w.round_id
  pub not_resolved_otherwise :
      (w.reference_transaction_id ≡ none) ⊎ (w.reference_transaction_id ≡ some reference.id)
  pub successful : reference.status ≡ processed
  pub kinds : MayRefer w.kind reference.kind
  pub same_money : is_win w.kind ≡ false → money_eq reference.money w.money ≡ true

or_false : (a b : Bool) → (a || b) ≡ false → (a ≡ false) × (b ≡ false)
or_false a b h = (ground arith, ground arith)

failed_ok : (r : Result (Unit {0})) → Errors.failed r ≡ false → r ≡ ok tt
failed_ok r h = ground arith

named_of :
    (o : Option Text) (external : Text) → names_reference o external ≡ true → o ≡ some external
named_of none external h = cc
named_of (some r) external h = rw (str_eq_sound external r h)

resolved_of : (o : Option ℕ) (id : ℕ) → resolved_otherwise o id ≡ false → (o ≡ none) ⊎ (o ≡ some id)
resolved_of none id h = inl refl
resolved_of (some r) id h = inr (rw ((==_iff r id).0 (not-false _ h)))

processed_of :
    (s : backend_challenge.Domain.Wager.WagerStatus) → is_processed s ≡ true → s ≡ processed
processed_of s h = ground arith

kinds_of :
    (w : WagerTransaction) (kind : WagerKind)
    → needs_reference w ≡ true
    → may_refer w.kind kind ≡ true
    → MayRefer w.kind kind
unfolding needs_reference may_refer
kinds_of w kind n m =
    grind (arith, win_bet, refund_bet, rollback_bet, rollback_win, rollback_refund)

win_or_same : (a b : Bool) → (not a && not b) ≡ false → a ≡ false → b ≡ true
win_or_same a b h k = ground arith

pub validate_reference→IsReference :
    (w reference : WagerTransaction)
    → validate_reference w reference ≡ ok tt
    → IsReference w reference
unfolding validate_reference
validate_reference→IsReference w reference h =
    let (needed, h1) = fail_if-eq-ok _ invalid_wager_reference _ h in
    let (sound, h2) = fail_if-eq-ok _ invalid_wager_reference _ h1 in
    let (names, h3) = fail_if-eq-ok _ invalid_wager_reference _ h2 in
    let (owners, h4) = fail_if-eq-ok _ invalid_wager_reference _ h3 in
    let (places, h5) = fail_if-eq-ok _ invalid_wager_reference _ h4 in
    let (free, h6) = fail_if-eq-ok _ invalid_wager_reference _ h5 in
    let (done, h7) = fail_if-eq-ok _ reference_not_processed _ h6 in
    let (kind, h8) = fail_if-eq-ok _ invalid_wager_reference _ h7 in
    let money = fail_if-passed _ invalid_wager_reference h8 in
    let needs = not-false _ needed in
    let (valid, other) = or_false _ _ sound in
    let (provider, external) = or_false _ _ names in
    let (wallet, player) = or_false _ _ owners in
    let (currency, round) = or_false _ _ places in
    record {
      needed = needs;
      valid = failed_ok _ valid;
      other = ground (arith, other);
      same_provider = str_eq_sound _ _ (not-false _ provider);
      named = named_of _ _ (not-false _ external);
      same_wallet = (==_iff _ _).0 (not-false _ wallet);
      same_player = (==_iff _ _).0 (not-false _ player);
      same_currency = str_eq_sound _ _ (not-false _ currency);
      same_round = str_eq_sound _ _ (not-false _ round);
      not_resolved_otherwise = resolved_of _ _ free;
      successful = processed_of _ (not-false _ done);
      kinds = kinds_of w reference.kind needs (not-false _ kind);
      same_money = win_or_same _ _ money;
    }

pub eq_false : (a b : ℕ) → a ≢ b → (a == b) ≡ false
eq_false a b h = ground arith

names_true :
    (o : Option Text) (external : Text) → o ≡ some external → names_reference o external ≡ true
names_true o external h = rw h (str_eq_refl external)

resolved_false :
    (o : Option ℕ) (id : ℕ) → (o ≡ none) ⊎ (o ≡ some id) → resolved_otherwise o id ≡ false
resolved_false o id (inl h) = rw h
resolved_false o id (inr h) = rw (h, ==_refl id)

processed_true :
    (s : backend_challenge.Domain.Wager.WagerStatus) → s ≡ processed → is_processed s ≡ true
processed_true s h = rw h

kinds_true : {a b : WagerKind} → MayRefer a b → may_refer a b ≡ true
unfolding may_refer
kinds_true win_bet = refl
kinds_true refund_bet = refl
kinds_true rollback_bet = refl
kinds_true rollback_win = refl
kinds_true rollback_refund = refl

same_or_win : (a b : Bool) → (a ≡ false → b ≡ true) → (not a && not b) ≡ false
same_or_win true b h = refl
same_or_win false b h = rw (h refl)

pub IsReference→validate_reference :
    (w reference : WagerTransaction)
    → IsReference w reference
    → validate_reference w reference ≡ ok tt
unfolding validate_reference
IsReference→validate_reference w reference r = rw (
  r.needed,
  r.valid,
  eq_false _ _ r.other,
  (str_eq_iff _ _).1 r.same_provider,
  names_true _ _ r.named,
  (==_iff _ _).1 r.same_wallet,
  (==_iff _ _).1 r.same_player,
  (str_eq_iff _ _).1 r.same_currency,
  (str_eq_iff _ _).1 r.same_round,
  resolved_false _ _ r.not_resolved_otherwise,
  processed_true _ r.successful,
  kinds_true r.kinds,
  same_or_win _ _ r.same_money,
)

-- A reference is accepted just where it names another valid, processed transaction of the same
-- provider, wallet, player, currency and round, of a kind that may be referred to, and of the
-- same money unless the operation is a win.
pub validate_reference_iff :
    (w reference : WagerTransaction)
    → (validate_reference w reference ≡ ok tt) ↔ IsReference w reference
validate_reference_iff w reference =
    (validate_reference→IsReference w reference, IsReference→validate_reference w reference)
