-- ===== src/Domain/Wager/Validity.antt =====
-- What `validate` (wager_transaction_state.go) checks, part by part.
use backend_challenge.Base.{◌≡◌, false, not, ◌||◌}
use backend_challenge.Errors.{
  then-eq-ok, ok, fail_if-eq-ok, invalid_wager_transaction, invalid_wager_kind,
}
use backend_challenge.Domain.Wallet.{is_nil, is_zero_time, before}
use backend_challenge.Domain.Wager.{
  WagerTransaction, known_kind, is_opening, validate, validate_wager_money, validate_origin,
  validate_resolved, validate_result_balance, validate_status,
}

-- A transaction that `validate` accepts.
pub record IsValid (w : WagerTransaction) : Type 0 where
  pub identified : (is_nil w.id || is_nil w.wallet_id || is_nil w.player_id) ≡ false
  pub known : not (known_kind w.kind) ≡ false
  pub dated : (is_zero_time w.created_at || before w.updated_at w.created_at) ≡ false
  pub funded : validate_wager_money w.kind w.money w.reference_external_transaction_id ≡ ok tt
  pub origin : validate_origin w (is_opening w.kind) ≡ ok tt
  pub resolved : validate_resolved w w.reference_transaction_id ≡ ok tt
  pub balanced : validate_result_balance w w.result_balance ≡ ok tt
  pub consistent : validate_status w w.status ≡ ok tt

pub validate→IsValid : (w : WagerTransaction) → validate w ≡ ok tt → IsValid w
unfolding validate
validate→IsValid w h =
    let (identified, h1) = fail_if-eq-ok _ invalid_wager_transaction _ h in
    let (known, h2) = fail_if-eq-ok _ invalid_wager_kind _ h1 in
    let (dated, h3) = fail_if-eq-ok _ invalid_wager_transaction _ h2 in
    let (funded, h4) = then-eq-ok _ _ h3 in
    let (origin, h5) = then-eq-ok _ _ h4 in
    let (resolved, h6) = then-eq-ok _ _ h5 in
    let (balanced, consistent) = then-eq-ok _ _ h6 in
    record {
      identified = identified;
      known = known;
      dated = dated;
      funded = funded;
      origin = origin;
      resolved = resolved;
      balanced = balanced;
      consistent = consistent;
    }

pub IsValid→validate : (w : WagerTransaction) → IsValid w → validate w ≡ ok tt
unfolding validate
IsValid→validate w v =
    rw (v.identified, v.known, v.dated, v.funded, v.origin, v.resolved, v.balanced, v.consistent)
