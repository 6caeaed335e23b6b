-- ===== src/Domain/Wager/Edges.antt =====
-- The edges between the statuses of a wager transaction, and what stays the same along them
-- (wager_transaction.go).
use backend_challenge.Base.{◌≡◌, refl, true, false, arith}
use backend_challenge.Domain.Wallet.{Time}
use backend_challenge.Domain.Wager.{
  WagerTransaction, WagerStatus, pending, pending_reference, processed, rejected, failed,
  is_terminal, validate_status, is_pending,
}
use backend_challenge.Domain.Wager.Transitions.{
  IsOpen, mark_pending_reference_inv, resolve_reference_inv, mark_processed_inv, reject_inv,
  mark_failed_inv,
}
use backend_challenge.Domain.Wager.Lifecycle.{Transition, waits, resolves, settles, refuses, breaks}

-- The statuses that a transition leads between.
pub data Edge : WagerStatus → WagerStatus → Type 0 where
  wait : Edge pending pending_reference
  keep_pending : Edge pending pending
  keep_waiting : Edge pending_reference pending_reference
  settle_pending : Edge pending processed
  settle_waiting : Edge pending_reference processed
  refuse_pending : Edge pending rejected
  refuse_waiting : Edge pending_reference rejected
  break_pending : Edge pending failed
  break_waiting : Edge pending_reference failed

-- What no transition changes: the identity of the operation, its owner, kind, money and date.
abbrev pub SameOperation : WagerTransaction → WagerTransaction → Type 0
SameOperation w v =
    (v.id ≡ w.id)
    × (v.provider_id ≡ w.provider_id)
    × (v.external_transaction_id ≡ w.external_transaction_id)
    × (v.idempotency_key ≡ w.idempotency_key)
    × (v.payload_hash ≡ w.payload_hash)
    × (v.wallet_id ≡ w.wallet_id)
    × (v.player_id ≡ w.player_id)
    × (v.kind ≡ w.kind)
    × (v.money ≡ w.money)
    × (v.created_at ≡ w.created_at)

data StartsOpen : WagerStatus → Type 0 where
  at_pending : StartsOpen pending
  at_waiting : StartsOpen pending_reference

open_start : (w : WagerTransaction) → IsOpen w → StartsOpen w.status
unfolding is_terminal validate_status
open_start w o = grind (arith, o.valid.consistent, at_pending, at_waiting)

Edge-settle : {s : WagerStatus} → StartsOpen s → Edge s processed
Edge-settle at_pending = settle_pending
Edge-settle at_waiting = settle_waiting

Edge-refuse : {s : WagerStatus} → StartsOpen s → Edge s rejected
Edge-refuse at_pending = refuse_pending
Edge-refuse at_waiting = refuse_waiting

Edge-break : {s : WagerStatus} → StartsOpen s → Edge s failed
Edge-break at_pending = break_pending
Edge-break at_waiting = break_waiting

Edge-keep : {s : WagerStatus} → StartsOpen s → Edge s s
Edge-keep at_pending = keep_pending
Edge-keep at_waiting = keep_waiting

Edge-wait : (s : WagerStatus) → is_pending s ≡ true → Edge s pending_reference
Edge-wait s h = grind (arith, wait)

-- A transition starts from a transaction that is not final, follows an edge of the diagram, and
-- leaves the operation's identity, kind and money alone.
pub Transition-Edge :
    (now : Time) (w v : WagerTransaction)
    → Transition now w v
    → (is_terminal w ≡ false) × Edge w.status v.status × SameOperation w v
Transition-Edge now w v (waits h) =
    let (o, fresh, needed, unresolved, done) = mark_pending_reference_inv now w v h in
    rw done (
      o.open_ended,
      Edge-wait w.status fresh,
      (refl, refl, refl, refl, refl, refl, refl, refl, refl, refl),
    )
Transition-Edge now w v (resolves reference h) =
    let (o, matches, done) = resolve_reference_inv now w reference v h in
    rw done (
      o.open_ended,
      Edge-keep (open_start w o),
      (refl, refl, refl, refl, refl, refl, refl, refl, refl, refl),
    )
Transition-Edge now w v (settles balance h) =
    let (o, s, done) = mark_processed_inv now w balance v h in
    rw done (
      o.open_ended,
      Edge-settle (open_start w o),
      (refl, refl, refl, refl, refl, refl, refl, refl, refl, refl),
    )
Transition-Edge now w v (refuses code h) =
    let (o, named, done) = reject_inv now w code v h in
    rw done (
      o.open_ended,
      Edge-refuse (open_start w o),
      (refl, refl, refl, refl, refl, refl, refl, refl, refl, refl),
    )
Transition-Edge now w v (breaks code h) =
    let (o, named, done) = mark_failed_inv now w code v h in
    rw done (
      o.open_ended,
      Edge-break (open_start w o),
      (refl, refl, refl, refl, refl, refl, refl, refl, refl, refl),
    )
