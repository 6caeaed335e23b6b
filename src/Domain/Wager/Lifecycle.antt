-- ===== src/Domain/Wager/Lifecycle.antt =====
-- The life of a wager transaction as a step relation (wager_transaction.go): every transition
-- keeps it valid, starts before the end and leaves its identity alone.
use backend_challenge.Base.{◌≤◌, ◌≡◌, true, false, ◌||◌, some, arith}
use backend_challenge.Text.{Text, is_blank}
use backend_challenge.Errors.{ok}
use backend_challenge.Domain.Money.{Money}
use backend_challenge.Domain.Wallet.{Time, is_nil, is_zero_time, before}
use backend_challenge.Domain.Wager.{
  WagerTransaction, is_terminal, needs_reference, present, is_opening, validate, validate_origin,
  validate_resolved, validate_result_balance, validate_status, mark_pending_reference,
  resolve_reference, mark_processed, reject, mark_failed,
}
use backend_challenge.Domain.Wager.Reference.{IsReference, validate_reference→IsReference, eq_false}
use backend_challenge.Domain.Wager.Validity.{IsValid, validate→IsValid, IsValid→validate}
use backend_challenge.Domain.Wager.Transitions.{
  IsOpen, IsSettlement, waiting, resolved, settled, refused, broken, mark_pending_reference_inv,
  resolve_reference_inv, mark_processed_inv, reject_inv, mark_failed_inv,
}

-- A method that has changed the transaction at a time.
pub data Transition (now : Time) (w v : WagerTransaction) : Type 0 where
  waits : mark_pending_reference now w ≡ ok v → Transition now w v
  resolves :
      (reference : WagerTransaction) → resolve_reference now w reference ≡ ok v → Transition now w v
  settles : (balance : Money) → mark_processed now w balance ≡ ok v → Transition now w v
  refuses : (code : Text) → reject now w code ≡ ok v → Transition now w v
  breaks : (code : Text) → mark_failed now w code ≡ ok v → Transition now w v

module _ (now : Time) (w : WagerTransaction) (later : w.created_at ≤ now) where
  dated_at :
      (is_zero_time w.created_at || before w.updated_at w.created_at) ≡ false
      → (is_zero_time w.created_at || before now w.created_at) ≡ false
  dated_at h = ground arith

  -- Before the end there is neither a failure code nor a result.
  open_fields : IsOpen w → (present w.failure_code ≡ false) × (present w.result_balance ≡ false)
  unfolding validate_status is_terminal
  open_fields o = (
    ground (arith, o.valid.consistent, o.open_ended),
    ground (arith, o.valid.consistent, o.open_ended),
  )

  waiting-IsValid : IsOpen w → needs_reference w ≡ true → IsValid (waiting now w)
  unfolding validate_origin validate_resolved validate_result_balance needs_reference
  waiting-IsValid o needed = record {
    identified = o.valid.identified;
    known = o.valid.known;
    dated = dated_at o.valid.dated;
    funded = o.valid.funded;
    origin = o.valid.origin;
    resolved = o.valid.resolved;
    balanced = o.valid.balanced;
    consistent = unfold validate_status in ground (arith, needed, open_fields o);
  }

  refused-IsValid : (code : Text) → IsOpen w → is_blank code ≡ false → IsValid (refused now w code)
  unfolding validate_origin validate_resolved validate_result_balance needs_reference
  refused-IsValid code o named = record {
    identified = o.valid.identified;
    known = o.valid.known;
    dated = dated_at o.valid.dated;
    funded = o.valid.funded;
    origin = o.valid.origin;
    resolved = o.valid.resolved;
    balanced = o.valid.balanced;
    consistent = unfold validate_status in ground (arith, named, open_fields o);
  }

  broken-IsValid : (code : Text) → IsOpen w → is_blank code ≡ false → IsValid (broken now w code)
  unfolding validate_origin validate_resolved validate_result_balance needs_reference
  broken-IsValid code o named = record {
    identified = o.valid.identified;
    known = o.valid.known;
    dated = dated_at o.valid.dated;
    funded = o.valid.funded;
    origin = o.valid.origin;
    resolved = o.valid.resolved;
    balanced = o.valid.balanced;
    consistent = unfold validate_status in ground (arith, named, open_fields o);
  }

  settled-IsValid :
      (balance : Money) → IsOpen w → IsSettlement w balance → IsValid (settled now w balance)
  unfolding validate_origin validate_resolved needs_reference
  settled-IsValid balance o s = record {
    identified = o.valid.identified;
    known = o.valid.known;
    dated = dated_at o.valid.dated;
    funded = o.valid.funded;
    origin = o.valid.origin;
    resolved = o.valid.resolved;
    balanced = unfold validate_result_balance in rw (s.sound, s.same_currency);
    consistent =
        unfold validate_status in rw (s.referenced, s.opening_kept) (ground (arith, open_fields o));
  }

-- A transaction that needs a reference is no opening.
not_opening : (w : WagerTransaction) → needs_reference w ≡ true → is_opening w.kind ≡ false
unfolding needs_reference
not_opening w h = ground arith

not_nil : (w : WagerTransaction) → IsValid w → is_nil w.id ≡ false
not_nil w v = ground (arith, v.identified)

module _ (now : Time) (w reference : WagerTransaction) (later : w.created_at ≤ now) (o : IsOpen w)
    (r : IsReference w reference) where
  resolved_origin : validate_origin (resolved now w reference) (is_opening w.kind) ≡ ok tt
  resolved_origin =
      let e = not_opening w r.needed in rw e (unfold validate_origin in (rw e at o.valid.origin))

  resolved_resolved : validate_resolved (resolved now w reference) (some reference.id) ≡ ok tt
  unfolding validate_resolved
  resolved_resolved =
      rw (not_nil reference (validate→IsValid reference r.valid), eq_false _ _ r.other)
        (unfold needs_reference in rw r.needed)

  resolved_status : validate_status (resolved now w reference) w.status ≡ ok tt
  unfolding validate_status needs_reference is_terminal
  resolved_status = ground (arith, o.valid.consistent, o.open_ended)

  resolved-IsValid : IsValid (resolved now w reference)
  unfolding validate_result_balance
  resolved-IsValid = record {
    identified = o.valid.identified;
    known = o.valid.known;
    dated = dated_at now w later o.valid.dated;
    funded = o.valid.funded;
    origin = resolved_origin;
    resolved = resolved_resolved;
    balanced = o.valid.balanced;
    consistent = resolved_status;
  }

-- Every transition, made at a time that is not before the transaction's creation, leads to a
-- transaction that `validate` accepts.
pub Transition-validate :
    (now : Time) (w v : WagerTransaction)
    → w.created_at ≤ now
    → Transition now w v
    → validate v ≡ ok tt
Transition-validate now w v later (waits h) =
    let (o, fresh, needed, unresolved, done) = mark_pending_reference_inv now w v h in
    rw done (IsValid→validate _ (waiting-IsValid now w later o needed))
Transition-validate now w v later (resolves reference h) =
    let (o, matches, done) = resolve_reference_inv now w reference v h in
    rw done (
      IsValid→validate _ (
        resolved-IsValid now w reference later o
          (validate_reference→IsReference w reference matches)))
Transition-validate now w v later (settles balance h) =
    let (o, s, done) = mark_processed_inv now w balance v h in
    rw done (IsValid→validate _ (settled-IsValid now w later balance o s))
Transition-validate now w v later (refuses code h) =
    let (o, named, done) = reject_inv now w code v h in
    rw done (IsValid→validate _ (refused-IsValid now w later code o named))
Transition-validate now w v later (breaks code h) =
    let (o, named, done) = mark_failed_inv now w code v h in
    rw done (IsValid→validate _ (broken-IsValid now w later code o named))
