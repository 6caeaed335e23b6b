-- ===== src/Observability/State.antt =====
-- The state of `Metrics` and its operations (internal/observability/metrics.go). A map is its list
-- of entries; every operation runs under the lock, or is atomic.
use backend_challenge.Base.{
  ◌++◌, ℕ, ◌+◌, ◌%◌, ◌/◌, ℤ, pos, negsuc, Bool, true, false, ◌||◌, Option, none, some, List, [],
  ◌∷◌, ltb, two64, if◌then◌else◌,
}
use backend_challenge.Text.{Text, text, str_eq, is_empty, print_int}
use backend_challenge.Errors.{
  database_code, Error, is_error, idempotency_conflict, inbox_conflict, inbox_incomplete,
  wallet_concurrent_update,
}
use backend_challenge.Domain.Wallet.{Time, is_zero_time}
use backend_challenge.Observability.Label.{label}

abbrev pub Counters : Type 0
Counters = List (Text × ℕ)

-- `counters[key]++`, on `uint64`
unfoldable pub increment : Text → Counters → Counters
increment key [] = (key, 1) ∷ []
increment key ((name, n) ∷ counters) =
    let rest = increment key counters in
    if str_eq name key then (name, (n + 1) % two64) ∷ counters else (name, n) ∷ rest

pub record DurationSummary : Type 0 where
  pub count : ℕ
  pub sum : ℕ
  pub max : ℕ

pub record Metrics : Type 0 where
  pub reconciliation_divergences : ℕ
  pub processing_latency : DurationSummary
  pub outbox_lag : DurationSummary
  pub wager_results : Counters
  pub duplicate_messages : Counters
  pub message_retries : Counters
  pub dead_letter_messages : Counters
  pub concurrency_conflicts : Counters
  pub outbox_publish_results : Counters
  pub outbox_publish_retries : Counters
  pub outbox_claim_failures : ℕ
  pub dlq_depth : ℤ
  pub dlq_depth_known : Bool

abbrev pub no_durations : DurationSummary
no_durations = record { count = 0; sum = 0; max = 0 }

abbrev pub new_metrics : Metrics
new_metrics = record {
  reconciliation_divergences = 0;
  processing_latency = no_durations;
  outbox_lag = no_durations;
  wager_results = [];
  duplicate_messages = [];
  message_retries = [];
  dead_letter_messages = [];
  concurrency_conflicts = [];
  outbox_publish_results = [];
  outbox_publish_retries = [];
  outbox_claim_failures = 0;
  dlq_depth = pos 0;
  dlq_depth_known = false;
}

-- `value.Microseconds()` of a duration in nanoseconds, where a negative one counts as zero
unfoldable pub micros : ℤ → ℕ
micros (pos n) = n / 1000
micros (negsuc n) = 0

-- `observe`
unfoldable pub observe : ℤ → DurationSummary → DurationSummary
unfolding micros
observe value s = record {
  count = (s.count + 1) % two64;
  sum = (s.sum + micros value) % two64;
  max = if ltb s.max (micros value) then micros value else s.max;
}

unfoldable pub observe_wager_result : Text → Bool → ℤ → Metrics → Metrics
unfolding increment label observe
observe_wager_result status replay latency m = record m {
  wager_results = increment (label status) m.wager_results;
  duplicate_messages =
      if replay
      then increment (text "idempotent_replay") m.duplicate_messages
      else m.duplicate_messages;
  processing_latency = observe latency m.processing_latency;
}

unfoldable pub observe_duplicate_message : Text → Metrics → Metrics
unfolding increment label
observe_duplicate_message source m = record m {
  duplicate_messages = increment (label source) m.duplicate_messages;
}

unfoldable pub observe_message_retry : Text → Metrics → Metrics
unfolding increment label
observe_message_retry reason m = record m {
  message_retries = increment (label reason) m.message_retries;
}

unfoldable pub observe_dead_letter : Text → Metrics → Metrics
unfolding increment label
observe_dead_letter reason m = record m {
  dead_letter_messages = increment (label reason) m.dead_letter_messages;
}

unfoldable pub set_dlq_depth : ℤ → Metrics → Metrics
set_dlq_depth depth m = record m { dlq_depth = depth; dlq_depth_known = true }

unfoldable pub is_conflict_code : Option Text → Bool
is_conflict_code none = false
is_conflict_code (some code) = str_eq code (text "40001") || str_eq code (text "40P01")

-- The scope of a conflict, empty for any other error.
unfoldable pub conflict_scope : Error → Text
unfolding is_conflict_code database_code
conflict_scope e =
    if is_error e idempotency_conflict
    then text "idempotency_conflict"
    else if is_error e inbox_conflict
    then text "inbox_conflict"
    else if is_error e inbox_incomplete
    then text "inbox_incomplete"
    else if is_error e wallet_concurrent_update
    then text "wallet_version"
    else if is_conflict_code (database_code e)
    then text "database_conflict"
    else []

unfoldable pub observe_processing_error : Error → ℤ → Metrics → Metrics
unfolding observe increment conflict_scope
observe_processing_error e latency m = record m {
  processing_latency = observe latency m.processing_latency;
  concurrency_conflicts =
      if is_empty (conflict_scope e)
      then m.concurrency_conflicts
      else increment (conflict_scope e) m.concurrency_conflicts;
}

unfoldable pub observe_concurrency_conflict : Text → Metrics → Metrics
unfolding increment label
observe_concurrency_conflict scope m = record m {
  concurrency_conflicts = increment (label scope) m.concurrency_conflicts;
}

-- With `time.Since(occurredAt)`.
unfoldable pub observe_outbox_publish : Text → ℕ → Time → ℤ → Metrics → Metrics
unfolding increment label observe
observe_outbox_publish result attempts occurred_at since m = record m {
  outbox_publish_results = increment (label result) m.outbox_publish_results;
  outbox_publish_retries =
      if str_eq result (text "retry")
      then increment (label (text "attempt_" ++ print_int (pos attempts))) m.outbox_publish_retries
      else m.outbox_publish_retries;
  outbox_lag = if is_zero_time occurred_at then m.outbox_lag else observe since m.outbox_lag;
}

unfoldable pub observe_outbox_claim_failure : Metrics → Metrics
observe_outbox_claim_failure m = record m {
  outbox_claim_failures = (m.outbox_claim_failures + 1) % two64;
}

unfoldable pub add_reconciliation_divergence : Metrics → Metrics
add_reconciliation_divergence m = record m {
  reconciliation_divergences = (m.reconciliation_divergences + 1) % two64;
}
