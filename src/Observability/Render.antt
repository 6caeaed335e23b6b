-- ===== src/Observability/Render.antt =====
-- `ServeHTTP` (internal/observability/metrics.go): the text of the metrics.
use backend_challenge.Base.{
  ℕ, ℤ, pos, Bool, true, false, ◌||◌, ◌&&◌, [], ◌∷◌, ◌++◌, ltb, ◌==◌, if◌then◌else◌,
}
use backend_challenge.Text.{Text, text, print_int}
use backend_challenge.Observability.State.{Counters, DurationSummary, Metrics}

abbrev newline : Text
newline = 10 ∷ []

-- The order of `sort.Strings`: by bytes.
unfoldable pub before_text : Text → Text → Bool
before_text [] [] = false
before_text [] (b ∷ t) = true
before_text (a ∷ s) [] = false
before_text (a ∷ s) (b ∷ t) = ltb a b || a == b && before_text s t

insert_sorted : Text × ℕ → Counters → Counters
unfolding before_text
insert_sorted entry [] = entry ∷ []
insert_sorted entry (x ∷ xs) =
    let rest = insert_sorted entry xs in
    if before_text x.0 entry.0 then x ∷ rest else entry ∷ x ∷ xs

-- `sortedKeys`, with the values
unfoldable pub sorted_entries : Counters → Counters
unfolding insert_sorted
sorted_entries [] = []
sorted_entries (x ∷ xs) = insert_sorted x (sorted_entries xs)

-- `# HELP` and `# TYPE`
heading : Text → Text → Text → Text
heading name help kind =
    text "# HELP "
    ++ name
    ++ text " "
    ++ help
    ++ newline
    ++ text "# TYPE "
    ++ name
    ++ text " "
    ++ kind
    ++ newline

-- A line of a counter. The keys are labels, which `%q` puts in quotes as they are.
counter_lines : Text → Text → Counters → Text
counter_lines name label_name [] = []
counter_lines name label_name ((key, n) ∷ counters) =
    name
    ++ text "{"
    ++ label_name
    ++ text "=\""
    ++ key
    ++ text "\"} "
    ++ print_int (pos n)
    ++ newline
    ++ counter_lines name label_name counters

unfoldable pub write_counter_map : Text → Text → Text → Counters → Text
unfolding heading counter_lines sorted_entries
write_counter_map name help label_name counters =
    heading name help (text "counter") ++ counter_lines name label_name (sorted_entries counters)

-- A value on a line of its own.
value_line : Text → Text → Text
value_line name value = name ++ text " " ++ value ++ newline

single : Text → Text → Text → ℤ → Text
unfolding heading value_line
single name help kind n = heading name help kind ++ value_line name (print_int n)

-- `seconds` is `%.6f` of a `float64` divided by a million.
module _ (seconds : ℕ → Text) where
  unfoldable pub write_duration_summary : Text → Text → DurationSummary → Text
  unfolding heading value_line
  write_duration_summary name help s =
      heading name help (text "summary")
      ++ value_line (name ++ text "_count") (print_int (pos s.count))
      ++ value_line (name ++ text "_sum") (seconds s.sum)
      ++ value_line (name ++ text "_max") (seconds s.max)

  unfoldable pub serve_metrics : Metrics → Text
  unfolding single
  serve_metrics m =
      single (text "wallet_reconciliation_divergences_total")
        (text "Reconciliation checks that found a balance divergence.") (text "counter")
        (pos m.reconciliation_divergences)
      ++ write_counter_map (text "wager_results_total")
          (text "Wager processing results by final status.") (text "status") m.wager_results
      ++ write_counter_map (text "wager_duplicates_total")
          (text "Duplicate wager requests or messages detected.") (text "source")
          m.duplicate_messages
      ++ write_counter_map (text "wager_retries_total")
          (text "Wager message retries scheduled before acknowledgement.") (text "reason")
          m.message_retries
      ++ write_counter_map (text "wager_dlq_redrive_decisions_total")
          (text "Consumer decisions to leave a delivery for broker redrive; not unique messages.")
          (text "reason") m.dead_letter_messages
      ++ (if m.dlq_depth_known
          then single (text "wager_dlq_messages")
              (text "Approximate DLQ depth reported by SQS at the last successful readiness check.")
              (text "gauge") m.dlq_depth
          else [])
      ++ write_counter_map (text "wager_concurrency_conflicts_total")
          (text "Concurrent write conflicts detected while processing wagers.") (text "scope")
          m.concurrency_conflicts
      ++ write_counter_map (text "outbox_publish_results_total")
          (text "Outbox publishing attempts by result.") (text "result") m.outbox_publish_results
      ++ write_counter_map (text "outbox_publish_retries_total")
          (text "Outbox publish retries by attempt number.") (text "attempt")
          m.outbox_publish_retries
      ++ single (text "outbox_claim_failures_total")
          (text "Outbox claim attempts that failed before reserving an event.") (text "counter")
          (pos m.outbox_claim_failures)
      ++ write_duration_summary (text "outbox_lag_seconds")
          (text "Delay between event occurrence and outbox publication attempt.") m.outbox_lag
      ++ write_duration_summary (text "wager_processing_latency_seconds")
          (text "Time spent processing wager requests or messages.") m.processing_latency
