-- ===== src/Observability/Durations.antt =====
-- The summaries of durations (`observe`, internal/observability/metrics.go) against the list of
-- what was observed.
use backend_challenge.Base.{
  refl, ℕ, suc, ◌+◌, ◌%◌, ◌≡◌, ℤ, List, [], ◌∷◌, map, length, ltb, two64, arith, if◌then◌else◌,
}
use backend_challenge.Observability.{DurationSummary, no_durations, observe, micros}

sum : List ℕ → ℕ
sum [] = 0
sum (n ∷ ns) = n + sum ns

maximum : List ℕ → ℕ
maximum [] = 0
maximum (n ∷ ns) = if ltb (maximum ns) n then n else maximum ns

-- What the summary of a list of durations should be, the latest first.
pub summary_of : List ℤ → DurationSummary
unfolding sum maximum
summary_of values = record {
  count = length values % two64;
  sum = sum (map micros values) % two64;
  max = maximum (map micros values);
}

-- The durations observed one after the other, the first at the end of the list.
pub observe_all : List ℤ → DurationSummary
observe_all [] = no_durations
observe_all (value ∷ values) = observe value (observe_all values)

count_wraps : (n : ℕ) → (n % two64 + 1) % two64 ≡ suc n % two64
count_wraps n = omega arith

sum_wraps : (n m : ℕ) → (n % two64 + m) % two64 ≡ (m + n) % two64
sum_wraps n m = omega arith

-- A summary holds the number and the sum of the observed durations, in microseconds and modulo
-- 2 ^ 64, and the greatest of them, where negative durations count as zero.
pub observe_all-summary_of : (values : List ℤ) → observe_all values ≡ summary_of values
unfolding observe_all summary_of observe
observe_all-summary_of [] = refl
observe_all-summary_of (value ∷ values) =
    rw
      (
        observe_all-summary_of values,
        count_wraps (length values),
        sum_wraps (sum (map micros values)) (micros value),
      )
      refl
