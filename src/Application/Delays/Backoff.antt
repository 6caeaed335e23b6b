-- ===== src/Application/Delays/Backoff.antt =====
-- What the doubling delays are: `delay` of both policies and `messageRetryDelay`.
use backend_challenge.Base.{
  ◌%◌, false, true, ap, sym, ℕ, suc, zero, ◌≡◌, ◌≤◌, ◌<◌, ◌*◌, ◌-◌, ◌+◌, ℤ, pos, add64, add64-eq,
  ◌+ℤ◌, arith, max_int64, ◌≤ℤ◌, refl, ltb, if◌then◌else◌, ltb_ℤ, Bool-cases, inl, inr,
}
use backend_challenge.Application.Delays.{
  half, double_up, double_below, double_to_minute, reference_delay, outbox_delay,
  message_retry_delay,
}

-- The given delay, doubled the given number of times, or the limit if that is smaller.
unfoldable pub capped : ℕ → ℕ → ℕ → ℕ
capped limit zero delay = if ltb limit delay then limit else delay
capped limit (suc rounds) delay = capped limit rounds (delay * 2)

capped_over : (limit rounds delay : ℕ) → limit ≤ delay → capped limit rounds delay ≡ limit
unfolding capped
capped_over limit zero delay h = ground arith
capped_over limit (suc rounds) delay h = capped_over limit rounds (delay * 2) (omega (arith, h))

doubled : (d m : ℕ) → pos m ≤ℤ max_int64 → d + d ≤ m → add64 (pos d) (pos d) ≡ pos (d * 2)
unfolding ◌+ℤ◌
doubled d m h k = ground (arith, add64-eq (pos d) (pos d))

half_over : (m d : ℕ) → ltb_ℤ (half (pos m)) (pos d) ≡ true → m ≤ d * 2
unfolding half
half_over m d h = ground arith

half_under : (m d : ℕ) → ltb_ℤ (half (pos m)) (pos d) ≡ false → d + d ≤ m
unfolding half
half_under m d h = ground arith

double_up-capped :
    (m rounds d : ℕ)
    → pos m ≤ℤ max_int64
    → d ≤ m
    → double_up (pos m) rounds (pos d) ≡ pos (capped m rounds d)
unfolding double_up capped half
double_up-capped m zero d h k = ground arith
double_up-capped m (suc rounds) d h k = elim (Bool-cases (ltb_ℤ (half (pos m)) (pos d))) [
  | inl over ↦ rw over (ap pos (sym (capped_over m rounds (d * 2) (half_over m d over))))
  | inr under ↦
      let low = half_under m d under in
      rw (under, doubled d m h low) (double_up-capped m rounds (d * 2) h (omega (arith, low)))
]

full_eq : (m rounds d : ℕ) → d ≤ m → ltb_ℤ (pos d) (pos m) ≡ false → d ≡ capped m rounds (d * 2)
full_eq m rounds d k full = rw (capped_over m rounds (d * 2) (ground arith)) (ground arith)

pred_suc : (n : ℕ) → suc n - 1 ≡ n
pred_suc n = omega arith

double_below-capped :
    (m rounds d : ℕ)
    → pos m ≤ℤ max_int64
    → d ≤ m
    → double_below (pos m) rounds (pos d) ≡ pos (capped m rounds d)
unfolding double_below capped half
double_below-capped m zero d h k = ground arith
double_below-capped m (suc rounds) d h k = elim (Bool-cases (ltb_ℤ (pos d) (pos m))) [
  | inr full ↦ rw full (ap pos (full_eq m rounds d k full))
  | inl open_ended ↦ rw open_ended (elim (Bool-cases (ltb_ℤ (half (pos m)) (pos d))) [
    | inl over ↦ rw over (ap pos (sym (capped_over m rounds (d * 2) (half_over m d over))))
    | inr under ↦
        let low = half_under m d under in
        rw (under, doubled d m h low) (double_below-capped m rounds (d * 2) h (omega (arith, low)))
  ])
]

-- For a limit that is an `int64` and an initial delay up to it, the delay after attempt n + 1 to
-- resolve a reference is the initial delay doubled n times, or the limit if that is smaller.
pub reference_delay-capped :
    (attempts d m n : ℕ)
    → pos m ≤ℤ max_int64
    → d ≤ m
    → reference_delay
        (record { max_attempts = attempts; initial_delay = pos d; max_delay = pos m })
        (suc n)
      ≡ pos (capped m n d)
unfolding reference_delay
reference_delay-capped attempts d m n h k = rw (pred_suc n) (double_up-capped m n d h k)

-- For a limit that is an `int64` and an initial delay up to it, the delay after attempt n + 1 to
-- publish an event is the initial delay doubled n times, or the limit if that is smaller.
pub outbox_delay-capped :
    (lease : ℤ) (d m n : ℕ)
    → pos m ≤ℤ max_int64
    → d ≤ m
    → outbox_delay
        (record { lease_duration = lease; initial_delay = pos d; max_delay = pos m })
        (suc n)
      ≡ pos (capped m n d)
unfolding outbox_delay
outbox_delay-capped lease d m n h k = rw (pred_suc n) (double_below-capped m n d h k)

minute_full : (rounds d : ℕ) → 60 ≤ d → double_to_minute rounds d ≡ d
unfolding double_to_minute
minute_full zero d h = refl
minute_full (suc rounds) d h = ground arith

small : (d : ℕ) → d < 60 → d * 2 % 4294967296 ≡ d * 2
small d h = ground arith

minute_capped :
    (rounds d : ℕ)
    → d < 120
    → (if ltb 60 (double_to_minute rounds d) then 60 else double_to_minute rounds d)
      ≡ capped 60 rounds d
unfolding double_to_minute capped
minute_capped zero d h = refl
minute_capped (suc rounds) d h = elim (Bool-cases (ltb d 60)) [
  | inl low ↦ rw low (rw (small d (ground arith)) (minute_capped rounds (d * 2) (ground arith)))
  | inr full ↦ rw (full, capped_over 60 rounds (d * 2) (ground arith)) (ground arith)
]

-- The visibility timeout after the n + 1st delivery of a message is 2 ^ n seconds, at most 60.
pub message_retry_delay-capped : (n : ℕ) → message_retry_delay (suc n) ≡ capped 60 n 1
unfolding message_retry_delay
message_retry_delay-capped n = rw (pred_suc n) (minute_capped n 1 (omega arith))
