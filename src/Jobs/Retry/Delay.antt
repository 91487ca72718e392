-- ===== src/Jobs/Retry/Delay.antt =====
-- `backoff_delay_ms` (services/compute/jobs/src/retry.rs) against a formula over exact numbers.
use linvesther.Prelude.{ℕ, ◌-◌, ◌*◌, ◌^◌, ◌≤◌, ◌≡◌, refl, min, arith}
use linvesther.Prelude.Int.{pos, ◌≤ℤ◌, min_ℤ, pos-*ℤ}
use linvesther.Jobs.Retry.{Backoff, saturating_mul_i64, backoff_delay_ms}
use native.Mathlib.Nat.{mul-le-mul_left, pow-le-pow_right}

-- The specification: the power of two, over exact numbers, up to the two caps.
abbrev pub delay : ℕ → ℕ → ℕ → ℕ
delay base top attempt = min (min (base * 2 ^ min attempt 62) (2 ^ 63 - 1)) top

saturating_mul-pos : (a b : ℕ) → saturating_mul_i64 (pos a) (pos b) ≡ pos (min (a * b) (2 ^ 63 - 1))
unfolding saturating_mul_i64
saturating_mul-pos a b = rw (pos-*ℤ a b) (ground arith)

min_ℤ-pos : (a b : ℕ) → min_ℤ (pos a) (pos b) ≡ pos (min a b)
min_ℤ-pos a b = ground arith

delay_exact :
    (base top limit attempt : ℕ)
    → backoff_delay_ms
        (record { base_ms = pos base; max_ms = pos top; max_attempts = limit })
        attempt
      ≡ pos (delay base top attempt)
unfolding backoff_delay_ms
delay_exact base top limit attempt =
    rw (saturating_mul-pos base (2 ^ min attempt 62))
      (min_ℤ-pos (min (base * 2 ^ min attempt 62) (2 ^ 63 - 1)) top)

delay-monotone : (base top a b : ℕ) → a ≤ b → delay base top a ≤ delay base top b
delay-monotone base top a b h =
    let below : min a 62 ≤ min b 62 = ground arith in
    let powers = mul-le-mul_left base (pow-le-pow_right {n = 2} (omega arith) below) in
    omega (arith, powers)

-- For a base and a cap of zero or more, the delay of each attempt is the base doubled once for each
-- attempt up to 62, or 2^63 - 1 or the cap if that is smaller; it is never above the top, and a later
-- attempt never waits less.
backoff_delay_ms-monotone :
    (base top limit a b : ℕ)
    → a ≤ b
    → let backoff : Backoff = record {
      base_ms = pos base;
      max_ms = pos top;
      max_attempts = limit;
    } in
      (backoff_delay_ms backoff a ≡ pos (delay base top a))
      × (backoff_delay_ms backoff a ≤ℤ backoff_delay_ms backoff b)
      × (backoff_delay_ms backoff b ≤ℤ pos top)
backoff_delay_ms-monotone base top limit a b h =
    let le = delay-monotone base top a b h in
    rw (delay_exact base top limit a, delay_exact base top limit b) (refl, omega arith, omega arith)
