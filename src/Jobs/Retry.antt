-- ===== src/Jobs/Retry.antt =====
-- services/compute/jobs/src/retry.rs: the delay before a retry, and when a job is given up. The
-- jitter is floating point and not modelled.
pub mod Delay
use linvesther.Prelude.{ℕ, ◌-◌, ◌^◌, min, leb, Bool, true, false, ◌||◌, if◌then◌else◌}
use linvesther.Prelude.Int.{ℤ, pos, negsuc, ◌*ℤ◌, ltb_ℤ, min_ℤ}
use linvesther.Prelude.Bytes.{Bytes}
use linvesther.Jobs.{Job}

pub record Backoff : Type 0 where
  pub base_ms : ℤ
  pub max_ms : ℤ
  pub max_attempts : ℕ

-- `i64::saturating_mul`
unfoldable pub saturating_mul_i64 : ℤ → ℤ → ℤ
saturating_mul_i64 a b =
    let product = a *ℤ b in
    if ltb_ℤ (pos (2 ^ 63 - 1)) product
    then pos (2 ^ 63 - 1)
    else if ltb_ℤ product (negsuc (2 ^ 63 - 1))
    then negsuc (2 ^ 63 - 1)
    else product

unfoldable pub backoff_delay_ms : Backoff → ℕ → ℤ
unfolding saturating_mul_i64
backoff_delay_ms backoff attempt =
    let shift = min attempt 62 in
    let exponential = saturating_mul_i64 backoff.base_ms (pos (2 ^ shift)) in
    min_ℤ exponential backoff.max_ms

pub record DeadLetter : Type 0 where
  pub job_id : Bytes
  pub cause : Bytes
  pub deadline_ms : ℤ
  pub letter_attempt : ℕ

pub data RetryDecision : Type 0 where
  retry_after : (delay_ms : ℤ) → RetryDecision
  dead_letter : DeadLetter → RetryDecision

unfoldable pub decide : Job → Backoff → Bytes → Bool → RetryDecision
unfolding backoff_delay_ms
decide job backoff error_code is_permanent =
    if is_permanent || leb backoff.max_attempts job.attempt
    then dead_letter (record {
      job_id = job.id;
      cause = error_code;
      deadline_ms = job.available_at_ms;
      letter_attempt = job.attempt;
    })
    else retry_after (backoff_delay_ms backoff job.attempt)
