-- ===== src/Jobs.antt =====
-- services/compute/jobs: the job record, its lease, idempotent effects, and retries.
pub mod Lease
pub mod Outbox
pub mod Retry
use linvesther.Prelude.{ℕ, Option}
use linvesther.Prelude.Int.{ℤ}
use linvesther.Prelude.Bytes.{Bytes}

pub data JobState : Type 0 where
  pending leased succeeded failed dead_letter_state : JobState

pub record Job : Type 0 where
  pub id : Bytes
  pub job_type : Bytes
  pub tenant : Bytes
  pub dedup_key : Bytes
  pub payload_digest : Bytes
  pub available_at_ms : ℤ
  pub lease_until_ms : Option ℤ
  pub attempt : ℕ
  pub state : JobState
  pub last_error_code : Option Bytes
