-- ===== src/Jobs/Lease.antt =====
-- services/compute/jobs/src/lease.rs: acquiring the lease of a job.
pub mod Exclusive
use linvesther.Prelude.{Option, none, some, Bool, Result, ok, err, if◌then◌else◌}
use linvesther.Prelude.Int.{ℤ, ltb_ℤ}
use linvesther.Prelude.Machine.{◌+i64◌}
use linvesther.Jobs.{Job, leased}

pub data LeaseError : Type 0 where
  still_leased : (lease_until_ms now_ms : ℤ) → LeaseError

-- The clone with the new state and lease.
unfoldable pub lease : Job → ℤ → ℤ → Job
lease job now_ms lease_duration_ms = record {
  id = job.id;
  job_type = job.job_type;
  tenant = job.tenant;
  dedup_key = job.dedup_key;
  payload_digest = job.payload_digest;
  available_at_ms = job.available_at_ms;
  lease_until_ms = some (now_ms +i64 lease_duration_ms);
  attempt = job.attempt;
  state = leased;
  last_error_code = job.last_error_code;
}

-- The `if let` on the lease, and what follows it.
unfoldable pub acquire_over : Option ℤ → Job → ℤ → ℤ → Result LeaseError Job
unfolding lease
acquire_over none job now_ms lease_duration_ms = ok (lease job now_ms lease_duration_ms)
acquire_over (some lease_until_ms) job now_ms lease_duration_ms =
    if ltb_ℤ now_ms lease_until_ms
    then err (still_leased lease_until_ms now_ms)
    else ok (lease job now_ms lease_duration_ms)

unfoldable pub try_acquire : Job → ℤ → ℤ → Result LeaseError Job
unfolding acquire_over
try_acquire job now_ms lease_duration_ms =
    acquire_over job.lease_until_ms job now_ms lease_duration_ms
