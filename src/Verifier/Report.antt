-- ===== src/Verifier/Report.antt =====
-- crates/verifier/src/report.rs: the structured report. `{as_of_ms}` in a message is the parameter
-- `display`, the decimal text of an `i64`.
pub mod Freshness
use linvesther.Prelude.{◌++◌, Bool, true, false, ◌&&◌, not, if◌then◌else◌}
use linvesther.Prelude.Int.{ℤ}
use linvesther.Prelude.Bytes.{Bytes, codes}
use linvesther.Verifier.Trust.{OriginAssessment, label}

pub data CheckOutcome : Type 0 where
  pass : CheckOutcome
  fail unavailable : Bytes → CheckOutcome

unfoldable pub is_pass : CheckOutcome → Bool
is_pass pass = true
is_pass _ = false

pub data Mode : Type 0 where
  offline : (as_of_ms : ℤ) → Mode
  online : Mode

pub record VerificationReport : Type 0 where
  pub mode : Mode
  pub hashes : CheckOutcome
  pub account_set_root : CheckOutcome
  pub calculation : CheckOutcome
  pub registry : CheckOutcome
  pub coverage : CheckOutcome
  pub origin : OriginAssessment

unfoldable pub all_pass : VerificationReport → Bool
unfolding is_pass
all_pass report =
    is_pass report.hashes
    && is_pass report.account_set_root
    && is_pass report.calculation
    && is_pass report.registry
    && is_pass report.coverage

unfoldable pub origin_summary : VerificationReport → Bytes
unfolding label
origin_summary report = codes "ORIGIN=" ++ label report.origin

-- The `match` on the mode.
unfoldable pub valid_text : (ℤ → Bytes) → Mode → Bytes
valid_text display (offline as_of_ms) = codes "VALID_AS_OF(" ++ display as_of_ms ++ codes ")"
valid_text display online = codes "VALID"

unfoldable pub summary : (ℤ → Bytes) → VerificationReport → Bytes
unfolding all_pass valid_text
summary display report =
    if not (all_pass report) then codes "INVALID" else valid_text display report.mode
