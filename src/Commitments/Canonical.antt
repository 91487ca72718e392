-- ===== src/Commitments/Canonical.antt =====
-- crates/commitments/src/canonical.rs: the errors, and the encoding of a trusted value. The JSON
-- encoder `serde_jcs` is the parameter `jcs`: it gives the canonical bytes or a message.
use linvesther.Prelude.{Result, map_err}
use linvesther.Prelude.Bytes.{Bytes}

pub data CanonicalError : Type 0 where
  parse duplicate_key float_rejected jcs_failed : Bytes → CanonicalError

unfoldable pub canonicalize_value :
    {Value : Type 0} → (Value → Result Bytes Bytes) → Value → Result CanonicalError Bytes
canonicalize_value jcs value = map_err jcs_failed (jcs value)
