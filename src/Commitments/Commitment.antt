-- ===== src/Commitments/Commitment.antt =====
-- crates/commitments/src/commitment.rs: `dataCommitment = H("LZK/data/v1", salt32, JCS(data))`.
pub mod Binding
use linvesther.Prelude.{[], ◌∷◌, Result, ◌>>=◌, map_err}
use linvesther.Prelude.Bytes.{Bytes, codes}
use linvesther.Commitments.Canonical.{CanonicalError, canonicalize_value}
use linvesther.Commitments.Hash.{Sha256}
use linvesther.Commitments.Framing.{FramingError, frame_hash}

abbrev pub data_commitment_tag : Bytes
data_commitment_tag = codes "LZK/data/v1"

pub data CommitmentError : Type 0 where
  canonical : CanonicalError → CommitmentError
  framing : FramingError → CommitmentError

unfoldable pub data_commitment :
    Sha256
    → {Value : Type 0} → (Value → Result Bytes Bytes)
    → Bytes
    → Value
    → Result CommitmentError Bytes
unfolding canonicalize_value
data_commitment sha jcs salt value = do
  bytes ← map_err canonical (canonicalize_value jcs value)
  map_err framing (frame_hash sha data_commitment_tag (salt ∷ bytes ∷ []))
