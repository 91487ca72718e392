-- ===== src/Commitments.antt =====
-- crates/commitments: the byte framing under every hash of the protocol, and the Merkle tree over
-- private leaves. SHA-256 is the crate `sha2`, a parameter.
pub mod Hash
pub mod Framing
pub mod Canonical
pub mod Commitment
pub mod Merkle
