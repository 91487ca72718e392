-- ===== src/Verifier.antt =====
-- crates/verifier: offline verification of a public bundle. Strings are their UTF-8 bytes. The
-- crates `sha2`, `hex`, `serde_json`, `bincode` and `risc0_zkvm` are parameters.
pub mod Bundle
pub mod Root
pub mod Anchor
pub mod Coverage
pub mod Receipt
pub mod Trust
pub mod Report
pub mod Verify
