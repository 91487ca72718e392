-- ===== src/Collector.antt =====
-- services/collector: what the collectors share. The signing of envelopes (attestation), the
-- checks of a TLS session (tlsn), and the parallel map over an exchange's requests (exchange-core).
pub mod Attestation
pub mod ParallelMap
pub mod Tlsn
