-- ===== src/Performance.antt =====
-- zkvm/methods/performance/guest: the guest program that proves performance figures.
pub mod Compute
pub mod Envelope
pub mod Origin
pub mod Run
