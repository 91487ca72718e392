-- ===== src/Recovery.antt =====
-- infra/recovery: mirrors, the purge gate, restore drills and retention deadlines.
pub mod Mirror
pub mod PurgeGate
pub mod RestoreDrill
pub mod Retention
