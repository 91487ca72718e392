-- ===== src/Domain/Metrics.antt =====
-- crates/domain/metrics: figures computed from an index, from daily returns and from fills.
pub mod Drawdown
pub mod Capital
pub mod Stats
pub mod WinRate
