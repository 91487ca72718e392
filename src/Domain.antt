-- ===== src/Domain.antt =====
-- The domain crates of the ledger of balances, of valuation, returns, metrics and consolidation.
pub mod Decimal
pub mod Ledger
pub mod Valuation
pub mod Returns
pub mod Metrics
pub mod Consolidation
