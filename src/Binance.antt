-- ===== src/Binance.antt =====
-- services/collector/binance: flows and trades as the exchange reports them, and what the worker
-- computes from them.
pub mod Flows
pub mod Trades
pub mod TradeLog
pub mod Pnl
pub mod Prices
pub mod Catalog
