-- ===== src/Statistics.antt =====
-- zkvm/methods/statistics/guest: the guest program that decides claims about Sharpe, Sortino and CAGR
-- from certified integer intervals.
pub mod Bracket
pub mod Stats
pub mod Run
