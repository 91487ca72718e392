-- ===== src/Examples.antt =====
-- Runs of the model on concrete inputs, with which the theorems of the other files are used.
mod Binance
mod Checkpoint
mod Commitments
mod Performance
mod Verifier
mod Statistics
mod Services
mod Domain
mod Collector
mod Origins
