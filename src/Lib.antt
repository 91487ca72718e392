-- ===== src/Lib.antt =====
-- Linvesther: verifiable investment track records. A collector reads an account at an exchange and
-- signs an envelope over commitments to what it read; guest programs in a zero-knowledge virtual
-- machine check the signature and prove figures over the data; checkpoints are chained per track,
-- with gaps that the calendar alone determines; and an offline verifier checks a public bundle.
--
-- The parts, and the files of this library that model them:
-- - crates/domain/checkpoint: Checkpoint. `derive_gaps` (Checkpoint/Calendar), `link_next`
--   (Checkpoint/Chain), `segments_between` and `recover_late` (Checkpoint/Continuity).
-- - crates/commitments: Commitments. The framing under every hash (Framing), `data_commitment`
--   (Commitment), the Merkle tree with its proofs (Merkle), and of canonical.rs the errors and the
--   encoding of a trusted value (Canonical).
-- - zkvm/methods/performance/guest: Performance. The arithmetic (Compute), the signed envelope
--   (Envelope), the signature check (Origin), and the whole guest up to its journal (Run).
-- - zkvm/methods/statistics/guest: Statistics. Intervals of integers (Bracket), the three metrics and
--   the comparison with a threshold (Stats), and the whole guest (Run).
-- - crates/verifier: Verifier, one file per source file; Verifier/Verify puts the checks together.
--   It uses Checkpoint for coverage, Commitments for the account set root, and reads the signer from
--   the journal that Performance commits.
-- - services/compute/jobs: Jobs. Leases, the outbox of effects, and retries.
-- - infra/recovery: Recovery. Mirrors, the purge gate, restore drills, retention deadlines.
-- - crates/domain/corrections: Corrections.
-- - services/collector/attestation: Collector/Attestation, the envelope, the signer and the badge.
--   Its signatures are what Performance/Origin checks.
-- - crates/domain/{ledger,valuation,returns,metrics,consolidation}: Domain, a file or folder for each
--   crate. Domain/Ledger has the accumulator, and Domain/Ledger/Spec the abstract log that it
--   implements. The operations of `rust_decimal` are a parameter (Domain/Decimal).
-- - services/collector/credentials: Credentials. The vault (Vault), the key service that it uses
--   (Kms, an interface that the local service fills), the restrictions of a key, the account that it
--   is bound to, and signed requests.
-- - services/collector/binance/flows: Binance/Flows, one file per source file. And
--   services/collector/binance/trades: Binance/Trades, the store of trades;
--   services/collector/binance/prices: Binance/Prices, which candle marks a position;
--   services/collector/binance/catalog: Binance/Catalog, archived symbols. Of the worker,
--   services/collector/binance/worker/src: the pages of the trade log (trade_log.rs: Binance/TradeLog)
--   and profit and loss (pnl.rs: Binance/Pnl; its History says what happens to the lot of one asset).
-- - zkvm/methods/tls-origin/guest: TlsOrigin, the receipt of a session, its checks and the guest. The
--   collector's own checks, services/collector/tlsn, are Collector/Tlsn.
-- - services/local-agent: LocalAgent, the local computation and the cursor over the events.
-- - services/collector/exchange-core: Collector/ParallelMap, the parallel map; a thread is the work
--   on its chunk.
--
-- How the code is modelled. A struct is a record and an enum a data type, with the source's names.
-- `Result` and its `?` are Prelude/Results. Strings and digests are lists of bytes (Prelude/Bytes).
-- An `i64` or `i128` is the integer that it stands for (Prelude/Int), and Prelude/Machine has the
-- operators of the release profile, which wrap, and the checked and saturating forms. A `BTreeMap`
-- is the list of its entries, a set the list of its elements. A loop is a recursion over a list, or
-- has fuel: `derive_gaps` needs more than the milliseconds that have passed, which is proved to be
-- enough; the loops of the Merkle tree have the number of leaves, the square root its argument (`isqrt_run`
-- answers `none` where that does not end it), and
-- the matching of a sell has one more than there are open lots. An operation of decimals that
-- panics in the code is `Stop.panic`, or `none` where nothing else can fail.
--
-- Parameters, for code that is not in the repository: SHA-256 (`Sha256`, a function to 32 bytes),
-- ECDSA (`Ecdsa`, and `Signing` for its signing half), receipts of the virtual machine (`Risc0`),
-- the JSON encoder and decoder, the hexadecimal encoder, decimals (`Decimals`; `IsOrdered` is their
-- documented order), AES-GCM (`Aead`), HMAC, and what the operating system draws at random. No theorem assumes that SHA-256 has no collisions: where two inputs must
-- agree, the conclusion is that they do or that a `Collision` is at hand.
--
-- Not modelled: the exchange clients and the worker (HTTP, the database, and the rest of the pure
-- computations between them, which are next), the strict JSON visitor, the
-- jitter of retries, which is floating point, and everything that is not Rust (apps, contracts,
-- packages, the TypeScript services).
pub mod Prelude
pub mod Checkpoint
pub mod Domain
pub mod Credentials
pub mod Binance
pub mod TlsOrigin
pub mod LocalAgent
pub mod Commitments
pub mod Performance
pub mod Statistics
pub mod Jobs
pub mod Recovery
pub mod Corrections
pub mod Collector
pub mod Verifier
pub mod Examples
