-- ===== src/Domain/Ledger/Refinement.antt =====
-- The accumulator (crates/domain/ledger/src/ledger.rs) against the abstract log.
use linvesther.Prelude.{◌≡◌, refl, List, [], some, Result}
use linvesther.Prelude.Bytes.{Bytes}
use linvesther.Prelude.Maps.{get, pair_keys, bytes_keys}
use linvesther.Domain.Decimal.{Decimals}
use linvesther.Domain.Ledger.{LedgerEvent, LedgerError, Ledger, balance, new}
use linvesther.Domain.Ledger.Spec.{recorded, log_deltas, sum_of}

module _ (dec : Decimals) where
  open dec use {Decimal, zero_dec, checked_add}

  -- The ledger stands for the log.
  pub record Represents (ledger : Ledger dec) (log : List LedgerEvent) : Type 0 where
    pub events_of : (k : Bytes × Bytes) → get k ledger.events ≡ recorded k log
    pub balance_of :
        (asset : Bytes)
        → sum_of dec asset zero_dec (log_deltas dec log) ≡ some (balance dec ledger asset)

  -- The empty ledger stands for the empty log.
  pub new-Represents : Represents (new dec) []
  unfolding new balance get
  new-Represents = record { events_of = λ k. refl; balance_of = λ asset. refl }

  -- What the concrete answer must be, and what the next ledger stands for.
  abbrev pub Simulates :
      Ledger dec × Result LedgerError (Unit {0})
      → List LedgerEvent × Result LedgerError (Unit {0})
      → Type 0
  Simulates (next, answer) (log, expected) = (answer ≡ expected) × Represents next log
