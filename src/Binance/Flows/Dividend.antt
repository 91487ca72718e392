-- ===== src/Binance/Flows/Dividend.antt =====
-- services/collector/binance/flows/src/dividend.rs
use linvesther.Prelude.{ℕ, List, [], ◌∷◌, none, Bool, false, ◌||◌, not, Result, ok, ◌>>=◌, raise_if}
use linvesther.Prelude.Bytes.{Bytes, bytes_eq}
use linvesther.Binance.Flows.{dividend, credit, NormalizedFlow, FlowError, unknown_kind}

-- The set of reasons, as the list of those allowed.
pub record DividendReasonPolicy : Type 0 where
  pub homologated : List Bytes

unfoldable pub new : DividendReasonPolicy
new = record { homologated = [] }

unfoldable pub allow : DividendReasonPolicy → Bytes → DividendReasonPolicy
allow policy reason = record { homologated = reason ∷ policy.homologated }

unfoldable pub contains : List Bytes → Bytes → Bool
contains [] reason = false
contains (known ∷ reasons) reason = bytes_eq known reason || contains reasons reason

pub record RawDividend : Type 0 where
  pub id : Bytes
  pub asset : Bytes
  pub amount : Bytes
  pub reason : Bytes
  pub div_time_ms : ℕ

unfoldable pub normalize_dividend :
    RawDividend → DividendReasonPolicy → Result FlowError NormalizedFlow
normalize_dividend raw policy = do
  _ ← raise_if (not (contains policy.homologated raw.reason)) (unknown_kind dividend raw.reason)
  ok (record {
    source_namespace = dividend;
    source_id = raw.id;
    economic_time_ms = raw.div_time_ms;
    kind = raw.reason;
    legs = credit raw.asset raw.amount ∷ [];
    fee = none;
  })
