-- ===== src/Binance/Flows/Deposit.antt =====
-- services/collector/binance/flows/src/deposit.rs
use linvesther.Prelude.{
  ℕ, [], ◌∷◌, Option, none, some, Result, ok, ◌>>=◌, ok_or, ◌==◌, if◌then◌else◌,
}
use linvesther.Prelude.Bytes.{Bytes, bytes_eq, codes}
use linvesther.Binance.Flows.{deposit, credit, NormalizedFlow, FlowError, unknown_kind}

pub record RawDeposit : Type 0 where
  pub tx_id : Bytes
  pub asset : Bytes
  pub amount : Bytes
  pub status : ℕ
  pub insert_time_ms : ℕ

unfoldable pub classify_status : ℕ → Option Bytes
classify_status code =
    if code == 0
    then some (codes "Pending")
    else if code == 6
    then some (codes "Credited")
    else if code == 1
    then some (codes "Credited")
    else if code == 2
    then some (codes "Pending")
    else if code == 7
    then some (codes "WrongDeposit")
    else if code == 8
    then some (codes "Pending")
    else none

-- `to_string` writes a number in decimal.
unfoldable pub normalize_deposit :
    (to_string : ℕ → Bytes) → RawDeposit → Result FlowError NormalizedFlow
normalize_deposit to_string raw = do
  kind ← ok_or (classify_status raw.status) (unknown_kind deposit (to_string raw.status))
  ok (record {
    source_namespace = deposit;
    source_id = raw.tx_id;
    economic_time_ms = raw.insert_time_ms;
    kind = kind;
    legs = if bytes_eq kind (codes "Credited") then credit raw.asset raw.amount ∷ [] else [];
    fee = none;
  })
