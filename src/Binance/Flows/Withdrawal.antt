-- ===== src/Binance/Flows/Withdrawal.antt =====
-- services/collector/binance/flows/src/withdrawal.rs
use linvesther.Prelude.{
  ℕ, List, [], ◌∷◌, Option, none, some, ◌&&◌, not, Result, ok, ◌>>=◌, ok_or, ◌==◌, is_empty,
  if◌then◌else◌,
}
use linvesther.Prelude.Bytes.{Bytes, bytes_eq, codes}
use linvesther.Binance.Flows.{AssetLeg, withdrawal, debit, NormalizedFlow, FlowError, unknown_kind}

pub record RawWithdrawal : Type 0 where
  pub id : Bytes
  pub asset : Bytes
  pub amount : Bytes
  pub transaction_fee : Bytes
  pub status : ℕ
  pub apply_time_ms : ℕ

unfoldable pub classify_status : ℕ → Option Bytes
classify_status code =
    if code == 0
    then some (codes "Requested")
    else if code == 2
    then some (codes "Requested")
    else if code == 4
    then some (codes "Requested")
    else if code == 6
    then some (codes "Completed")
    else if code == 1
    then some (codes "Reversed")
    else if code == 3
    then some (codes "Failed")
    else if code == 5
    then some (codes "Failed")
    else none

-- The legs and the fee of a withdrawal of a kind.
unfoldable pub legs_and_fee : RawWithdrawal → Bytes → List AssetLeg × Option AssetLeg
legs_and_fee raw kind =
    if bytes_eq kind (codes "Completed")
    then (
      debit raw.asset raw.amount ∷ [],
      if not (bytes_eq raw.transaction_fee (codes "0")) && not (is_empty raw.transaction_fee)
          then some (debit raw.asset raw.transaction_fee)
          else none,
    )
    else ([], none)

-- `to_string` writes a number in decimal.
unfoldable pub normalize_withdrawal :
    (to_string : ℕ → Bytes) → RawWithdrawal → Result FlowError NormalizedFlow
normalize_withdrawal to_string raw = do
  kind ← ok_or (classify_status raw.status) (unknown_kind withdrawal (to_string raw.status))
  ok (record {
    source_namespace = withdrawal;
    source_id = raw.id;
    economic_time_ms = raw.apply_time_ms;
    kind = kind;
    legs = (legs_and_fee raw kind).0;
    fee = (legs_and_fee raw kind).1;
  })
