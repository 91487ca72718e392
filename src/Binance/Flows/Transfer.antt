-- ===== src/Binance/Flows/Transfer.antt =====
-- services/collector/binance/flows/src/transfer.rs
use linvesther.Prelude.{ℕ, List, [], ◌∷◌, none, Result, ok, ◌>>=◌, ok_or}
use linvesther.Prelude.Bytes.{Bytes}
use linvesther.Prelude.Maps.{get, insert, bytes_keys}
use linvesther.Binance.Flows.{
  AssetLeg, transfer, credit, debit, NormalizedFlow, FlowError, unknown_kind,
}

pub data TransferDirection : Type 0 where
  into_spot : TransferDirection
  out_of_spot : TransferDirection

pub record TransferTypePolicy : Type 0 where
  pub directions : List (Bytes × TransferDirection)

unfoldable pub new : TransferTypePolicy
new = record { directions = [] }

unfoldable pub allow : TransferTypePolicy → Bytes → TransferDirection → TransferTypePolicy
allow policy type_code direction = record {
  directions = insert type_code direction policy.directions;
}

pub record RawTransfer : Type 0 where
  pub tran_id : Bytes
  pub asset : Bytes
  pub amount : Bytes
  pub transfer_type : Bytes
  pub timestamp_ms : ℕ

unfoldable pub leg_of : RawTransfer → TransferDirection → AssetLeg
leg_of raw into_spot = credit raw.asset raw.amount
leg_of raw out_of_spot = debit raw.asset raw.amount

unfoldable pub normalize_transfer :
    RawTransfer → TransferTypePolicy → Result FlowError NormalizedFlow
normalize_transfer raw policy = do
  direction ←
      ok_or (get raw.transfer_type policy.directions) (unknown_kind transfer raw.transfer_type)
  ok (record {
    source_namespace = transfer;
    source_id = raw.tran_id;
    economic_time_ms = raw.timestamp_ms;
    kind = raw.transfer_type;
    legs = leg_of raw direction ∷ [];
    fee = none;
  })
