-- ===== src/Binance/Flows.antt =====
-- services/collector/binance/flows/src/common.rs: a movement of assets in one form for every source.
pub mod Deposit
pub mod Withdrawal
pub mod Convert
pub mod Transfer
pub mod Dust
pub mod Dividend
pub mod Settled
use linvesther.Prelude.{ℕ, List, Option, Bool, true, false}
use linvesther.Prelude.Bytes.{Bytes, codes}

pub data FlowFamily : Type 0 where
  deposit : FlowFamily
  withdrawal : FlowFamily
  transfer : FlowFamily
  convert : FlowFamily
  dust : FlowFamily
  dividend : FlowFamily

-- `Display`
unfoldable pub family_name : FlowFamily → Bytes
family_name deposit = codes "deposit"
family_name withdrawal = codes "withdrawal"
family_name transfer = codes "transfer"
family_name convert = codes "convert"
family_name dust = codes "dust"
family_name dividend = codes "dividend"

pub record AssetLeg : Type 0 where
  pub asset : Bytes
  pub amount : Bytes
  pub is_credit : Bool

unfoldable pub credit : (asset amount : Bytes) → AssetLeg
credit asset amount = record { asset = asset; amount = amount; is_credit = true }

unfoldable pub debit : (asset amount : Bytes) → AssetLeg
debit asset amount = record { asset = asset; amount = amount; is_credit = false }

pub record NormalizedFlow : Type 0 where
  pub source_namespace : FlowFamily
  pub source_id : Bytes
  pub economic_time_ms : ℕ
  pub kind : Bytes
  pub legs : List AssetLeg
  pub fee : Option AssetLeg

pub data FlowError : Type 0 where
  unknown_kind : (family : FlowFamily) (code : Bytes) → FlowError
