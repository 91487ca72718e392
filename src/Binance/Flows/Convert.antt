-- ===== src/Binance/Flows/Convert.antt =====
-- services/collector/binance/flows/src/convert.rs
use linvesther.Prelude.{ℕ, [], ◌∷◌, Option, none, some, Result, ok, ◌>>=◌, ok_or, if◌then◌else◌}
use linvesther.Prelude.Bytes.{Bytes, bytes_eq, codes}
use linvesther.Binance.Flows.{convert, credit, debit, NormalizedFlow, FlowError, unknown_kind}

pub record RawConvert : Type 0 where
  pub quote_id : Bytes
  pub from_asset : Bytes
  pub from_amount : Bytes
  pub to_asset : Bytes
  pub to_amount : Bytes
  pub status : Bytes
  pub create_time_ms : ℕ

unfoldable pub classify_status : Bytes → Option Bytes
classify_status status =
    if bytes_eq status (codes "SUCCESS")
    then some (codes "Completed")
    else if bytes_eq status (codes "PROCESS")
    then some (codes "Requested")
    else if bytes_eq status (codes "FAIL")
    then some (codes "Failed")
    else none

unfoldable pub normalize_convert : RawConvert → Result FlowError NormalizedFlow
normalize_convert raw = do
  kind ← ok_or (classify_status raw.status) (unknown_kind convert raw.status)
  ok (record {
    source_namespace = convert;
    source_id = raw.quote_id;
    economic_time_ms = raw.create_time_ms;
    kind = kind;
    legs =
        if bytes_eq kind (codes "Completed")
        then debit raw.from_asset raw.from_amount ∷ credit raw.to_asset raw.to_amount ∷ []
        else [];
    fee = none;
  })
