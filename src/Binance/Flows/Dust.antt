-- ===== src/Binance/Flows/Dust.antt =====
-- services/collector/binance/flows/src/dust.rs
use linvesther.Prelude.{
  ℕ, List, [], ◌∷◌, ◌++◌, map, none, some, ◌&&◌, not, Result, ok, ◌>>=◌, raise_if, is_empty,
  if◌then◌else◌,
}
use linvesther.Prelude.Bytes.{Bytes, bytes_eq, codes}
use linvesther.Binance.Flows.{dust, credit, debit, NormalizedFlow, FlowError, unknown_kind}

pub record RawDustDetail : Type 0 where
  pub from_asset : Bytes
  pub amount : Bytes

pub record RawDust : Type 0 where
  pub dribblet_id : Bytes
  pub to_asset : Bytes
  pub total_transferred : Bytes
  pub total_service_charge : Bytes
  pub details : List RawDustDetail
  pub operate_time_ms : ℕ

unfoldable pub normalize_dust : RawDust → Result FlowError NormalizedFlow
normalize_dust raw = do
  _ ← raise_if (is_empty raw.details) (unknown_kind dust (codes "empty details"))
  ok (record {
    source_namespace = dust;
    source_id = raw.dribblet_id;
    economic_time_ms = raw.operate_time_ms;
    kind = codes "Completed";
    legs =
        map (λ (d : RawDustDetail). debit d.from_asset d.amount) raw.details
        ++ (credit raw.to_asset raw.total_transferred ∷ []);
    fee =
        if not (bytes_eq raw.total_service_charge (codes "0"))
          && not (is_empty raw.total_service_charge)
        then some (debit raw.to_asset raw.total_service_charge)
        else none;
  })
