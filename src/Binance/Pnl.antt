-- ===== src/Binance/Pnl.antt =====
-- services/collector/binance/worker/src/pnl.rs: profit and loss at average cost. An operator that
-- panics is `none`.
pub mod History
pub mod Steps
pub mod Loops
pub mod Assets
pub mod Totals
pub mod Lines
pub mod Accounted
use linvesther.Prelude.{
  List, [], ◌∷◌, ◌++◌, Option, none, some, Bool, true, false, ◌&&◌, not, and_then, if◌then◌else◌,
}
use linvesther.Prelude.Bytes.{Bytes, bytes_eq}
use linvesther.Prelude.Maps.{get, insert, keys_of, bytes_lt, bytes_keys}
use linvesther.Prelude.Sort.{sort_by}
use linvesther.Domain.Decimal.{Decimals}

module _ (dec : Decimals) where
  open dec use {
    Decimal, zero_dec, checked_add, checked_sub, checked_mul, checked_div, lt_dec, eq_dec,
  }

  pub data PnlEvent : Type 0 where
    acquire_event : (asset : Bytes) (quantity unit_price : Decimal) → PnlEvent
    dispose_event : (asset : Bytes) (quantity unit_price : Decimal) → PnlEvent
    withdraw_event : (asset : Bytes) (quantity : Decimal) → PnlEvent
    fee_event : (value : Decimal) → PnlEvent

  pub record PositionPnl : Type 0 where
    pub asset : Bytes
    pub quantity : Decimal
    pub average_cost : Option Decimal
    pub mark_price : Decimal
    pub realized : Decimal
    pub unrealized : Option Decimal

  pub record PnlSummary : Type 0 where
    pub positions : List PositionPnl
    pub realized : Decimal
    pub unrealized : Decimal
    pub fees : Decimal

  pub record Lot : Type 0 where
    pub held : Decimal
    pub average_cost : Decimal
    pub realized : Decimal

  abbrev pub Lots : Type 0
  Lots = List (Bytes × Lot)

  -- `or_insert` of an empty lot.
  abbrev pub or_new_lot : Option Lot → Lot
  or_new_lot none = record { held = zero_dec; average_cost = zero_dec; realized = zero_dec }
  or_new_lot (some lot) = lot

  -- `unwrap_or(Decimal::ZERO)`
  abbrev pub or_zero : Option Decimal → Decimal
  or_zero none = zero_dec
  or_zero (some d) = d

  -- `Decimal::min`
  abbrev pub min_dec : Decimal → Decimal → Decimal
  min_dec a b = if lt_dec b a then b else a

  -- The average cost after buying, where anything is held.
  unfoldable pub average_of : Lot → (quantity price total : Decimal) → Option Decimal
  average_of lot quantity price total =
      if lt_dec zero_dec total
      then and_then (checked_mul lot.held lot.average_cost) (λ before.
        and_then (checked_mul quantity price)
          (λ added. and_then (checked_add before added) (λ cost. checked_div cost total)))
      else some lot.average_cost

  unfoldable pub acquire : Lots → Bytes → (quantity price : Decimal) → Option Lots
  acquire lots asset quantity price =
      let lot = or_new_lot (get asset lots) in
      and_then (checked_add lot.held quantity) (λ total.
        and_then (average_of lot quantity price total) (λ average_cost. some (
          insert asset
            (record { held = total; average_cost = average_cost; realized = lot.realized }) lots)))

  unfoldable pub dispose : Lots → Bytes → (quantity unit_price : Decimal) → Option Lots
  dispose lots asset quantity unit_price =
      let lot = or_new_lot (get asset lots) in
      let matched = min_dec quantity lot.held in
      and_then (checked_sub unit_price lot.average_cost) (λ gain.
        and_then (checked_mul matched gain) (λ profit.
          and_then (checked_add lot.realized profit) (λ realized.
            and_then (checked_sub lot.held matched) (λ held. some (
              insert asset
                (record { held = held; average_cost = lot.average_cost; realized = realized })
                lots)))))

  -- `if let Some(lot)`
  unfoldable pub withdraw_over : Option Lot → Lots → Bytes → Decimal → Option Lots
  withdraw_over none lots asset quantity = some lots
  withdraw_over (some lot) lots asset quantity =
      and_then (checked_sub lot.held (min_dec quantity lot.held)) (λ held. some (
        insert asset
          (record { held = held; average_cost = lot.average_cost; realized = lot.realized }) lots))

  unfoldable pub openings_loop : List (Bytes × Decimal × Decimal) → Lots → Option Lots
  openings_loop [] lots = some lots
  openings_loop ((asset, quantity, price) ∷ openings) lots =
      and_then (acquire lots asset quantity price) (λ after. openings_loop openings after)

  -- The loop over the events, with `lots` and `fees`.
  unfoldable pub events_loop : List PnlEvent → Lots → Decimal → Option (Lots × Decimal)
  events_loop [] lots fees = some (lots, fees)
  events_loop (acquire_event asset quantity unit_price ∷ events) lots fees =
      and_then (acquire lots asset quantity unit_price) (λ after. events_loop events after fees)
  events_loop (dispose_event asset quantity unit_price ∷ events) lots fees =
      and_then (dispose lots asset quantity unit_price) (λ after. events_loop events after fees)
  events_loop (withdraw_event asset quantity ∷ events) lots fees =
      and_then (withdraw_over (get asset lots) lots asset quantity)
        (λ after. events_loop events after fees)
  events_loop (fee_event value ∷ events) lots fees =
      and_then (checked_add fees value) (λ sum. events_loop events lots sum)

  -- `dedup` of neighbours.
  unfoldable pub dedup_after : Bytes → List Bytes → List Bytes
  dedup_after asset [] = []
  dedup_after asset (next ∷ assets) =
      let rest = dedup_after next assets in if bytes_eq asset next then rest else next ∷ rest

  unfoldable pub dedup : List Bytes → List Bytes
  dedup [] = []
  dedup (asset ∷ assets) = asset ∷ dedup_after asset assets

  unfoldable pub assets_of : Lots → List (Bytes × Decimal) → List Bytes
  assets_of lots current_quantities =
      dedup (sort_by (λ a b. not (bytes_lt b a)) (keys_of lots ++ keys_of current_quantities))

  abbrev pub realized_of : Option Lot → Decimal
  realized_of none = zero_dec
  realized_of (some lot) = lot.realized

  abbrev pub cost_of : Option Lot → Option Decimal
  cost_of none = none
  cost_of (some lot) = if lt_dec zero_dec lot.held then some lot.average_cost else none

  -- `average_cost.map(|cost| (mark_price - cost) * quantity)`; the outer option is a panic.
  abbrev pub unrealized_of :
      Option Decimal → (mark_price quantity : Decimal) → Option (Option Decimal)
  unrealized_of none mark_price quantity = some none
  unrealized_of (some cost) mark_price quantity =
      and_then (checked_sub mark_price cost)
        (λ gain. and_then (checked_mul gain quantity) (λ value. some (some value)))

  -- The loop over the assets, with `positions` and the two totals.
  unfoldable pub positions_loop :
      Lots
      → (current_quantities marks : List (Bytes × Decimal)) → List Bytes
      → List PositionPnl
      → (realized_total unrealized_total : Decimal) → Option (List PositionPnl × Decimal × Decimal)
  positions_loop lots current marks [] positions realized_total unrealized_total =
      some (positions, realized_total, unrealized_total)
  positions_loop lots current marks (asset ∷ assets) positions realized_total unrealized_total =
      let quantity = or_zero (get asset current) in
      let realized = realized_of (get asset lots) in
      let mark_price = or_zero (get asset marks) in
      let average_cost = cost_of (get asset lots) in
      if eq_dec quantity zero_dec && eq_dec realized zero_dec
      then positions_loop lots current marks assets positions realized_total unrealized_total
      else and_then (unrealized_of average_cost mark_price quantity) (λ unrealized.
        and_then (checked_add realized_total realized) (λ realized_sum.
          and_then (checked_add unrealized_total (or_zero unrealized)) (λ unrealized_sum.
            positions_loop lots current marks assets
              (positions
                ++ (record {
                  asset = asset;
                  quantity = quantity;
                  average_cost = average_cost;
                  mark_price = mark_price;
                  realized = realized;
                  unrealized = unrealized;
                }
                    ∷ []))
              realized_sum unrealized_sum)))

  unfoldable pub compute_pnl :
      (openings : List (Bytes × Decimal × Decimal)) (events : List PnlEvent)
      (current_quantities marks : List (Bytes × Decimal))
      → Option PnlSummary
  compute_pnl openings events current_quantities marks =
      and_then (openings_loop openings []) (λ opened.
        and_then (events_loop events opened zero_dec) (λ done.
          and_then
            (positions_loop done.0 current_quantities marks (assets_of done.0 current_quantities) []
              zero_dec zero_dec)
            (λ listed. some (record {
              positions = listed.0;
              realized = listed.1;
              unrealized = listed.2;
              fees = done.1;
            }))))
