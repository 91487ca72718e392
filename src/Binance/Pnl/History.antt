-- ===== src/Binance/Pnl/History.antt =====
-- The lot of an asset and what happened to that asset alone, in order
-- (services/collector/binance/worker/src/pnl.rs).
use linvesther.Prelude.{◌≡◌, ◌⊎◌, List, [], ◌∷◌, Option, none, some, true, false, if◌then◌else◌}
use linvesther.Prelude.Bytes.{Bytes, bytes_eq}
use linvesther.Prelude.Maps.{bytes_keys}
use linvesther.Domain.Decimal.{Decimals}
use linvesther.Binance.Pnl.{PnlEvent, acquire_event, dispose_event, withdraw_event, fee_event, Lot}

module _ (dec : Decimals) where
  open dec use {Decimal, zero_dec, checked_add, checked_sub, checked_mul, checked_div, lt_dec}

  -- What can happen to a lot.
  pub data Move : Type 0 where
    bought sold : (quantity price : Decimal) → Move
    taken : (quantity : Decimal) → Move

  -- The openings of one asset.
  abbrev pub opening_moves : Bytes → List (Bytes × Decimal × Decimal) → List Move
  opening_moves asset [] = []
  opening_moves asset ((a, quantity, price) ∷ openings) =
      let rest = opening_moves asset openings in
      if bytes_eq a asset then bought quantity price ∷ rest else rest

  -- The events of one asset; a fee moves no lot.
  abbrev pub event_moves : Bytes → List (PnlEvent dec) → List Move
  event_moves asset [] = []
  event_moves asset (acquire_event a quantity price ∷ events) =
      let rest = event_moves asset events in
      if bytes_eq a asset then bought quantity price ∷ rest else rest
  event_moves asset (dispose_event a quantity price ∷ events) =
      let rest = event_moves asset events in
      if bytes_eq a asset then sold quantity price ∷ rest else rest
  event_moves asset (withdraw_event a quantity ∷ events) =
      let rest = event_moves asset events in
      if bytes_eq a asset then taken quantity ∷ rest else rest
  event_moves asset (fee_event value ∷ events) = event_moves asset events

  -- The lot before a move: empty where there is none.
  abbrev pub lot_before : Option (Lot dec) → Lot dec
  lot_before none = record { held = zero_dec; average_cost = zero_dec; realized = zero_dec }
  lot_before (some lot) = lot

  -- The smaller of what is asked for and what is held.
  pub record IsMatched (before : Lot dec) (quantity matched : Decimal) : Type 0 where
    pub is_either :
        ((lt_dec before.held quantity ≡ true) × (matched ≡ before.held))
        ⊎ ((lt_dec before.held quantity ≡ false) × (matched ≡ quantity))

  -- The average cost is that of everything held, weighted by quantity.
  pub record IsWeighted (before : Lot dec) (quantity price : Decimal) (after : Lot dec)
      : Type 0 where
    pub cost_before : Decimal
    pub cost_before_of : checked_mul before.held before.average_cost ≡ some cost_before
    pub cost_added : Decimal
    pub cost_added_of : checked_mul quantity price ≡ some cost_added
    pub cost : Decimal
    pub cost_of_all : checked_add cost_before cost_added ≡ some cost
    pub average_is : checked_div cost after.held ≡ some after.average_cost

  -- Buying adds to what is held and realizes nothing.
  pub record IsBought (before : Lot dec) (quantity price : Decimal) (after : Lot dec) : Type 0 where
    pub held_is : checked_add before.held quantity ≡ some after.held
    pub realized_same : after.realized ≡ before.realized
    pub cost_is :
        ((lt_dec zero_dec after.held ≡ true) × IsWeighted before quantity price after)
        ⊎ ((lt_dec zero_dec after.held ≡ false) × (after.average_cost ≡ before.average_cost))

  -- Selling realizes the price less the average cost on what is matched, and keeps the cost.
  pub record IsSold (before : Lot dec) (quantity price : Decimal) (after : Lot dec) : Type 0 where
    pub matched : Decimal
    pub matched_of : IsMatched before quantity matched
    pub gain : Decimal
    pub gain_of : checked_sub price before.average_cost ≡ some gain
    pub profit : Decimal
    pub profit_of : checked_mul matched gain ≡ some profit
    pub realized_is : checked_add before.realized profit ≡ some after.realized
    pub held_is : checked_sub before.held matched ≡ some after.held
    pub cost_same : after.average_cost ≡ before.average_cost

  -- A withdrawal takes off what is held and realizes nothing.
  pub record IsTaken (before : Lot dec) (quantity : Decimal) (after : Lot dec) : Type 0 where
    pub matched : Decimal
    pub matched_of : IsMatched before quantity matched
    pub held_is : checked_sub before.held matched ≡ some after.held
    pub cost_same : after.average_cost ≡ before.average_cost
    pub realized_same : after.realized ≡ before.realized

  abbrev pub IsMove : Option (Lot dec) → Move → Option (Lot dec) → Type 0
  IsMove before (bought quantity price) after =
      (lot : Lot dec) × (after ≡ some lot) × IsBought (lot_before before) quantity price lot
  IsMove before (sold quantity price) after =
      (lot : Lot dec) × (after ≡ some lot) × IsSold (lot_before before) quantity price lot
  IsMove none (taken quantity) after = after ≡ none
  IsMove (some before) (taken quantity) after =
      (lot : Lot dec) × (after ≡ some lot) × IsTaken before quantity lot

  -- The lot after the moves, one after the other.
  abbrev pub AreMoves : Option (Lot dec) → List Move → Option (Lot dec) → Type 0
  AreMoves before [] after = before ≡ after
  AreMoves before (m ∷ moves) after =
      (next : Option (Lot dec)) × IsMove before m next × AreMoves next moves after
