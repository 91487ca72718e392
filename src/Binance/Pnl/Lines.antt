-- ===== src/Binance/Pnl/Lines.antt =====
-- The lines of a summary of profit and loss (services/collector/binance/worker/src/pnl.rs), by what
-- they say.
use linvesther.Prelude.{
  ◌≡◌, ◌⊎◌, inl, inr, ◌∙◌, refl, sym, ap, subst, List, [], ◌∷◌, Option, none, some, true, false,
  and_then, and_then-eq-some, some-injective, fun_ext, Bool-cases,
}
use linvesther.Prelude.Bytes.{Bytes}
use linvesther.Prelude.Maps.{get, bytes_keys}
use linvesther.Domain.Decimal.{Decimals}
use linvesther.Binance.Pnl.{PositionPnl, Lot, Lots, or_zero, realized_of, cost_of, unrealized_of}
use linvesther.Binance.Pnl.Totals.{ArePositions, done, skipped, listed, sum_unrealized}

module _ (dec : Decimals) where
  open dec use {Decimal, zero_dec, checked_add, checked_sub, checked_mul, lt_dec, eq_dec}

  -- A missing entry counts as zero.
  abbrev pub amount_at : Option Decimal → Decimal
  amount_at none = zero_dec
  amount_at (some d) = d

  abbrev pub gain_at : Option (Lot dec) → Decimal
  gain_at none = zero_dec
  gain_at (some lot) = lot.realized

  -- The cost of a line: that of the lot, if anything is held in it.
  abbrev pub IsCost : Option (Lot dec) → Option Decimal → Type 0
  IsCost none cost = cost ≡ none
  IsCost (some lot) cost =
      ((lt_dec zero_dec lot.held ≡ true) × (cost ≡ some lot.average_cost))
      ⊎ ((lt_dec zero_dec lot.held ≡ false) × (cost ≡ none))

  -- The unrealized gain: the mark price less the cost, times the quantity, where there is a cost.
  abbrev pub IsUnrealized :
      (cost : Option Decimal) (mark_price quantity : Decimal) (unrealized : Option Decimal) → Type 0
  IsUnrealized none mark_price quantity unrealized = unrealized ≡ none
  IsUnrealized (some cost) mark_price quantity unrealized =
      (gain : Decimal) × (value : Decimal) × (checked_sub mark_price cost ≡ some gain)
      × (checked_mul gain quantity ≡ some value)
      × (unrealized ≡ some value)

  -- The line of an asset.
  pub record IsLine (lots : Lots dec) (current marks : List (Bytes × Decimal)) (asset : Bytes)
      (p : PositionPnl dec) : Type 0 where
    pub asset_is : p.asset ≡ asset
    pub quantity_is : p.quantity ≡ amount_at (get asset current)
    pub mark_is : p.mark_price ≡ amount_at (get asset marks)
    pub realized_is : p.realized ≡ gain_at (get asset lots)
    pub cost_is : IsCost (get asset lots) p.average_cost
    pub unrealized_is : IsUnrealized p.average_cost p.mark_price p.quantity p.unrealized

  -- One line for each asset in order, but for those with nothing now and nothing realized.
  pub data AreLines (lots : Lots dec) (current marks : List (Bytes × Decimal))
      : List Bytes → List (PositionPnl dec) → Type 0 where
    no_line : AreLines lots current marks [] []
    left_out :
        (asset : Bytes) (assets : List Bytes) (positions : List (PositionPnl dec))
        → eq_dec (amount_at (get asset current)) zero_dec ≡ true
        → eq_dec (gain_at (get asset lots)) zero_dec ≡ true
        → AreLines lots current marks assets positions
        → AreLines lots current marks (asset ∷ assets) positions
    line :
        (asset : Bytes) (assets : List Bytes) (p : PositionPnl dec)
        (positions : List (PositionPnl dec))
        → IsLine lots current marks asset p
        → AreLines lots current marks assets positions
        → AreLines lots current marks (asset ∷ assets) (p ∷ positions)

  -- The unrealized gains added up in order; a line without one adds zero.
  abbrev pub sum_open : Decimal → List (PositionPnl dec) → Option Decimal
  sum_open acc [] = some acc
  sum_open acc (p ∷ positions) =
      and_then (checked_add acc (amount_at p.unrealized)) (λ next. sum_open next positions)

  or_zero-eq-amount : (o : Option Decimal) → or_zero dec o ≡ amount_at o
  or_zero-eq-amount none = refl
  or_zero-eq-amount (some d) = refl

  realized_of-eq-gain : (o : Option (Lot dec)) → realized_of dec o ≡ gain_at o
  realized_of-eq-gain none = refl
  realized_of-eq-gain (some lot) = refl

  cost_of-IsCost : (o : Option (Lot dec)) → IsCost o (cost_of dec o)
  cost_of-IsCost none = refl
  cost_of-IsCost (some lot) = elim (Bool-cases (lt_dec zero_dec lot.held)) [
    | inl held ↦ inl (held, rw held refl)
    | inr empty ↦ inr (empty, rw empty refl)
  ]

  unrealized_of-IsUnrealized :
      (cost : Option Decimal) (mark_price quantity : Decimal) {unrealized : Option Decimal}
      → unrealized_of dec cost mark_price quantity ≡ some unrealized
      → IsUnrealized cost mark_price quantity unrealized
  unrealized_of-IsUnrealized none mark_price quantity h = sym (some-injective h)
  unrealized_of-IsUnrealized (some cost) mark_price quantity h =
      let (gain, subtracted, h1) = and_then-eq-some (checked_sub mark_price cost) _ h in
      let (value, multiplied, h2) = and_then-eq-some (checked_mul gain quantity) _ h1 in
      (gain, value, subtracted, multiplied, sym (some-injective h2))

  pub ArePositions-AreLines :
      (lots : Lots dec) (current marks : List (Bytes × Decimal)) (assets : List Bytes)
      (positions : List (PositionPnl dec))
      → ArePositions dec lots current marks assets positions
      → AreLines lots current marks assets positions
  ArePositions-AreLines lots current marks [] [] done = no_line
  ArePositions-AreLines lots current marks [] (p ∷ positions) h = elim h [ ]
  ArePositions-AreLines lots current marks (asset ∷ assets) positions
        (skipped _ _ _ nothing no_gain rest) =
      left_out asset assets positions
        (subst (λ d. eq_dec d zero_dec ≡ true) (or_zero-eq-amount (get asset current)) nothing)
        (subst (λ d. eq_dec d zero_dec ≡ true) (realized_of-eq-gain (get asset lots)) no_gain)
        (ArePositions-AreLines lots current marks assets positions rest)
  ArePositions-AreLines lots current marks (asset ∷ assets) (p ∷ positions)
        (listed _ _ _ _ is rest) =
      line asset assets p positions
        (record {
          asset_is = is.asset_of;
          quantity_is = is.quantity_of ∙ or_zero-eq-amount (get asset current);
          mark_is = is.mark_of ∙ or_zero-eq-amount (get asset marks);
          realized_is = is.realized_is ∙ realized_of-eq-gain (get asset lots);
          cost_is =
              subst (IsCost (get asset lots)) (sym is.cost_is) (cost_of-IsCost (get asset lots));
          unrealized_is =
              unrealized_of-IsUnrealized p.average_cost p.mark_price p.quantity is.unrealized_is;
        })
        (ArePositions-AreLines lots current marks assets positions rest)

  pub sum_unrealized-eq-open :
      (acc : Decimal) (positions : List (PositionPnl dec))
      → sum_unrealized dec acc positions ≡ sum_open acc positions
  sum_unrealized-eq-open acc [] = refl
  sum_unrealized-eq-open acc (p ∷ positions) = rw (or_zero-eq-amount p.unrealized) (
      ap (λ f. and_then (checked_add acc (amount_at p.unrealized)) f)
        (fun_ext (λ next. sum_unrealized-eq-open next positions)))
