-- ===== src/Binance/Pnl/Totals.antt =====
-- Lemmas and theorems on `compute_pnl` (services/collector/binance/worker/src/pnl.rs).
use linvesther.Prelude.{
  ◌≡◌, ◌∙◌, sym, ap, refl, subst, List, [], ◌∷◌, ◌++◌, append_assoc, append-nil, Option, some, Bool,
  true, false, ◌&&◌, and_then, and_then-eq-some, some-injective, Bool-cases, inl, inr,
}
use linvesther.Prelude.Bytes.{Bytes}
use linvesther.Prelude.Maps.{get, bytes_keys}
use linvesther.Domain.Decimal.{Decimals}
use linvesther.Binance.Pnl.{
  PnlEvent, acquire_event, dispose_event, withdraw_event, fee_event, PositionPnl, Lots, or_zero,
  realized_of, cost_of, unrealized_of, acquire, dispose, withdraw_over, events_loop, positions_loop,
}

module _ (dec : Decimals) where
  open dec use {Decimal, zero_dec, checked_add, eq_dec}

  -- The fees of the events added up in order, from a start.
  abbrev pub sum_fees : Decimal → List (PnlEvent dec) → Option Decimal
  sum_fees acc [] = some acc
  sum_fees acc (acquire_event asset quantity price ∷ events) = sum_fees acc events
  sum_fees acc (dispose_event asset quantity price ∷ events) = sum_fees acc events
  sum_fees acc (withdraw_event asset quantity ∷ events) = sum_fees acc events
  sum_fees acc (fee_event value ∷ events) =
      and_then (checked_add acc value) (λ next. sum_fees next events)

  abbrev pub sum_realized : Decimal → List (PositionPnl dec) → Option Decimal
  sum_realized acc [] = some acc
  sum_realized acc (p ∷ positions) =
      and_then (checked_add acc p.realized) (λ next. sum_realized next positions)

  -- A position without a cost adds zero.
  abbrev pub sum_unrealized : Decimal → List (PositionPnl dec) → Option Decimal
  sum_unrealized acc [] = some acc
  sum_unrealized acc (p ∷ positions) =
      and_then (checked_add acc (or_zero dec p.unrealized)) (λ next. sum_unrealized next positions)

  pub events_loop-fees :
      (events : List (PnlEvent dec)) (lots : Lots dec) (fees : Decimal) {done : Lots dec × Decimal}
      → events_loop dec events lots fees ≡ some done
      → sum_fees fees events ≡ some done.1
  unfolding events_loop
  events_loop-fees [] lots fees h =
      let e : (lots, fees) ≡ _ = some-injective h in ap (λ (d : Lots dec × Decimal). some d.1) e
  events_loop-fees (acquire_event asset quantity price ∷ events) lots fees h =
      let (after, bought, rest) = and_then-eq-some (acquire dec lots asset quantity price) _ h in
      events_loop-fees events after fees rest
  events_loop-fees (dispose_event asset quantity price ∷ events) lots fees h =
      let (after, sold, rest) = and_then-eq-some (dispose dec lots asset quantity price) _ h in
      events_loop-fees events after fees rest
  events_loop-fees (withdraw_event asset quantity ∷ events) lots fees h =
      let (after, taken, rest) =
        and_then-eq-some (withdraw_over dec (get asset lots) lots asset quantity) _ h in
      events_loop-fees events after fees rest
  events_loop-fees (fee_event value ∷ events) lots fees h =
      let (sum, added, rest) = and_then-eq-some (checked_add fees value) _ h in
      rw added (events_loop-fees events lots sum rest)

  -- A line of the summary, for its asset.
  pub record IsPosition (lots : Lots dec) (current marks : List (Bytes × Decimal)) (asset : Bytes)
      (p : PositionPnl dec) : Type 0 where
    pub asset_of : p.asset ≡ asset
    pub quantity_of : p.quantity ≡ or_zero dec (get asset current)
    pub mark_of : p.mark_price ≡ or_zero dec (get asset marks)
    pub realized_is : p.realized ≡ realized_of dec (get asset lots)
    pub cost_is : p.average_cost ≡ cost_of dec (get asset lots)
    pub unrealized_is : unrealized_of dec p.average_cost p.mark_price p.quantity ≡ some p.unrealized

  -- One line for each asset in order, but for those with nothing held and nothing realized.
  pub data ArePositions (lots : Lots dec) (current marks : List (Bytes × Decimal))
      : List Bytes → List (PositionPnl dec) → Type 0 where
    done : ArePositions lots current marks [] []
    skipped :
        (asset : Bytes) (assets : List Bytes) (positions : List (PositionPnl dec))
        → eq_dec (or_zero dec (get asset current)) zero_dec ≡ true
        → eq_dec (realized_of dec (get asset lots)) zero_dec ≡ true
        → ArePositions lots current marks assets positions
        → ArePositions lots current marks (asset ∷ assets) positions
    listed :
        (asset : Bytes) (assets : List Bytes) (p : PositionPnl dec)
        (positions : List (PositionPnl dec))
        → IsPosition lots current marks asset p
        → ArePositions lots current marks assets positions
        → ArePositions lots current marks (asset ∷ assets) (p ∷ positions)

  -- What a run of the loop adds to its state.
  pub record IsTotalled (lots : Lots dec) (current marks : List (Bytes × Decimal))
      (assets : List Bytes) (positions : List (PositionPnl dec)) (realized unrealized : Decimal)
      (result : List (PositionPnl dec) × Decimal × Decimal) : Type 0 where
    pub added : List (PositionPnl dec)
    pub positions_of : result.0 ≡ positions ++ added
    pub lines_of : ArePositions lots current marks assets added
    pub realized_sum : sum_realized realized added ≡ some result.1
    pub unrealized_sum : sum_unrealized unrealized added ≡ some result.2

  both : (a b : Bool) → a && b ≡ true → (a ≡ true) × (b ≡ true)
  both true b h = (refl, h)
  both false b h = cc

  pub positions_loop-IsTotalled :
      (lots : Lots dec) (current marks : List (Bytes × Decimal)) (assets : List Bytes)
      (positions : List (PositionPnl dec)) (realized unrealized : Decimal)
      {result : List (PositionPnl dec) × Decimal × Decimal}
      → positions_loop dec lots current marks assets positions realized unrealized ≡ some result
      → IsTotalled lots current marks assets positions realized unrealized result
  unfolding positions_loop
  positions_loop-IsTotalled lots current marks [] positions realized unrealized h =
      subst (λ r. IsTotalled lots current marks [] positions realized unrealized r)
        (some-injective h)
        (record {
          added = [];
          positions_of = sym (append-nil positions);
          lines_of = done;
          realized_sum = refl;
          unrealized_sum = refl;
        })
  positions_loop-IsTotalled lots current marks (asset ∷ assets) positions realized unrealized h =
      elim (Bool-cases (
        eq_dec (or_zero dec (get asset current)) zero_dec
        && eq_dec (realized_of dec (get asset lots)) zero_dec)) [
          | inl nothing ↦
              let (a, b) = both _ _ nothing in
              let run =
                positions_loop-IsTotalled lots current marks assets positions realized unrealized
                  (rw nothing at h) in
              record {
                added = run.added;
                positions_of = run.positions_of;
                lines_of = skipped asset assets run.added a b run.lines_of;
                realized_sum = run.realized_sum;
                unrealized_sum = run.unrealized_sum;
              }
          | inr something ↦
              let (value, valued, h1) =
                and_then-eq-some
                  (unrealized_of dec (cost_of dec (get asset lots)) (or_zero dec (get asset marks))
                    (or_zero dec (get asset current)))
                  _ (rw something at h) in
              let (r, radded, h2) =
                and_then-eq-some (checked_add realized (realized_of dec (get asset lots))) _ h1 in
              let (u, uadded, h3) =
                and_then-eq-some (checked_add unrealized (or_zero dec value)) _ h2 in
              let line : PositionPnl dec = record {
                asset = asset;
                quantity = or_zero dec (get asset current);
                average_cost = cost_of dec (get asset lots);
                mark_price = or_zero dec (get asset marks);
                realized = realized_of dec (get asset lots);
                unrealized = value;
              } in
              let run =
                positions_loop-IsTotalled lots current marks assets (positions ++ (line ∷ [])) r u
                  h3 in
              record {
                added = line ∷ run.added;
                positions_of = run.positions_of ∙ append_assoc positions (line ∷ []) run.added;
                lines_of =
                    listed asset assets line run.added
                      (record {
                        asset_of = refl;
                        quantity_of = refl;
                        mark_of = refl;
                        realized_is = refl;
                        cost_is = refl;
                        unrealized_is = valued;
                      })
                      run.lines_of;
                realized_sum =
                    ap (λ o. and_then o (λ next. sum_realized next run.added)) radded
                    ∙ run.realized_sum;
                unrealized_sum =
                    ap (λ o. and_then o (λ next. sum_unrealized next run.added)) uadded
                    ∙ run.unrealized_sum;
              }
        ]
