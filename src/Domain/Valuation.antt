-- ===== src/Domain/Valuation.antt =====
-- crates/domain/valuation: quantities at a common cut, and the value of an account there.
pub mod Laws
pub mod Sums
use linvesther.Prelude.{
  ℕ, List, [], ◌∷◌, ◌++◌, Option, none, some, Bool, true, false, ◌&&◌, Result, ok, err, ◌>>=◌,
  and_then, map_err, ok_or, ltb, leb, ◌==◌, if◌then◌else◌,
}
use linvesther.Prelude.Bytes.{Bytes}
use linvesther.Prelude.Maps.{get, bytes_keys}
use linvesther.Domain.Decimal.{Decimals, Stop, raised, panic, or_panic}

pub data ReconstructError : Type 0 where
  ambiguous_ordering : (event_time_ms snapshot_time_ms : ℕ) → ReconstructError

pub data ValuationError : Type 0 where
  asset_ambiguous_ordering : (asset : Bytes) (source : ReconstructError) → ValuationError
  unsupported_asset : (asset : Bytes) → ValuationError

-- A failure of one asset's reconstruction, as one of the valuation.
abbrev pub with_asset : Bytes → Stop ReconstructError → Stop ValuationError
with_asset asset (raised source) = raised (asset_ambiguous_ordering asset source)
with_asset asset panic = panic

module _ (dec : Decimals) where
  open dec use {Decimal, zero_dec, checked_add, checked_sub, checked_mul}

  pub record BalanceSnapshot : Type 0 where
    pub free : Decimal
    pub locked : Decimal
    pub observed_at_ms : ℕ

  unfoldable pub total : BalanceSnapshot → Option Decimal
  total snapshot = checked_add snapshot.free snapshot.locked

  pub record TimedDelta : Type 0 where
    pub time_ms : ℕ
    pub delta : Decimal

  -- The loop that refuses an event at the instant of the snapshot.
  unfoldable pub check_ordering : ℕ → List TimedDelta → Result (Stop ReconstructError) (Unit {0})
  check_ordering observed [] = ok tt
  check_ordering observed (event ∷ events) =
      if event.time_ms == observed
      then err (raised (ambiguous_ordering event.time_ms observed))
      else check_ordering observed events

  -- The loop of `+=` over the events after the snapshot, up to the cut.
  unfoldable pub apply_events : (observed cut_ms : ℕ) → List TimedDelta → Decimal → Option Decimal
  apply_events observed cut_ms [] quantity = some quantity
  apply_events observed cut_ms (event ∷ events) quantity =
      and_then
        (if ltb observed event.time_ms && leb event.time_ms cut_ms
          then checked_add quantity event.delta
          else some quantity)
        (λ q. apply_events observed cut_ms events q)

  -- The loop of `-=` over the events after the cut, up to the snapshot.
  unfoldable pub undo_events : (observed cut_ms : ℕ) → List TimedDelta → Decimal → Option Decimal
  undo_events observed cut_ms [] quantity = some quantity
  undo_events observed cut_ms (event ∷ events) quantity =
      and_then
        (if ltb cut_ms event.time_ms && leb event.time_ms observed
          then checked_sub quantity event.delta
          else some quantity)
        (λ q. undo_events observed cut_ms events q)

  unfoldable pub reconstruct_quantity :
      BalanceSnapshot → List TimedDelta → ℕ → Result (Stop ReconstructError) Decimal
  reconstruct_quantity snapshot events cut_ms = do
    _ ← check_ordering snapshot.observed_at_ms events
    quantity ← or_panic (total snapshot)
    if leb snapshot.observed_at_ms cut_ms
        then or_panic (apply_events snapshot.observed_at_ms cut_ms events quantity)
        else or_panic (undo_events snapshot.observed_at_ms cut_ms events quantity)

  pub record AssetValuation : Type 0 where
    pub asset : Bytes
    pub quantity : Decimal
    pub price : Decimal
    pub value : Decimal

  pub record Valuation : Type 0 where
    pub cut_ms : ℕ
    pub assets : List AssetValuation
    pub nav : Decimal

  pub record AssetInput : Type 0 where
    pub asset : Bytes
    pub snapshot : BalanceSnapshot
    pub events : List TimedDelta

  -- The body of the loop for one input, up to the value.
  unfoldable pub value_asset :
      List (Bytes × Decimal) → ℕ → AssetInput → Result (Stop ValuationError) AssetValuation
  value_asset prices cut_ms input = do
    quantity ←
        map_err (with_asset input.asset) (reconstruct_quantity input.snapshot input.events cut_ms)
    price ← ok_or (get input.asset prices) (raised (unsupported_asset input.asset))
    value ← or_panic (checked_mul quantity price)
    ok (record { asset = input.asset; quantity = quantity; price = price; value = value })

  -- The loop, with `assets` and `nav`.
  unfoldable pub value_loop :
      List (Bytes × Decimal)
      → ℕ
      → List AssetInput
      → List AssetValuation
      → Decimal
      → Result (Stop ValuationError) Valuation
  value_loop prices cut_ms [] assets nav =
      ok (record { cut_ms = cut_ms; assets = assets; nav = nav })
  value_loop prices cut_ms (input ∷ inputs) assets nav = do
    asset ← value_asset prices cut_ms input
    sum ← or_panic (checked_add nav asset.value)
    value_loop prices cut_ms inputs (assets ++ (asset ∷ [])) sum

  unfoldable pub value_at_cut :
      List AssetInput → List (Bytes × Decimal) → ℕ → Result (Stop ValuationError) Valuation
  value_at_cut inputs prices cut_ms = value_loop prices cut_ms inputs [] zero_dec
