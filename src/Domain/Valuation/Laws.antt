-- ===== src/Domain/Valuation/Laws.antt =====
-- Lemmas and theorems on `reconstruct_quantity` and `value_at_cut` (crates/domain/valuation).
use linvesther.Prelude.{
  ℕ, ◌≢◌, List, [], ◌∷◌, Option, some, ◌&&◌, and_then, All, ltb, leb, if◌then◌else◌,
}
use linvesther.Prelude.Maps.{bytes_keys}
use linvesther.Domain.Decimal.{Decimals}
use linvesther.Domain.Valuation.{BalanceSnapshot, TimedDelta, total}

module _ (dec : Decimals) where
  open dec use {Decimal, zero_dec, checked_add, checked_sub, checked_mul}

  -- The events strictly after one instant, up to and including another.
  abbrev pub between : ℕ → ℕ → List (TimedDelta dec) → List Decimal
  between from_ms to_ms [] = []
  between from_ms to_ms (event ∷ events) =
      if ltb from_ms event.time_ms && leb event.time_ms to_ms
      then event.delta ∷ between from_ms to_ms events
      else between from_ms to_ms events

  -- A partial operation over a list, from the left.
  abbrev pub fold_checked :
      (Decimal → Decimal → Option Decimal) → Decimal → List Decimal → Option Decimal
  fold_checked f q [] = some q
  fold_checked f q (d ∷ ds) = and_then (f q d) (λ r. fold_checked f r ds)

  -- No event stands at the instant.
  abbrev pub NoneAt : ℕ → List (TimedDelta dec) → Type 0
  NoneAt observed events = All (λ event. event.time_ms ≢ observed) events

  -- The quantity at the cut, from the balance that was observed.
  abbrev pub quantity_at : BalanceSnapshot dec → List (TimedDelta dec) → ℕ → Option Decimal
  quantity_at snapshot events cut_ms = and_then (total dec snapshot) (λ q.
      if leb snapshot.observed_at_ms cut_ms
      then fold_checked checked_add q (between snapshot.observed_at_ms cut_ms events)
      else fold_checked checked_sub q (between cut_ms snapshot.observed_at_ms events))
