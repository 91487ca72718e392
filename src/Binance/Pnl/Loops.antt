-- ===== src/Binance/Pnl/Loops.antt =====
-- The lots after the loops of `compute_pnl` (services/collector/binance/worker/src/pnl.rs) and the
-- history of each asset.
use linvesther.Prelude.{
  ◌≡◌, inl, inr, sym, ap, subst, List, [], ◌∷◌, ◌++◌, Option, none, some, and_then-eq-some,
  some-injective, Bool-cases, if◌then◌else◌,
}
use linvesther.Prelude.Bytes.{Bytes, bytes_eq, bytes_eq→eq}
use linvesther.Prelude.Maps.{get, bytes_keys}
use linvesther.Domain.Decimal.{Decimals}
use linvesther.Binance.Pnl.{
  PnlEvent, acquire_event, dispose_event, withdraw_event, fee_event, Lot, Lots, acquire, dispose,
  withdraw_over, openings_loop, events_loop,
}
use linvesther.Binance.Pnl.History.{
  Move, bought, sold, taken, opening_moves, event_moves, IsMove, AreMoves,
}
use linvesther.Binance.Pnl.Steps.{IsStep, acquire-IsStep, dispose-IsStep, withdraw_over-IsStep}

module _ (dec : Decimals) where
  open dec use {Decimal, checked_add}

  -- A step before the moves of an asset.
  IsStep-AreMoves :
      (lots after : Lots dec) (a asset : Bytes) (m : Move dec) (moves : List (Move dec))
      (result : Option (Lot dec))
      → IsStep dec lots a m after
      → AreMoves dec (get asset after) moves result
      → AreMoves dec (get asset lots) (if bytes_eq a asset then m ∷ moves else moves) result
  IsStep-AreMoves lots after a asset m moves result step rest =
      elim (Bool-cases (bytes_eq a asset)) [
        | inl same ↦
            let own =
              subst (λ s. IsMove dec (get s lots) m (get s after)) (bytes_eq→eq a asset same)
                step.own in
            rw same (get asset after, own, rest)
        | inr other ↦
            rw other (subst (λ o. AreMoves dec o moves result) (step.others asset other) rest)
      ]

  AreMoves-append :
      (first_ second : List (Move dec)) (before middle after : Option (Lot dec))
      → AreMoves dec before first_ middle
      → AreMoves dec middle second after
      → AreMoves dec before (first_ ++ second) after
  AreMoves-append [] second before middle after same rest =
      subst (λ o. AreMoves dec o second after) (sym same) rest
  AreMoves-append (m ∷ first_) second before middle after (next, moved, more) rest =
      (next, moved, AreMoves-append first_ second next middle after more rest)

  openings_loop-AreMoves :
      (openings : List (Bytes × Decimal × Decimal)) (lots : Lots dec) {opened : Lots dec}
      (asset : Bytes)
      → openings_loop dec openings lots ≡ some opened
      → AreMoves dec (get asset lots) (opening_moves dec asset openings) (get asset opened)
  unfolding openings_loop
  openings_loop-AreMoves [] lots asset h = ap (λ (l : Lots dec). get asset l) (some-injective h)
  openings_loop-AreMoves ((a, quantity, price) ∷ openings) lots {opened} asset h =
      let (after, bought_, rest) = and_then-eq-some (acquire dec lots a quantity price) _ h in
      IsStep-AreMoves lots after a asset (bought quantity price) (opening_moves dec asset openings)
        (get asset opened) (acquire-IsStep dec lots a quantity price bought_)
        (openings_loop-AreMoves openings after asset rest)

  events_loop-AreMoves :
      (events : List (PnlEvent dec)) (lots : Lots dec) (fees : Decimal) {done : Lots dec × Decimal}
      (asset : Bytes)
      → events_loop dec events lots fees ≡ some done
      → AreMoves dec (get asset lots) (event_moves dec asset events) (get asset done.0)
  unfolding events_loop
  events_loop-AreMoves [] lots fees asset h =
      let e : (lots, fees) ≡ _ = some-injective h in
      ap (λ (d : Lots dec × Decimal). get asset d.0) e
  events_loop-AreMoves (acquire_event a quantity price ∷ events) lots fees {done} asset h =
      let (after, moved, rest) = and_then-eq-some (acquire dec lots a quantity price) _ h in
      IsStep-AreMoves lots after a asset (bought quantity price) (event_moves dec asset events)
        (get asset done.0) (acquire-IsStep dec lots a quantity price moved)
        (events_loop-AreMoves events after fees asset rest)
  events_loop-AreMoves (dispose_event a quantity price ∷ events) lots fees {done} asset h =
      let (after, moved, rest) = and_then-eq-some (dispose dec lots a quantity price) _ h in
      IsStep-AreMoves lots after a asset (sold quantity price) (event_moves dec asset events)
        (get asset done.0) (dispose-IsStep dec lots a quantity price moved)
        (events_loop-AreMoves events after fees asset rest)
  events_loop-AreMoves (withdraw_event a quantity ∷ events) lots fees {done} asset h =
      let (after, moved, rest) =
        and_then-eq-some (withdraw_over dec (get a lots) lots a quantity) _ h in
      IsStep-AreMoves lots after a asset (taken quantity) (event_moves dec asset events)
        (get asset done.0) (withdraw_over-IsStep dec lots a quantity moved)
        (events_loop-AreMoves events after fees asset rest)
  events_loop-AreMoves (fee_event value ∷ events) lots fees asset h =
      let (sum, added, rest) = and_then-eq-some (checked_add fees value) _ h in
      events_loop-AreMoves events lots sum asset rest

  -- Every lot at the end is that of its asset's history: its openings, then its events.
  pub lots-AreMoves :
      (openings : List (Bytes × Decimal × Decimal)) (events : List (PnlEvent dec))
      (opened : Lots dec) (done : Lots dec × Decimal) (fees : Decimal) (asset : Bytes)
      → openings_loop dec openings [] ≡ some opened
      → events_loop dec events opened fees ≡ some done
      → AreMoves dec none
          (opening_moves dec asset openings ++ event_moves dec asset events)
          (get asset done.0)
  unfolding get
  lots-AreMoves openings events opened done fees asset opening moving =
      AreMoves-append (opening_moves dec asset openings) (event_moves dec asset events) none
        (get asset opened) (get asset done.0) (openings_loop-AreMoves openings [] asset opening)
        (events_loop-AreMoves events opened fees asset moving)
