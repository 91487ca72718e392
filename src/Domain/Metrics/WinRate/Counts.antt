-- ===== src/Domain/Metrics/WinRate/Counts.antt =====
-- Lemmas and theorems on `compute_win_rate` (crates/domain/metrics/src/winrate.rs): its counts.
use linvesther.Prelude.{
  ℕ, zero, suc, ◌≡◌, ◌≤◌, ◌<◌, List, [], ◌∷◌, some, ok, >>=-eq-ok, ok-injective, subst, Bool-cases,
  inl, inr, arith, length, ◌==◌,
}
use linvesther.Domain.Decimal.{Decimals, or_panic, or_panic-eq-ok}
use linvesther.Domain.Metrics.WinRate.{
  Fill, WinRateResult, Matching, min_dec, count_win, match_lot, match_loop, fills_loop, in_order,
  win_rate_of, compute_win_rate,
}

module _ (dec : Decimals) where
  open dec use {Decimal, zero_dec, checked_sub, checked_mul, checked_div, lt_dec, eq_dec, from_u64}

  count_win-le :
      (pnl : Decimal) (wins closed : ℕ) → wins ≤ closed → count_win dec pnl wins ≤ suc closed
  unfolding count_win
  count_win-le pnl wins closed h = elim (Bool-cases (lt_dec zero_dec pnl)) [
    | inl won ↦ rw won (omega arith)
    | inr lost ↦ rw lost (omega arith)
  ]

  match_lot-le :
      (price remaining lot_qty lot_price : Decimal) (lots : List (Decimal × Decimal))
      (wins closed : ℕ) {step : Decimal × Matching dec}
      → wins ≤ closed
      → match_lot dec price remaining lot_qty lot_price lots wins closed ≡ ok step
      → step.1.wins ≤ step.1.closed
  unfolding match_lot
  match_lot-le price remaining lot_qty lot_price lots wins closed {step} le h =
      let matched = min_dec dec remaining lot_qty in
      let (gain, h0, h1) = >>=-eq-ok (or_panic (checked_sub price lot_price)) _ h in
      let (pnl, h2, h3) = >>=-eq-ok (or_panic (checked_mul gain matched)) _ h1 in
      let (left, h4, h5) = >>=-eq-ok (or_panic (checked_sub remaining matched)) _ h3 in
      let (rest, h6, h7) = >>=-eq-ok (or_panic (checked_sub lot_qty matched)) _ h5 in
      subst (λ (s : Decimal × Matching dec). s.1.wins ≤ s.1.closed) (ok-injective h7)
        (count_win-le pnl wins closed le)

  match_loop-le :
      (fuel : ℕ) (price remaining : Decimal) (lots : List (Decimal × Decimal)) (wins closed : ℕ)
      {state : Matching dec}
      → wins ≤ closed
      → match_loop dec fuel price remaining lots wins closed ≡ ok state
      → state.wins ≤ state.closed
  unfolding match_loop
  match_loop-le zero price remaining lots wins closed le h = cc
  match_loop-le (suc fuel) price remaining [] wins closed {state} le h =
      subst (λ (s : Matching dec). s.wins ≤ s.closed) (ok-injective h) le
  match_loop-le (suc fuel) price remaining ((q, p) ∷ lots) wins closed {state} le h =
      elim (Bool-cases (lt_dec zero_dec remaining)) [
        | inr sold ↦
            subst (λ (s : Matching dec). s.wins ≤ s.closed) (ok-injective (rw sold at h)) le
        | inl more ↦
            let (step, made, rest) =
              >>=-eq-ok (match_lot dec price remaining q p lots wins closed) _ (rw more at h) in
            match_loop-le fuel price step.0 step.1.open_lots step.1.wins step.1.closed
              (match_lot-le price remaining q p lots wins closed le made) rest
      ]

  fills_loop-le :
      (fills : List (Fill dec)) (state : Matching dec) {after : Matching dec}
      → state.wins ≤ state.closed
      → fills_loop dec fills state ≡ ok after
      → after.wins ≤ after.closed
  unfolding fills_loop
  fills_loop-le [] state le h = subst (λ (s : Matching dec). s.wins ≤ s.closed) (ok-injective h) le
  fills_loop-le (fill ∷ fills) state le h = elim (Bool-cases fill.is_buy) [
    | inl bought ↦ fills_loop-le fills _ le (rw bought at h)
    | inr sold ↦
        let (next, made, rest) =
          >>=-eq-ok
            (match_loop dec (suc (length state.open_lots)) fill.price fill.qty state.open_lots
              state.wins state.closed)
            _ (rw sold at h) in
        fills_loop-le fills next
          (match_loop-le (suc (length state.open_lots)) fill.price fill.qty state.open_lots
            state.wins state.closed le made)
          rest
  ]

  -- A published win rate is the number of wins over the number of closed round trips, of which
  -- there is at least one, and there are no more wins than closed round trips.
  compute_win_rate-counts :
      (fills : List (Fill dec)) (result : WinRateResult dec)
      → compute_win_rate dec fills ≡ ok (ok result)
      → (0 < result.closed_round_trips)
        × (result.wins ≤ result.closed_round_trips)
        × (checked_div (from_u64 result.wins) (from_u64 result.closed_round_trips)
            ≡ some result.win_rate)
  unfolding compute_win_rate win_rate_of
  compute_win_rate-counts fills result h =
      let (state, run, h1) = >>=-eq-ok (fills_loop dec (in_order dec fills) _) _ h in
      let le = fills_loop-le (in_order dec fills) _ (omega arith) run in
      elim (Bool-cases (state.closed == 0)) [
        | inl none_ ↦ let f = rw none_ at h1 in cc
        | inr some_ ↦
            let (rate, divided, h2) =
              >>=-eq-ok (or_panic (checked_div (from_u64 state.wins) (from_u64 state.closed))) _
                (rw some_ at h1) in
            let made = ok-injective (ok-injective h2) in
            subst
              (λ (r : WinRateResult dec).
                (0 < r.closed_round_trips)
                × (r.wins ≤ r.closed_round_trips)
                × (checked_div (from_u64 r.wins) (from_u64 r.closed_round_trips) ≡ some r.win_rate))
              made (ground arith, le, or_panic-eq-ok _ divided)
      ]
