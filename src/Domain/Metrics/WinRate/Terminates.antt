-- ===== src/Domain/Metrics/WinRate/Terminates.antt =====
-- Lemmas and theorems on `compute_win_rate` (crates/domain/metrics/src/winrate.rs): its loop ends.
use linvesther.Prelude.{
  ℕ, zero, suc, ◌≡◌, ◌≢◌, ◌≤◌, ◌⊎◌, inl, inr, refl, List, [], ◌∷◌, some, true, false, Result, ok,
  err, ◌>>=◌, >>=-eq-ok, ok-injective, subst, Bool-cases, arith, length, ◌==◌,
}
use linvesther.Domain.Decimal.{Decimals, Stop, raised, or_panic, or_panic-eq-ok, or_panic-raises}
use linvesther.Domain.Metrics.WinRate.{
  OutOfFuel, out_of_fuel, Fill, Matching, min_dec, reduce_lot, match_lot, match_loop, fills_loop,
  in_order, win_rate_of, compute_win_rate,
}

-- What is left of a value less itself is zero, and not above zero.
pub record CancelsItself (dec : Decimals) : Type 0 where
  pub is_zero :
      (a d : dec.Decimal) → dec.checked_sub a a ≡ some d → dec.eq_dec d dec.zero_dec ≡ true
  pub not_above :
      (a d : dec.Decimal) → dec.checked_sub a a ≡ some d → dec.lt_dec dec.zero_dec d ≡ false

-- The fuel sufficed.
abbrev Ends : {A : Type 0} → Result (Stop OutOfFuel) A → Type 0
Ends r = r ≢ err (raised out_of_fuel)

>>=-Ends :
    {A B : Type 0} (first : Result (Stop OutOfFuel) A) (next : A → Result (Stop OutOfFuel) B)
    → Ends first
    → ((a : A) → first ≡ ok a → Ends (next a))
    → Ends (first >>= next)
>>=-Ends (ok a) next ends rest = rest a refl
>>=-Ends (err e) next ends rest = λ h. ends (let f : e ≡ raised out_of_fuel = cc in rw f refl)

module _ (dec : Decimals) (cancels : CancelsItself dec) where
  open dec use {Decimal, zero_dec, checked_sub, checked_mul, checked_div, lt_dec, eq_dec, from_u64}

  -- After a match either the lot is gone, or nothing remains to be sold.
  abbrev Advances : List (Decimal × Decimal) → Decimal × Matching dec → Type 0
  Advances lots step =
      (step.1.open_lots ≡ lots)
      ⊎ ((lt_dec zero_dec step.0 ≡ false) × (length step.1.open_lots ≡ suc (length lots)))

  match_lot-Ends :
      (price remaining q p : Decimal) (lots : List (Decimal × Decimal)) (wins closed : ℕ)
      → Ends (match_lot dec price remaining q p lots wins closed)
  unfolding match_lot
  match_lot-Ends price remaining q p lots wins closed =
      >>=-Ends (or_panic (checked_sub price p)) _ (or_panic-raises _) (λ gain h0.
        >>=-Ends (or_panic (checked_mul gain (min_dec dec remaining q))) _ (or_panic-raises _)
          (λ pnl h1.
            >>=-Ends (or_panic (checked_sub remaining (min_dec dec remaining q))) _
              (or_panic-raises _)
              (λ left h2.
                >>=-Ends (or_panic (checked_sub q (min_dec dec remaining q))) _ (or_panic-raises _)
                  (λ rest h3. λ h. cc))))

  left_or_rest :
      (remaining q left rest : Decimal)
      → checked_sub remaining (min_dec dec remaining q) ≡ some left
      → checked_sub q (min_dec dec remaining q) ≡ some rest
      → (eq_dec rest zero_dec ≡ true) ⊎ (lt_dec zero_dec left ≡ false)
  left_or_rest remaining q left rest h g = elim (Bool-cases (lt_dec q remaining)) [
    | inl less ↦ inl (cancels.is_zero q rest (rw less at g))
    | inr more ↦ inr (cancels.not_above remaining left (rw more at h))
  ]

  match_lot-Advances :
      (price remaining q p : Decimal) (lots : List (Decimal × Decimal)) (wins closed : ℕ)
      {step : Decimal × Matching dec}
      → match_lot dec price remaining q p lots wins closed ≡ ok step
      → Advances lots step
  unfolding match_lot reduce_lot
  match_lot-Advances price remaining q p lots wins closed h =
      let (gain, h0, h1) = >>=-eq-ok (or_panic (checked_sub price p)) _ h in
      let (pnl, h2, h3) = >>=-eq-ok (or_panic (checked_mul gain (min_dec dec remaining q))) _ h1 in
      let (left, h4, h5) =
        >>=-eq-ok (or_panic (checked_sub remaining (min_dec dec remaining q))) _ h3 in
      let (rest, h6, h7) = >>=-eq-ok (or_panic (checked_sub q (min_dec dec remaining q))) _ h5 in
      subst (λ s. Advances lots s) (ok-injective h7)
        (elim (left_or_rest remaining q left rest (or_panic-eq-ok _ h4) (or_panic-eq-ok _ h6)) [
          | inl gone ↦ inl (rw gone refl)
          | inr sold ↦ elim (Bool-cases (eq_dec rest zero_dec)) [
            | inl gone ↦ inl (rw gone refl)
            | inr stays ↦ inr (sold, rw stays refl)
          ]
        ])

  match_loop-Ends_sold :
      (fuel : ℕ) (price remaining : Decimal) (lots : List (Decimal × Decimal)) (wins closed : ℕ)
      → lt_dec zero_dec remaining ≡ false
      → Ends (match_loop dec (suc fuel) price remaining lots wins closed)
  unfolding match_loop
  match_loop-Ends_sold fuel price remaining [] wins closed sold = λ h. cc
  match_loop-Ends_sold fuel price remaining ((q, p) ∷ lots) wins closed sold = rw sold (λ h. cc)

  match_loop-Ends :
      (fuel : ℕ) (price remaining : Decimal) (lots : List (Decimal × Decimal)) (wins closed : ℕ)
      → suc (length lots) ≤ fuel
      → Ends (match_loop dec fuel price remaining lots wins closed)
  unfolding match_loop
  match_loop-Ends zero price remaining lots wins closed le = absurd (omega arith)
  match_loop-Ends (suc fuel) price remaining [] wins closed le = λ h. cc
  match_loop-Ends (suc zero) price remaining ((q, p) ∷ lots) wins closed le = absurd (omega arith)
  match_loop-Ends (suc (suc fuel)) price remaining ((q, p) ∷ lots) wins closed le =
      elim (Bool-cases (lt_dec zero_dec remaining)) [
        | inr sold ↦ rw sold (λ h. cc)
        | inl more ↦ rw more (
            >>=-Ends (match_lot dec price remaining q p lots wins closed) _
              (match_lot-Ends price remaining q p lots wins closed)
              (λ step made. elim (match_lot-Advances price remaining q p lots wins closed made) [
                | inl gone ↦
                    match_loop-Ends (suc fuel) price step.0 step.1.open_lots step.1.wins
                      step.1.closed (rw gone (omega arith))
                | inr (sold, kept) ↦
                    match_loop-Ends_sold fuel price step.0 step.1.open_lots step.1.wins
                      step.1.closed sold
              ]))
      ]

  fills_loop-Ends :
      (fills : List (Fill dec)) (state : Matching dec) → Ends (fills_loop dec fills state)
  unfolding fills_loop
  fills_loop-Ends [] state = λ h. cc
  fills_loop-Ends (fill ∷ fills) state = elim (Bool-cases fill.is_buy) [
    | inl bought ↦ rw bought (fills_loop-Ends fills _)
    | inr sold ↦ rw sold (
        >>=-Ends
          (match_loop dec (suc (length state.open_lots)) fill.price fill.qty state.open_lots
            state.wins state.closed)
          _
          (match_loop-Ends (suc (length state.open_lots)) fill.price fill.qty state.open_lots
            state.wins state.closed (omega arith))
          (λ next made. fills_loop-Ends fills next))
  ]

  win_rate_of-Ends : (state : Matching dec) → Ends (win_rate_of dec state)
  unfolding win_rate_of
  win_rate_of-Ends state = elim (Bool-cases (state.closed == 0)) [
    | inl none_ ↦ rw none_ (λ h. cc)
    | inr some_ ↦ rw some_ (
        >>=-Ends (or_panic (checked_div (from_u64 state.wins) (from_u64 state.closed))) _
          (or_panic-raises _) (λ r made. λ h. cc))
  ]

  -- Over decimals for which a value less itself is zero, the matching loop of `compute_win_rate`
  -- ends on any fills, buys and sells of any sign and in any order: one round for each open lot
  -- and one more are enough for a sell.
  pub compute_win_rate-ends :
      (fills : List (Fill dec)) → compute_win_rate dec fills ≢ err (raised out_of_fuel)
  unfolding compute_win_rate
  compute_win_rate-ends fills =
      >>=-Ends (fills_loop dec (in_order dec fills) _) _ (fills_loop-Ends (in_order dec fills) _)
        (λ state made. win_rate_of-Ends state)
