-- ===== src/Domain/Metrics/Capital/Least.antt =====
-- Lemmas and theorems on `sustained_capital` (crates/domain/metrics/src/capital.rs).
use linvesther.Prelude.{
  ◌≡◌, ◌⊎◌, inl, inr, refl, sym, ap, subst, List, [], ◌∷◌, true, false, All, Bool-cases,
}
use linvesther.Domain.Decimal.{Decimals, IsOrdered}
use linvesther.Domain.Metrics.Capital.{min_dec, sustained_capital}

module _ (dec : Decimals) where
  open dec use {Decimal, lt_dec}

  -- The value is one of the list.
  abbrev pub IsOneOf : Decimal → List Decimal → Type 0
  IsOneOf v [] = ⊥
  IsOneOf v (d ∷ ds) = (v ≡ d) ⊎ IsOneOf v ds

  min_dec-cases :
      (a b : Decimal)
      → ((lt_dec b a ≡ true) × (min_dec dec a b ≡ b))
        ⊎ ((lt_dec b a ≡ false) × (min_dec dec a b ≡ a))
  min_dec-cases a b = elim (Bool-cases (lt_dec b a)) [
    | inl less ↦ inl (less, rw less refl)
    | inr more ↦ inr (more, rw more refl)
  ]

  abbrev pub IsLeast : Decimal → List Decimal → Type 0
  IsLeast v ds = IsOneOf v ds × All (λ d. lt_dec d v ≡ false) ds

  -- Over ordered decimals, the sustained capital is one of the baseline and the daily closes, and
  -- none of them is below it.
  sustained_capital-IsLeast :
      (order : IsOrdered dec) (baseline : Decimal) (daily_closes : List Decimal)
      → IsLeast (sustained_capital dec baseline daily_closes) (baseline ∷ daily_closes)
  unfolding sustained_capital
  sustained_capital-IsLeast order baseline [] = (inl refl, (order.irreflexive baseline, tt))
  sustained_capital-IsLeast order baseline (close ∷ closes) = elim (min_dec-cases baseline close) [
    | inl (less, same) ↦
        let (one, (head_, rest)) = sustained_capital-IsLeast order close closes in
        let moved = ap (λ m. sustained_capital dec m closes) same in
        subst (λ s. IsLeast s (baseline ∷ close ∷ closes)) (sym moved)
          (
            inr one,
            (above baseline close (sustained_capital dec close closes) less head_, (head_, rest)),
          )
    | inr (more, same) ↦
        let (one, (head_, rest)) = sustained_capital-IsLeast order baseline closes in
        let moved = ap (λ m. sustained_capital dec m closes) same in
        subst (λ s. IsLeast s (baseline ∷ close ∷ closes)) (sym moved)
          (
            elim one [ inl here ↦ inl here | inr there ↦ inr (inr there) ],
            (
              head_,
              (
                order.cotransitive close baseline (sustained_capital dec baseline closes) more
                    head_,
                rest,
              ),
            ),
          )
  ]
    where
      above : (b c s : Decimal) → lt_dec c b ≡ true → lt_dec c s ≡ false → lt_dec b s ≡ false
      above b c s less low = elim (Bool-cases (lt_dec b s)) [
        | inr fine ↦ fine
        | inl lower ↦ let f = order.transitive c b s less lower in cc
      ]
