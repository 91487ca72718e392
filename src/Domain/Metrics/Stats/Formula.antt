-- ===== src/Domain/Metrics/Stats/Formula.antt =====
-- The mean and the sample variance by their formulas (crates/domain/metrics/src/stats.rs).
use linvesther.Prelude.{
  suc, fun_ext, ◌-◌, ◌≡◌, ◌≤◌, ◌∙◌, refl, sym, ap, subst, some-injective, and_then, List, [], ◌∷◌,
  Option, none, some, false, ok, raise_if-eq-ok, >>=-eq-ok, and_then-eq-some, length, ltb, arith,
  is_empty,
}
use linvesther.Domain.Decimal.{Decimals, or_panic, or_panic-eq-ok}
use linvesther.Domain.Metrics.Stats.{
  in_range, mean, sample_variance, excess_over, sum_from, sum_squares,
}

pub in_range-eq-ok {ℓ} : {A : Type ℓ} (m : Option A) {a : A} → in_range m ≡ ok a → m ≡ some a
in_range-eq-ok none h = cc
in_range-eq-ok (some b) h = cc

pub not_empty {ℓ} : {A : Type ℓ} (xs : List A) → 2 ≤ length xs → is_empty xs ≡ false
not_empty [] h = absurd (omega arith)
not_empty (x ∷ xs) h = refl

module _ (dec : Decimals) where
  open dec use {
    Decimal, zero_dec, checked_add, checked_sub, checked_mul, checked_div, eq_dec, from_u64, sqrt,
  }

  -- The values added up from the left, from a start; `none` where a sum leaves the range.
  abbrev pub checked_total : Decimal → List Decimal → Option Decimal
  checked_total start [] = some start
  checked_total start (d ∷ ds) = and_then (checked_add start d) (λ sum. checked_total sum ds)

  -- The second list holds each value of the first less one number.
  abbrev pub AreLess : Decimal → List Decimal → List Decimal → Type 0
  AreLess amount [] [] = Unit
  AreLess amount [] (e ∷ es) = ⊥
  AreLess amount (r ∷ rs) [] = ⊥
  AreLess amount (r ∷ rs) (e ∷ es) = (checked_sub r amount ≡ some e) × AreLess amount rs es

  -- The second list holds the squares of the first.
  abbrev pub AreSquares : List Decimal → List Decimal → Type 0
  AreSquares [] [] = Unit
  AreSquares [] (e ∷ es) = ⊥
  AreSquares (r ∷ rs) [] = ⊥
  AreSquares (r ∷ rs) (e ∷ es) = (checked_mul r r ≡ some e) × AreSquares rs es

  -- The mean: the sum over the count.
  pub record IsMean (returns : List Decimal) (m : Decimal) : Type 0 where
    pub sum : Decimal
    pub sum_of : checked_total zero_dec returns ≡ some sum
    pub quotient : checked_div sum (from_u64 (length returns)) ≡ some m

  -- The sample variance: the sum of the squares of the differences from the mean, over the count
  -- less one.
  pub record IsVariance (returns : List Decimal) (v : Decimal) : Type 0 where
    pub mu : Decimal
    pub mean_of : IsMean returns mu
    pub differences : List Decimal
    pub differences_of : AreLess mu returns differences
    pub squares : List Decimal
    pub squares_of : AreSquares differences squares
    pub sum_sq : Decimal
    pub sum_sq_of : checked_total zero_dec squares ≡ some sum_sq
    pub quotient : checked_div sum_sq (from_u64 (length returns - 1)) ≡ some v

  sum_from-eq-total :
      (acc : Decimal) (ds : List Decimal) → sum_from dec acc ds ≡ checked_total acc ds
  unfolding sum_from
  sum_from-eq-total acc [] = refl
  sum_from-eq-total acc (d ∷ ds) =
      ap (λ f. and_then (checked_add acc d) f) (fun_ext (λ sum. sum_from-eq-total sum ds))

  pub mean-IsMean :
      (returns : List Decimal) {m : Decimal} → mean dec returns ≡ ok m → IsMean returns m
  unfolding mean
  mean-IsMean returns h =
      let (some_, h1) = raise_if-eq-ok (is_empty returns) _ _ h in
      let (sum, summed, h2) = >>=-eq-ok (or_panic (sum_from dec zero_dec returns)) _ h1 in
      record {
        sum = sum;
        sum_of = sym (sum_from-eq-total zero_dec returns) ∙ or_panic-eq-ok _ summed;
        quotient = in_range-eq-ok _ h2;
      }

  pub IsMean-mean :
      (returns : List Decimal) (m : Decimal)
      → is_empty returns ≡ false
      → IsMean returns m
      → mean dec returns ≡ ok m
  unfolding mean
  IsMean-mean returns m some_ is =
      rw (some_, sum_from-eq-total zero_dec returns, is.sum_of, is.quotient) refl

  -- The fold of the squared differences is the sum of their list.
  sum_squares-parts :
      (mu acc : Decimal) (returns : List Decimal) {sum_sq : Decimal}
      → sum_squares dec mu acc returns ≡ some sum_sq
      → (ds : List Decimal) × (sq : List Decimal) × AreLess mu returns ds
        × AreSquares ds sq
        × (checked_total acc sq ≡ some sum_sq)
  unfolding sum_squares
  sum_squares-parts mu acc [] h = ([], [], tt, tt, h)
  sum_squares-parts mu acc (r ∷ rs) h =
      let (diff, subtracted, h1) = and_then-eq-some (checked_sub r mu) _ h in
      let (square, squared, h2) = and_then-eq-some (checked_mul diff diff) _ h1 in
      let (next, added, h3) = and_then-eq-some (checked_add acc square) _ h2 in
      let (ds, sq, less, squares, total) = sum_squares-parts mu next rs h3 in
      (diff ∷ ds, square ∷ sq, (subtracted, less), (squared, squares), rw added total)

  parts-sum_squares :
      (mu acc : Decimal) (returns ds sq : List Decimal)
      → AreLess mu returns ds
      → AreSquares ds sq
      → sum_squares dec mu acc returns ≡ checked_total acc sq
  unfolding sum_squares
  parts-sum_squares mu acc [] [] [] less squares = refl
  parts-sum_squares mu acc [] [] (s ∷ sq) less squares = absurd squares
  parts-sum_squares mu acc [] (d ∷ ds) sq less squares = absurd less
  parts-sum_squares mu acc (r ∷ rs) [] sq less squares = absurd less
  parts-sum_squares mu acc (r ∷ rs) (d ∷ ds) [] less squares = absurd squares
  parts-sum_squares mu acc (r ∷ rs) (d ∷ ds) (s ∷ sq) (subtracted, less) (squared, squares) =
      rw (subtracted, squared)
        (ap (λ f. and_then (checked_add acc s) f)
          (fun_ext (λ next. parts-sum_squares mu next rs ds sq less squares)))

  pub sample_variance-IsVariance :
      (returns : List Decimal) (v : Decimal)
      → sample_variance dec returns ≡ ok v
      → IsVariance returns v
  unfolding sample_variance
  sample_variance-IsVariance returns v h =
      let (enough, h1) = raise_if-eq-ok (ltb (length returns) 2) _ _ h in
      let (mu, meant, h2) = >>=-eq-ok (mean dec returns) _ h1 in
      let (sum_sq, summed, h3) = >>=-eq-ok (in_range (sum_squares dec mu zero_dec returns)) _ h2 in
      let (ds, sq, less, squared, total) =
        sum_squares-parts mu zero_dec returns (in_range-eq-ok _ summed) in
      record {
        mu = mu;
        mean_of = mean-IsMean returns meant;
        differences = ds;
        differences_of = less;
        squares = sq;
        squares_of = squared;
        sum_sq = sum_sq;
        sum_sq_of = total;
        quotient = in_range-eq-ok _ h3;
      }

  pub IsVariance-sample_variance :
      (returns : List Decimal) (v : Decimal)
      → 2 ≤ length returns
      → IsVariance returns v
      → sample_variance dec returns ≡ ok v
  unfolding sample_variance
  IsVariance-sample_variance returns v enough is =
      let test : ltb (length returns) 2 ≡ false = ground arith in
      rw
        (
          test,
          IsMean-mean returns is.mu (not_empty returns enough) is.mean_of,
          parts-sum_squares is.mu zero_dec returns is.differences is.squares is.differences_of
              is.squares_of,
          is.sum_sq_of,
          is.quotient,
        )
        refl

  pub excess_over-AreLess :
      (rate : Decimal) (returns : List Decimal) {excess : List Decimal}
      → excess_over dec rate returns ≡ some excess
      → AreLess rate returns excess
  unfolding excess_over
  excess_over-AreLess rate [] h = subst (AreLess rate []) (some-injective h) tt
  excess_over-AreLess rate (r ∷ rs) h =
      let (e, subtracted, h1) = and_then-eq-some (checked_sub r rate) _ h in
      let (es, rest, h2) = and_then-eq-some (excess_over dec rate rs) _ h1 in
      subst (AreLess rate (r ∷ rs)) (some-injective h2)
        (subtracted, excess_over-AreLess rate rs rest)

  pub AreLess-excess_over :
      (rate : Decimal) (returns excess : List Decimal)
      → AreLess rate returns excess
      → excess_over dec rate returns ≡ some excess
  unfolding excess_over
  AreLess-excess_over rate [] [] less = refl
  AreLess-excess_over rate [] (e ∷ es) less = absurd less
  AreLess-excess_over rate (r ∷ rs) [] less = absurd less
  AreLess-excess_over rate (r ∷ rs) (e ∷ es) (subtracted, less) =
      rw (subtracted, AreLess-excess_over rate rs es less) refl

  pub length-AreLess :
      (rate : Decimal) (returns excess : List Decimal)
      → AreLess rate returns excess
      → length excess ≡ length returns
  length-AreLess rate [] [] less = refl
  length-AreLess rate [] (e ∷ es) less = absurd less
  length-AreLess rate (r ∷ rs) [] less = absurd less
  length-AreLess rate (r ∷ rs) (e ∷ es) (subtracted, less) = ap suc (length-AreLess rate rs es less)
