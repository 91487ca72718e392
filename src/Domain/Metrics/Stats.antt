-- ===== src/Domain/Metrics/Stats.antt =====
-- crates/domain/metrics/src/stats.rs: statistics of daily returns. The operators of decimals, and
-- the sum of an iterator, panic on overflow.
pub mod Formula
pub mod Published
use linvesther.Prelude.{
  ℕ, ◌-◌, List, [], ◌∷◌, Option, none, some, Bool, true, false, Result, ok, err, ◌>>=◌, ◌>>◌,
  and_then, raise_if, map_err, length, ltb, is_empty, if◌then◌else◌,
}
use linvesther.Domain.Decimal.{Decimals, Stop, raised, panic, or_panic}

abbrev pub days_per_year : ℕ
days_per_year = 365

abbrev pub min_volatility_days : ℕ
min_volatility_days = 30

abbrev pub min_sharpe_sortino_days : ℕ
min_sharpe_sortino_days = 30

pub data StatsError : Type 0 where
  insufficient_sample : (actual required : ℕ) → StatsError
  zero_variance : StatsError
  no_downside : StatsError
  numeric_range : StatsError

-- `.ok_or(StatsError::NumericRange)`
abbrev pub in_range {ℓ} : {A : Type ℓ} → Option A → Result (Stop StatsError) A
in_range none = err (raised numeric_range)
in_range (some a) = ok a

module _ (dec : Decimals) where
  open dec use {
    Decimal, zero_dec, checked_add, checked_sub, checked_mul, checked_div, lt_dec, eq_dec, from_u64,
    sqrt,
  }

  -- `.sum()`
  unfoldable pub sum_from : Decimal → List Decimal → Option Decimal
  sum_from acc [] = some acc
  sum_from acc (d ∷ ds) = and_then (checked_add acc d) (λ next. sum_from next ds)

  unfoldable pub mean : List Decimal → Result (Stop StatsError) Decimal
  mean returns = raise_if (is_empty returns) (raised (insufficient_sample 0 1)) >> (do
    sum ← or_panic (sum_from zero_dec returns)
    in_range (checked_div sum (from_u64 (length returns))))

  -- The fold of the squared differences.
  unfoldable pub sum_squares : Decimal → Decimal → List Decimal → Option Decimal
  sum_squares mu acc [] = some acc
  sum_squares mu acc (r ∷ rs) = and_then (checked_sub r mu) (λ diff.
      and_then (checked_mul diff diff)
        (λ sq. and_then (checked_add acc sq) (λ next. sum_squares mu next rs)))

  unfoldable pub sample_variance : List Decimal → Result (Stop StatsError) Decimal
  sample_variance returns =
      raise_if (ltb (length returns) 2) (raised (insufficient_sample (length returns) 2)) >> (do
        mu ← mean returns
        sum_sq ← in_range (sum_squares mu zero_dec returns)
        in_range (checked_div sum_sq (from_u64 (length returns - 1))))

  unfoldable pub sqrt_days_per_year : Result (Stop StatsError) Decimal
  sqrt_days_per_year = in_range (sqrt (from_u64 days_per_year))

  unfoldable pub annualized_volatility : List Decimal → Result (Stop StatsError) Decimal
  annualized_volatility returns =
      raise_if (ltb (length returns) min_volatility_days)
        (raised (insufficient_sample (length returns) min_volatility_days))
      >> (do
        variance ← sample_variance returns
        stdev ← in_range (sqrt variance)
        days ← sqrt_days_per_year
        in_range (checked_mul days stdev))

  -- `returns.iter().map(|r| r - rate).collect()`
  unfoldable pub excess_over : Decimal → List Decimal → Option (List Decimal)
  excess_over rate [] = some []
  excess_over rate (r ∷ rs) =
      and_then (checked_sub r rate) (λ e. and_then (excess_over rate rs) (λ es. some (e ∷ es)))

  unfoldable pub sharpe : List Decimal → Decimal → Result (Stop StatsError) Decimal
  sharpe returns rf_daily =
      raise_if (ltb (length returns) min_sharpe_sortino_days)
        (raised (insufficient_sample (length returns) min_sharpe_sortino_days))
      >> (do
        excess ← or_panic (excess_over rf_daily returns)
        variance ← sample_variance excess
        _ ← raise_if (eq_dec variance zero_dec) (raised zero_variance)
        stdev ← in_range (sqrt variance)
        mean_excess ← mean excess
        ratio ← in_range (checked_div mean_excess stdev)
        days ← sqrt_days_per_year
        in_range (checked_mul days ratio))

  -- The fold of the squared shortfalls.
  unfoldable pub sum_downside : Decimal → List Decimal → Option Decimal
  sum_downside acc [] = some acc
  sum_downside acc (e ∷ es) =
      let downside = if lt_dec e zero_dec then e else zero_dec in
      and_then (checked_mul downside downside)
        (λ sq. and_then (checked_add acc sq) (λ next. sum_downside next es))

  unfoldable pub sortino : List Decimal → Decimal → Result (Stop StatsError) Decimal
  sortino returns mar_daily =
      raise_if (ltb (length returns) min_sharpe_sortino_days)
        (raised (insufficient_sample (length returns) min_sharpe_sortino_days))
      >> (do
        excess ← or_panic (excess_over mar_daily returns)
        downside_sq_sum ← in_range (sum_downside zero_dec excess)
        _ ← raise_if (eq_dec downside_sq_sum zero_dec) (raised no_downside)
        mean_sq ← in_range (checked_div downside_sq_sum (from_u64 (length returns)))
        downside_deviation ← in_range (sqrt mean_sq)
        mean_excess ← mean excess
        ratio ← in_range (checked_div mean_excess downside_deviation)
        days ← sqrt_days_per_year
        in_range (checked_mul days ratio))
