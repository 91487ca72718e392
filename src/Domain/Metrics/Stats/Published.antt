-- ===== src/Domain/Metrics/Stats/Published.antt =====
-- When a Sharpe ratio is published, and which (crates/domain/metrics/src/stats.rs).
use linvesther.Prelude.{
  ◌≡◌, ◌≤◌, ◌↔◌, refl, List, some, false, ok, raise_if-eq-ok, >>=-eq-ok, length, ltb, arith,
}
use linvesther.Domain.Decimal.{Decimals, or_panic, or_panic-eq-ok}
use linvesther.Domain.Metrics.Stats.{
  in_range, mean, sample_variance, sqrt_days_per_year, excess_over, sharpe, min_sharpe_sortino_days,
}
use linvesther.Domain.Metrics.Stats.Formula.{
  AreLess, IsMean, IsVariance, in_range-eq-ok, not_empty, mean-IsMean, IsMean-mean,
  sample_variance-IsVariance, IsVariance-sample_variance, excess_over-AreLess, AreLess-excess_over,
  length-AreLess,
}

module _ (dec : Decimals) where
  open dec use {Decimal, zero_dec, checked_mul, checked_div, eq_dec, from_u64, sqrt}

  -- A Sharpe ratio by its formula.
  pub record IsSharpe (returns : List Decimal) (rf_daily ratio : Decimal) : Type 0 where
    pub enough_days : 30 ≤ length returns
    pub excess : List Decimal
    pub excess_of : AreLess dec rf_daily returns excess
    pub variance : Decimal
    pub variance_of : IsVariance dec excess variance
    pub variance_nonzero : eq_dec variance zero_dec ≡ false
    pub stdev : Decimal
    pub stdev_of : sqrt variance ≡ some stdev
    pub mean_excess : Decimal
    pub mean_excess_of : IsMean dec excess mean_excess
    pub daily : Decimal
    pub daily_of : checked_div mean_excess stdev ≡ some daily
    pub days : Decimal
    pub days_of : sqrt (from_u64 365) ≡ some days
    pub ratio_of : checked_mul days daily ≡ some ratio

  sharpe-IsSharpe :
      (returns : List Decimal) (rf_daily ratio : Decimal)
      → sharpe dec returns rf_daily ≡ ok ratio
      → IsSharpe returns rf_daily ratio
  unfolding sharpe sqrt_days_per_year
  sharpe-IsSharpe returns rf_daily ratio h =
      let (enough, h1) = raise_if-eq-ok (ltb (length returns) min_sharpe_sortino_days) _ _ h in
      let (excess, made, h2) = >>=-eq-ok (or_panic (excess_over dec rf_daily returns)) _ h1 in
      let (variance, varied, h3) = >>=-eq-ok (sample_variance dec excess) _ h2 in
      let (nonzero, h4) = raise_if-eq-ok (eq_dec variance zero_dec) _ _ h3 in
      let (stdev, rooted, h5) = >>=-eq-ok (in_range (sqrt variance)) _ h4 in
      let (mean_excess, meant, h6) = >>=-eq-ok (mean dec excess) _ h5 in
      let (daily, divided, h7) = >>=-eq-ok (in_range (checked_div mean_excess stdev)) _ h6 in
      let (days, year, h8) = >>=-eq-ok (in_range (sqrt (from_u64 365))) _ h7 in
      record {
        enough_days = ground arith;
        excess = excess;
        excess_of = excess_over-AreLess dec rf_daily returns (or_panic-eq-ok _ made);
        variance = variance;
        variance_of = sample_variance-IsVariance dec excess variance varied;
        variance_nonzero = nonzero;
        stdev = stdev;
        stdev_of = in_range-eq-ok _ rooted;
        mean_excess = mean_excess;
        mean_excess_of = mean-IsMean dec excess meant;
        daily = daily;
        daily_of = in_range-eq-ok _ divided;
        days = days;
        days_of = in_range-eq-ok _ year;
        ratio_of = in_range-eq-ok _ h8;
      }

  IsSharpe-sharpe :
      (returns : List Decimal) (rf_daily ratio : Decimal)
      → IsSharpe returns rf_daily ratio
      → sharpe dec returns rf_daily ≡ ok ratio
  unfolding sharpe sqrt_days_per_year
  IsSharpe-sharpe returns rf_daily ratio is =
      let enough = is.enough_days in
      let test : ltb (length returns) min_sharpe_sortino_days ≡ false = ground arith in
      let same = length-AreLess dec rf_daily returns is.excess is.excess_of in
      let two : 2 ≤ length is.excess = omega arith in
      rw
        (
          test,
          AreLess-excess_over dec rf_daily returns is.excess is.excess_of,
          IsVariance-sample_variance dec is.excess is.variance two is.variance_of,
          is.variance_nonzero,
          is.stdev_of,
          IsMean-mean dec is.excess is.mean_excess (not_empty is.excess two) is.mean_excess_of,
          is.daily_of,
          is.days_of,
          is.ratio_of,
        )
        refl

  -- A Sharpe ratio is published exactly if there are at least 30 daily returns, the sample variance
  -- of their excess over the risk-free rate is not zero, no operation leaves the range of decimals,
  -- and the ratio is the square root of 365 times the mean excess over its standard deviation.
  pub sharpe_iff :
      (returns : List Decimal) (rf_daily ratio : Decimal)
      → (sharpe dec returns rf_daily ≡ ok ratio) ↔ IsSharpe returns rf_daily ratio
  sharpe_iff returns rf_daily ratio =
      (sharpe-IsSharpe returns rf_daily ratio, IsSharpe-sharpe returns rf_daily ratio)
