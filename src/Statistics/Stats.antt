-- ===== src/Statistics/Stats.antt =====
-- zkvm/methods/statistics/guest/src/stats.rs: the three metrics as brackets, and the comparison of a
-- bracket with a threshold.
pub mod Claims
use linvesther.Prelude.{
  ℕ, zero, suc, List, [], ◌∷◌, Option, none, some, Result, ok, err, ◌>>=◌, ◌>>◌, raise_if, ok_or,
  Bool, ◌||◌, not, length, map, ltb, if◌then◌else◌,
}
use linvesther.Prelude.Int.{ℤ, pos, ltb_ℤ, leb_ℤ, eqb_ℤ}
use linvesther.Prelude.Machine.{
  ◌-i128◌, checked_add_i128, checked_sub_i128, checked_mul_i128, ◌/ℤ◌, ◌%ℤ◌,
}
use linvesther.Statistics.Bracket.{
  Bracket, scale, exact, ceil_of, sqrt_bracket_scaled, sqrt_of_bracket, mul_bracket_nonneg,
  ratio_bracket,
}

abbrev pub min_sharpe_sortino_days : ℕ
min_sharpe_sortino_days = 30

abbrev pub min_cagr_days : ℕ
min_cagr_days = 365

abbrev pub days_per_year : ℤ
days_per_year = pos 365

abbrev pub cagr_expansion_bits : ℕ
cagr_expansion_bits = 40

pub data StatsError : Type 0 where
  insufficient_sample : (actual required : ℕ) → StatsError
  zero_variance no_downside non_positive_index numeric_range : StatsError

pub data ClaimOperator : Type 0 where
  greater_than less_than : ℤ → ClaimOperator

pub data ClaimVerdict : Type 0 where
  approved rejected indeterminate_precision : ClaimVerdict

unfoldable pub evaluate_claim : Bracket → ClaimOperator → ClaimVerdict
evaluate_claim bracket (greater_than k) =
    if ltb_ℤ k bracket.lower
    then approved
    else if leb_ℤ bracket.upper k
    then rejected
    else indeterminate_precision
evaluate_claim bracket (less_than k) =
    if ltb_ℤ bracket.upper k
    then approved
    else if leb_ℤ k bracket.lower
    then rejected
    else indeterminate_precision

-- `try_fold` with `checked_add`.
unfoldable pub sum_from : ℤ → List ℤ → Result StatsError ℤ
sum_from acc [] = ok acc
sum_from acc (v ∷ values) = do
  acc ← ok_or (checked_add_i128 acc v) numeric_range
  sum_from acc values

unfoldable pub sum_checked : List ℤ → Result StatsError ℤ
unfolding sum_from
sum_checked values = sum_from (pos 0) values

unfoldable pub annualization_factor : Result StatsError Bracket
annualization_factor = ok_or (sqrt_bracket_scaled days_per_year (pos 1) scale) numeric_range

-- The loop that adds up the squared deviations, each times n.
unfoldable pub variance_loop : ℤ → ℤ → ℤ → List ℤ → Result StatsError ℤ
variance_loop n sum_excess v_num [] = ok v_num
variance_loop n sum_excess v_num (e ∷ excess) = do
  scaled ← ok_or (checked_mul_i128 e n) numeric_range
  term ← ok_or (checked_sub_i128 scaled sum_excess) numeric_range
  sq ← ok_or (checked_mul_i128 term term) numeric_range
  v_num ← ok_or (checked_add_i128 v_num sq) numeric_range
  variance_loop n sum_excess v_num excess

unfoldable pub sharpe_bracket : List ℤ → ℤ → Result StatsError Bracket
unfolding variance_loop
sharpe_bracket returns rf_daily = do
  raise_if (ltb (length returns) min_sharpe_sortino_days)
      (insufficient_sample (length returns) min_sharpe_sortino_days)
  let n = pos (length returns)
  let excess = map (λ r. r -i128 rf_daily) returns
  sum_excess ← sum_checked excess
  v_num ← variance_loop n sum_excess (pos 0) excess
  raise_if (eqb_ℤ v_num (pos 0)) zero_variance
  square ← ok_or (checked_mul_i128 n n) numeric_range
  v_den ← ok_or (checked_mul_i128 square (n -i128 pos 1)) numeric_range
  stdev ← ok_or (sqrt_bracket_scaled v_num v_den (pos 1)) numeric_range
  annual ← annualization_factor
  ok_or (ratio_bracket annual sum_excess n stdev) numeric_range

-- The loop that adds up the squares of what is below zero.
unfoldable pub downside_loop : ℤ → List ℤ → Result StatsError ℤ
downside_loop total [] = ok total
downside_loop total (e ∷ excess) =
    let kept = downside_loop total excess in
    let added = (do
      sq ← ok_or (checked_mul_i128 e e) numeric_range
      total ← ok_or (checked_add_i128 total sq) numeric_range
      downside_loop total excess) in
    if ltb_ℤ e (pos 0) then added else kept

unfoldable pub sortino_bracket : List ℤ → ℤ → Result StatsError Bracket
unfolding downside_loop
sortino_bracket returns mar_daily = do
  raise_if (ltb (length returns) min_sharpe_sortino_days)
      (insufficient_sample (length returns) min_sharpe_sortino_days)
  let n = pos (length returns)
  let excess = map (λ r. r -i128 mar_daily) returns
  sum_excess ← sum_checked excess
  downside_sq_sum ← downside_loop (pos 0) excess
  raise_if (eqb_ℤ downside_sq_sum (pos 0)) no_downside
  downside_dev ← ok_or (sqrt_bracket_scaled downside_sq_sum n (pos 1)) numeric_range
  annual ← annualization_factor
  ok_or (ratio_bracket annual sum_excess n downside_dev) numeric_range

-- The loop over the bits of the exponent, given how many are left.
unfoldable pub cagr_loop : ℕ → ℤ → ℤ → Bracket → Bracket → Result StatsError Bracket
cagr_loop zero den remaining_num result term = ok result
cagr_loop (suc bits) den remaining_num result term = do
  doubled ← ok_or (checked_mul_i128 remaining_num (pos 2)) numeric_range
  let set = leb_ℤ den doubled
  let remaining_num = if set then doubled -i128 den else doubled
  result ← if set then ok_or (mul_bracket_nonneg result term) numeric_range else ok result
  term ← ok_or (sqrt_of_bracket term) numeric_range
  cagr_loop bits den remaining_num result term

unfoldable pub cagr_bracket : ℤ → ℤ → ℕ → Result StatsError Bracket
unfolding cagr_loop exact
cagr_bracket index_start index_end days_elapsed = do
  raise_if (ltb days_elapsed min_cagr_days) (insufficient_sample days_elapsed min_cagr_days)
  raise_if (leb_ℤ index_start (pos 0) || leb_ℤ index_end (pos 0)) non_positive_index
  scaled ← ok_or (checked_mul_i128 index_end scale) numeric_range
  let ratio_lower = scaled /ℤ index_start
  let ratio_upper = ceil_of ratio_lower (scaled %ℤ index_start)
  term ← ok_or (sqrt_of_bracket (record { lower = ratio_lower; upper = ratio_upper })) numeric_range
  result ← cagr_loop cagr_expansion_bits (pos days_elapsed) days_per_year (exact scale) term
  ok (record { lower = result.lower -i128 scale; upper = result.upper -i128 scale })
