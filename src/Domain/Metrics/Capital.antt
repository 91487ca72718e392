-- ===== src/Domain/Metrics/Capital.antt =====
-- crates/domain/metrics/src/{capital,cagr}.rs: current and sustained capital, the share of
-- positive periods, and the annual growth rate.
pub mod Least
use linvesther.Prelude.{
  ℕ, suc, ◌-◌, List, [], ◌∷◌, Option, none, some, Bool, true, false, ◌||◌, Result, ok, err, ◌>>=◌,
  ok_or, length, ltb, ◌==◌, if◌then◌else◌, not,
}
use linvesther.Domain.Decimal.{Decimals, le_dec}

abbrev pub min_cagr_days : ℕ
min_cagr_days = 365

pub record Consistency : Type 0 where
  pub positive_periods : ℕ
  pub total_periods : ℕ

module _ (dec : Decimals) where
  open dec use {
    Decimal, zero_dec, one_dec, checked_sub, checked_div, checked_powd, lt_dec, from_u64,
  }

  pub record CurrentCapital : Type 0 where
    pub nav : Decimal
    pub as_of_ms : ℕ
    pub age_ms : ℕ

  -- `saturating_sub` stops at 0.
  unfoldable pub current_capital : Decimal → (as_of_ms now_ms : ℕ) → CurrentCapital
  current_capital nav as_of_ms now_ms = record {
    nav = nav;
    as_of_ms = as_of_ms;
    age_ms = now_ms - as_of_ms;
  }

  -- `Decimal::min`: the first where neither is less.
  abbrev pub min_dec : Decimal → Decimal → Decimal
  min_dec a b = if lt_dec b a then b else a

  unfoldable pub sustained_capital : Decimal → List Decimal → Decimal
  sustained_capital baseline [] = baseline
  sustained_capital baseline (close ∷ daily_closes) =
      sustained_capital (min_dec baseline close) daily_closes

  unfoldable pub ratio : Consistency → Option Decimal
  ratio c =
      if c.total_periods == 0
      then none
      else checked_div (from_u64 c.positive_periods) (from_u64 c.total_periods)

  -- `filter(|r| **r > Decimal::ZERO).count()`
  unfoldable pub count_positive : List Decimal → ℕ
  count_positive [] = 0
  count_positive (r ∷ returns) =
      if lt_dec zero_dec r then suc (count_positive returns) else count_positive returns

  unfoldable pub consistency : List Decimal → Consistency
  consistency period_returns = record {
    positive_periods = count_positive period_returns;
    total_periods = length period_returns;
  }

  pub data CagrError : Type 0 where
    insufficient_sample : (actual required : ℕ) → CagrError
    non_positive_index : (index_start index_end : Decimal) → CagrError
    numeric_range : CagrError

  unfoldable pub cagr : (index_start index_end : Decimal) → ℕ → Result CagrError Decimal
  cagr index_start index_end days_elapsed =
      if ltb days_elapsed min_cagr_days
      then err (insufficient_sample days_elapsed min_cagr_days)
      else if le_dec dec index_start zero_dec || le_dec dec index_end zero_dec
      then err (non_positive_index index_start index_end)
      else do
        growth ← ok_or (checked_div index_end index_start) numeric_range
        exponent ← ok_or (checked_div (from_u64 365) (from_u64 days_elapsed)) numeric_range
        powered ← ok_or (checked_powd growth exponent) numeric_range
        ok_or (checked_sub powered one_dec) numeric_range
