-- ===== src/Domain/Returns.antt =====
-- crates/domain/returns/src/twr.rs: the time-weighted return of one segment.
pub mod Chained
use linvesther.Prelude.{
  ℕ, List, [], ◌∷◌, ◌++◌, Option, none, some, Bool, true, false, Result, ok, err, ◌>>=◌, ok_or,
  if◌then◌else◌, not,
}
use linvesther.Domain.Decimal.{Decimals, le_dec}

module _ (dec : Decimals) where
  open dec use {Decimal, zero_dec, one_dec, checked_add, checked_sub, checked_mul, checked_div}

  pub data TimelineEvent : Type 0 where
    valuation : (time_ms : ℕ) (nav : Decimal) → TimelineEvent
    flow : (time_ms : ℕ) (amount : Decimal) → TimelineEvent

  pub data ReturnError : Type 0 where
    non_positive_baseline : (v_start : Decimal) → ReturnError
    numeric_range : ReturnError

  pub record TwrResult : Type 0 where
    pub index : Decimal
    pub sub_returns : List Decimal

  unfoldable pub checked_ratio_minus_one :
      (numerator denominator : Decimal) → Result ReturnError Decimal
  checked_ratio_minus_one numerator denominator =
      if le_dec dec denominator zero_dec then err (non_positive_baseline denominator) else do
        ratio ← ok_or (checked_div numerator denominator) numeric_range
        ok_or (checked_sub ratio one_dec) numeric_range

  unfoldable pub chain : (index r : Decimal) → Result ReturnError Decimal
  chain index r = do
    factor ← ok_or (checked_add one_dec r) numeric_range
    ok_or (checked_mul index factor) numeric_range

  unfoldable pub cumulative_return : (index_a index_b : Decimal) → Result ReturnError Decimal
  cumulative_return index_a index_b =
      if le_dec dec index_a zero_dec
      then err (non_positive_baseline index_a)
      else checked_ratio_minus_one index_b index_a

  -- A valuation closes the subperiod that is open, if one is.
  unfoldable pub close_subperiod :
      Option Decimal → (nav index : Decimal) → List Decimal → Result ReturnError TwrResult
  close_subperiod none nav index sub_returns =
      ok (record { index = index; sub_returns = sub_returns })
  close_subperiod (some v_start) nav index sub_returns =
      if le_dec dec v_start zero_dec then err (non_positive_baseline v_start) else do
        r ← checked_ratio_minus_one nav v_start
        chained ← chain index r
        ok (record { index = chained; sub_returns = sub_returns ++ (r ∷ []) })

  -- `current_nav.unwrap_or(Decimal::ZERO)`
  abbrev pub nav_or_zero : Option Decimal → Decimal
  nav_or_zero none = zero_dec
  nav_or_zero (some nav) = nav

  -- The loop, with `index`, `sub_returns` and `current_nav`.
  unfoldable pub twr_loop :
      List TimelineEvent → Decimal → List Decimal → Option Decimal → Result ReturnError TwrResult
  twr_loop [] index sub_returns current_nav =
      ok (record { index = index; sub_returns = sub_returns })
  twr_loop (valuation time_ms nav ∷ events) index sub_returns current_nav = do
    state ← close_subperiod current_nav nav index sub_returns
    twr_loop events state.index state.sub_returns (some nav)
  twr_loop (flow time_ms amount ∷ events) index sub_returns current_nav = do
    after ← ok_or (checked_add (nav_or_zero current_nav) amount) numeric_range
    twr_loop events index sub_returns (some after)

  unfoldable pub compute_twr : List TimelineEvent → Result ReturnError TwrResult
  compute_twr events = twr_loop events one_dec [] none
