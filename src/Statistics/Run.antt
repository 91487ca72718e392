-- ===== src/Statistics/Run.antt =====
-- zkvm/methods/statistics/guest/src/lib.rs: the whole guest.
pub mod Verdict
use linvesther.Prelude.{ℕ, List, Result, ok, ◌>>=◌, map_err}
use linvesther.Prelude.Int.{ℤ}
use linvesther.Statistics.Bracket.{Bracket}
use linvesther.Statistics.Stats.{
  StatsError, ClaimOperator, ClaimVerdict, evaluate_claim, sharpe_bracket, sortino_bracket,
  cagr_bracket,
}

pub data MetricClaim : Type 0 where
  sharpe : (returns : List ℤ) (rf_daily : ℤ) (operator : ClaimOperator) → MetricClaim
  sortino : (returns : List ℤ) (mar_daily : ℤ) (operator : ClaimOperator) → MetricClaim
  cagr : (index_start index_end : ℤ) (days_elapsed : ℕ) (operator : ClaimOperator) → MetricClaim

pub record GuestInput : Type 0 where
  pub claim : MetricClaim

pub record GuestOutput : Type 0 where
  pub bracket_lower : ℤ
  pub bracket_upper : ℤ
  pub verdict : ClaimVerdict

pub data GuestError : Type 0 where
  stats : StatsError → GuestError

-- The `match` on the claim: its bracket and its operator.
unfoldable pub measure : MetricClaim → Result StatsError Bracket
measure (sharpe returns rf_daily operator) = sharpe_bracket returns rf_daily
measure (sortino returns mar_daily operator) = sortino_bracket returns mar_daily
measure (cagr index_start index_end days_elapsed operator) =
    cagr_bracket index_start index_end days_elapsed

unfoldable pub operator_of : MetricClaim → ClaimOperator
operator_of (sharpe returns rf_daily operator) = operator
operator_of (sortino returns mar_daily operator) = operator
operator_of (cagr index_start index_end days_elapsed operator) = operator

unfoldable pub run : GuestInput → Result GuestError GuestOutput
unfolding measure operator_of
run input = do
  bracket ← map_err stats (measure input.claim)
  ok (record {
    bracket_lower = bracket.lower;
    bracket_upper = bracket.upper;
    verdict = evaluate_claim bracket (operator_of input.claim);
  })
