-- ===== src/Statistics/Run/Verdict.antt =====
-- The output of the statistics guest (zkvm/methods/statistics/guest/src/lib.rs) and its claim.
use linvesther.Prelude.{
  ℕ, ◌≡◌, ◌≤◌, sym, ap, subst, false, ltb, ok, >>=-eq-ok, raise_if-eq-ok, map_err, map_err-eq-ok,
  arith, length, ok-injective,
}
use linvesther.Prelude.Int.{ℤ, ◌≤ℤ◌}
use linvesther.Statistics.Bracket.{Bracket}
use linvesther.Statistics.Stats.{
  insufficient_sample, evaluate_claim, sharpe_bracket, sortino_bracket, cagr_bracket,
}
use linvesther.Statistics.Stats.Claims.{Decided, evaluate_claim-Decided}
use linvesther.Statistics.Run.{
  MetricClaim, sharpe, sortino, cagr, GuestInput, GuestOutput, stats, measure, operator_of, run,
}

-- The sample is as large as the metric asks for.
abbrev pub IsSampled : MetricClaim → Type 0
IsSampled (sharpe returns rf_daily op) = 30 ≤ length returns
IsSampled (sortino returns mar_daily op) = 30 ≤ length returns
IsSampled (cagr index_start index_end days op) = 365 ≤ days

not_less : (a b : ℕ) → ltb a b ≡ false → b ≤ a
not_less a b h = ground arith

measure-IsSampled : (claim : MetricClaim) {b : Bracket} → measure claim ≡ ok b → IsSampled claim
unfolding measure sharpe_bracket sortino_bracket cagr_bracket
measure-IsSampled (sharpe returns rf op) h =
    not_less (length returns) 30
      (raise_if-eq-ok (ltb (length returns) 30) (insufficient_sample (length returns) 30) _ h).0
measure-IsSampled (sortino returns mar op) h =
    not_less (length returns) 30
      (raise_if-eq-ok (ltb (length returns) 30) (insufficient_sample (length returns) 30) _ h).0
measure-IsSampled (cagr start end days op) h =
    not_less days 365 (raise_if-eq-ok (ltb days 365) (insufficient_sample days 365) _ h).0

-- The published bracket is the metric's, its sample is large enough, and the verdict is right for
-- the value.
pub record IsDecided (claim : MetricClaim) (output : GuestOutput) (v : ℤ) : Type 0 where
  pub bracket : Bracket
  pub measured : measure claim ≡ ok bracket
  pub lower_of : output.bracket_lower ≡ bracket.lower
  pub upper_of : output.bracket_upper ≡ bracket.upper
  pub sampled : IsSampled claim
  pub decided : Decided bracket (operator_of claim) v output.verdict

-- If the guest returns an output, then its bracket is the one computed for the claim's metric, from
-- at least 30 returns or 365 days, and for every value in that bracket its verdict is right: approved
-- means that the claim holds of the value, rejected that it does not, and the third that the
-- threshold lies between the ends.
pub run-IsDecided :
    (input : GuestInput) (output : GuestOutput) (v : ℤ)
    → run input ≡ ok output
    → output.bracket_lower ≤ℤ v
    → v ≤ℤ output.bracket_upper
    → IsDecided input.claim output v
unfolding run
run-IsDecided input output v h low high =
    let (b, mapped, made) = >>=-eq-ok (map_err stats (measure input.claim)) _ h in
    let measured = map_err-eq-ok stats (measure input.claim) mapped in
    let built : record {
      bracket_lower = b.lower;
      bracket_upper = b.upper;
      verdict = evaluate_claim b (operator_of input.claim);
    }
        ≡ output =
      ok-injective made in
    let lower : output.bracket_lower ≡ b.lower =
      sym (ap (λ (o : GuestOutput). o.bracket_lower) built) in
    let upper : output.bracket_upper ≡ b.upper =
      sym (ap (λ (o : GuestOutput). o.bracket_upper) built) in
    record {
      bracket = b;
      measured = measured;
      lower_of = lower;
      upper_of = upper;
      sampled = measure-IsSampled input.claim measured;
      decided =
          subst (λ (o : GuestOutput). Decided b (operator_of input.claim) v o.verdict) built
            (evaluate_claim-Decided b (operator_of input.claim) v (rw lower at low)
              (rw upper at high));
    }
