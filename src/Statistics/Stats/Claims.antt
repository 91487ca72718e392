-- ===== src/Statistics/Stats/Claims.antt =====
-- `evaluate_claim` (zkvm/methods/statistics/guest/src/stats.rs) and the values in a bracket.
use linvesther.Prelude.{arith}
use linvesther.Prelude.Int.{ℤ, ◌<ℤ◌, ◌≤ℤ◌}
use linvesther.Statistics.Bracket.{Bracket}
use linvesther.Statistics.Stats.{
  ClaimOperator, greater_than, less_than, ClaimVerdict, approved, rejected, indeterminate_precision,
  evaluate_claim,
}

-- The claim holds of a value.
abbrev pub Holds : ClaimOperator → ℤ → Type 0
Holds (greater_than k) v = k <ℤ v
Holds (less_than k) v = v <ℤ k

-- What each verdict says of a value of the bracket. An undecided claim holds at one end and fails at
-- the other.
abbrev pub Decided : Bracket → ClaimOperator → ℤ → ClaimVerdict → Type 0
Decided b op v approved = Holds op v
Decided b op v rejected = ¬ (Holds op v)
Decided b (greater_than k) v indeterminate_precision = (b.lower ≤ℤ k) × (k <ℤ b.upper)
Decided b (less_than k) v indeterminate_precision = (b.lower <ℤ k) × (k ≤ℤ b.upper)

-- Whatever the claim and the bracket: if `evaluate_claim` approves, the claim holds of every value in
-- the bracket; if it rejects, of none; and it answers neither only if the threshold lies between the
-- ends, so that the claim holds at one and fails at the other.
pub evaluate_claim-Decided :
    (b : Bracket) (op : ClaimOperator) (v : ℤ)
    → b.lower ≤ℤ v
    → v ≤ℤ b.upper
    → Decided b op v (evaluate_claim b op)
unfolding evaluate_claim
evaluate_claim-Decided b (greater_than k) v low high = ground arith
evaluate_claim-Decided b (less_than k) v low high = ground arith
