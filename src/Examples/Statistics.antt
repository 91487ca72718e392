-- ===== src/Examples/Statistics.antt =====
-- Brackets and claims at small numbers.
use linvesther.Prelude.{ℕ, ◌≡◌, ◌*◌, ◌≤◌, ◌+◌, refl, some, ok, arith}
use linvesther.Prelude.Int.{pos, ◌+ℤ◌, ◌-ℤ◌, ◌*ℤ◌}
use linvesther.Prelude.Machine.{◌+i128◌, ◌-i128◌, checked_mul_i128, ◌/ℤ◌, ◌%ℤ◌, wrap}
use linvesther.Statistics.Bracket.{
  Bracket, isqrt_loop, isqrt_run, isqrt_floor, sqrt_of_scaled, sqrt_of_bracket, mul_bracket_nonneg,
}
use linvesther.Statistics.Bracket.Root.{IsRoot, isqrt_floor_exact}
use linvesther.Statistics.Bracket.Sound.{sqrt_of_scaled_sound}
use linvesther.Statistics.Stats.{greater_than, rejected, cagr_bracket, evaluate_claim}
use linvesther.Statistics.Run.{GuestInput, GuestOutput, cagr, run}
use linvesther.Statistics.Run.Verdict.{IsDecided, run-IsDecided}

isqrt_floor_exact_example :
    (r : ℕ) × (isqrt_run (pos 17) ≡ some (pos r)) × (isqrt_floor (pos 17) ≡ pos r) × IsRoot 17 r
isqrt_floor_exact_example = isqrt_floor_exact 17 (omega arith)

abbrev root_of_two : Bracket
root_of_two = record { lower = pos 1_414_213; upper = pos 1_414_214 }

sqrt_two : sqrt_of_scaled (pos 2) ≡ some root_of_two
unfolding sqrt_of_scaled isqrt_floor isqrt_run isqrt_loop checked_mul_i128 ◌*ℤ◌ ◌+i128◌ ◌+ℤ◌ ◌/ℤ◌
    wrap
sqrt_two = refl

sqrt_of_scaled_sound_example :
    (low : ℕ) × (high : ℕ) × (root_of_two.lower ≡ pos low)
    × (root_of_two.upper ≡ pos high)
    × (low * low ≤ 2 * 1_000_000_000_000)
    × (2 * 1_000_000_000_000 ≤ high * high)
    × (high ≤ low + 1)
sqrt_of_scaled_sound_example = sqrt_of_scaled_sound 2 root_of_two (omega arith) sqrt_two

abbrev product : Bracket
product = record { lower = pos 1; upper = pos 3 }

multiply :
    mul_bracket_nonneg
      (record { lower = pos 1_000_000; upper = pos 1_500_000 })
      (record { lower = pos 1_000_000; upper = pos 1_500_000 })
    ≡ some product
unfolding mul_bracket_nonneg checked_mul_i128 ◌*ℤ◌ ◌/ℤ◌ ◌%ℤ◌ ◌+i128◌ ◌+ℤ◌ wrap
multiply = refl

-- An index that does not move for a year: the growth rate is about zero, not above one half.
abbrev input : GuestInput
input = record { claim = cagr (pos 1_000) (pos 1_000) 365 (greater_than (pos 500_000_000_000)) }

abbrev output : GuestOutput
output = record { bracket_lower = pos 0; bracket_upper = pos 0; verdict = rejected }

run_flat : run input ≡ ok output
unfolding run cagr_bracket sqrt_of_bracket sqrt_of_scaled isqrt_floor isqrt_run isqrt_loop
    mul_bracket_nonneg evaluate_claim checked_mul_i128 ◌*ℤ◌ ◌+i128◌ ◌-i128◌ ◌+ℤ◌ ◌-ℤ◌ ◌/ℤ◌ ◌%ℤ◌ wrap
run_flat = refl

run-IsDecided_example : IsDecided input.claim output (pos 0)
run-IsDecided_example = run-IsDecided input output (pos 0) run_flat (omega arith) (omega arith)
