-- ===== src/Statistics/Bracket.antt =====
-- zkvm/methods/statistics/guest/src/bracket.rs: intervals of `i128` at the scale 10^12.
pub mod Root
pub mod Sound
use linvesther.Prelude.{
  ℕ, zero, suc, ◌-◌, ◌+◌, ◌^◌, Option, none, some, and_then, Bool, true, false, ◌||◌, not,
  if◌then◌else◌, List, [], ◌∷◌,
}
use linvesther.Prelude.Int.{ℤ, pos, negsuc, ltb_ℤ, leb_ℤ, eqb_ℤ, min_ℤ, max_ℤ}
use linvesther.Prelude.Machine.{
  magnitude, is_negative, ◌+i128◌, ◌-i128◌, checked_mul_i128, ◌/ℤ◌, ◌%ℤ◌, i128_half,
}

abbrev pub scale : ℤ
scale = pos 1_000_000_000_000

-- The `while` loop, on fuel; `none` means that the fuel ran out while the loop was still going.
unfoldable pub isqrt_loop : ℕ → ℤ → ℤ → ℤ → Option ℤ
isqrt_loop zero n x y = none
isqrt_loop (suc fuel) n x y =
    let rest = isqrt_loop fuel n y ((y +i128 (n /ℤ y)) /ℤ pos 2) in
    if ltb_ℤ y x then rest else some x

-- `isqrt_floor`, with as many rounds as the number itself; `none` if they do not end the loop.
unfoldable pub isqrt_run : ℤ → Option ℤ
isqrt_run n =
    if leb_ℤ n (pos 0)
    then some (pos 0)
    else isqrt_loop (magnitude n) n n ((n +i128 pos 1) /ℤ pos 2)

abbrev pub or_zero : Option ℤ → ℤ
or_zero none = pos 0
or_zero (some r) = r

-- The value for the callers, zero where `isqrt_run` has none.
unfoldable pub isqrt_floor : ℤ → ℤ
unfolding isqrt_run
isqrt_floor n = or_zero (isqrt_run n)

pub record Bracket : Type 0 where
  pub lower : ℤ
  pub upper : ℤ

unfoldable pub exact : ℤ → Bracket
exact v = record { lower = v; upper = v }

-- The quotient, one more if there is a remainder.
abbrev pub ceil_of : ℤ → ℤ → ℤ
ceil_of floor_div remainder =
    if not (eqb_ℤ remainder (pos 0)) then floor_div +i128 pos 1 else floor_div

-- `if upper.checked_mul(upper)? < target { upper += 1 }`
unfoldable pub round_up : ℤ → ℤ → Option ℤ
round_up upper target =
    and_then (checked_mul_i128 upper upper)
      (λ square. some (if ltb_ℤ square target then upper +i128 pos 1 else upper))

unfoldable pub sqrt_bracket_scaled : ℤ → ℤ → ℤ → Option Bracket
unfolding round_up
sqrt_bracket_scaled num den out_scale =
    if leb_ℤ den (pos 0) || ltb_ℤ num (pos 0)
    then none
    else and_then (checked_mul_i128 num out_scale) (λ once.
      and_then (checked_mul_i128 once out_scale) (λ scaled_num.
        let floor_div = scaled_num /ℤ den in
        let ceil_div = ceil_of floor_div (scaled_num %ℤ den) in
        and_then (round_up (isqrt_floor ceil_div) ceil_div)
          (λ upper. some (record { lower = isqrt_floor floor_div; upper = upper }))))

unfoldable pub sqrt_of_scaled : ℤ → Option Bracket
unfolding round_up
sqrt_of_scaled v =
    if ltb_ℤ v (pos 0)
    then none
    else and_then (checked_mul_i128 v scale) (λ scaled.
      and_then (round_up (isqrt_floor scaled) scaled)
        (λ upper. some (record { lower = isqrt_floor scaled; upper = upper })))

unfoldable pub sqrt_of_bracket : Bracket → Option Bracket
unfolding sqrt_of_scaled
sqrt_of_bracket b = and_then (sqrt_of_scaled b.lower) (λ low.
    and_then (sqrt_of_scaled b.upper)
      (λ high. some (record { lower = low.lower; upper = high.upper })))

unfoldable pub mul_bracket_nonneg : Bracket → Bracket → Option Bracket
mul_bracket_nonneg a b = and_then (checked_mul_i128 a.lower b.lower) (λ lower_num.
    and_then (checked_mul_i128 a.upper b.upper) (λ upper_num. some (record {
      lower = lower_num /ℤ scale;
      upper = ceil_of (upper_num /ℤ scale) (upper_num %ℤ scale);
    })))

-- `rem_euclid`: the remainder made non-negative by the size of the divisor.
unfoldable pub rem_euclid : ℤ → ℤ → ℤ
rem_euclid a b =
    let r = a %ℤ b in if is_negative r then (if is_negative b then r -i128 b else r +i128 b) else r

-- `div_euclid`: the quotient that belongs to it.
unfoldable pub div_euclid : ℤ → ℤ → ℤ
div_euclid a b =
    let q = a /ℤ b in
    if is_negative (a %ℤ b) then (if is_negative b then q +i128 pos 1 else q -i128 pos 1) else q

-- The loop over the corners.
unfoldable pub corners_loop : ℤ → ℤ → ℤ → ℤ → List (ℤ × ℤ) → Option Bracket
unfolding div_euclid rem_euclid
corners_loop m n lower upper [] = some (record { lower = lower; upper = upper })
corners_loop m n lower upper ((tc, sc) ∷ corners) = and_then (checked_mul_i128 tc m) (λ num.
    and_then (checked_mul_i128 n sc) (λ den.
      let fl = div_euclid num den in
      let ce = ceil_of fl (rem_euclid num den) in
      let rest = corners_loop m n (min_ℤ lower fl) (max_ℤ upper ce) corners in
      if eqb_ℤ den (pos 0) then none else rest))

unfoldable pub ratio_bracket : Bracket → ℤ → ℤ → Bracket → Option Bracket
unfolding corners_loop
ratio_bracket t m n s =
    corners_loop m n (pos (2 ^ 127 - 1)) (negsuc (2 ^ 127 - 1))
      ((t.lower, s.lower) ∷ (t.lower, s.upper) ∷ (t.upper, s.lower) ∷ (t.upper, s.upper) ∷ [])
