-- ===== src/Statistics/Bracket/Sound.antt =====
-- The brackets of roots and products (zkvm/methods/statistics/guest/src/bracket.rs) and the numbers
-- that they stand for.
use linvesther.Prelude.{
  ℕ, ◌+◌, ◌*◌, ◌/◌, ◌%◌, ◌^◌, ◌<◌, ◌≤◌, ◌≡◌, inl, inr, ◌∙◌, sym, ap, refl, some, and_then-eq-some,
  true, false, ltb, ◌==◌, arith, Bool-cases,
}
use linvesther.Prelude.Int.{ℤ, pos, ◌*ℤ◌, ltb_ℤ, eqb_ℤ, pos-*ℤ, pos-+ℤ}
use linvesther.Prelude.Machine.{
  ◌+i128◌, +i128_lem, checked_mul_i128, checked-eq-some, i128_half, ◌/ℤ◌, ◌%ℤ◌, pos-/ℤ, pos-%ℤ,
}
use linvesther.Statistics.Bracket.{
  Bracket, scale, ceil_of, isqrt_floor, round_up, sqrt_of_scaled, mul_bracket_nonneg,
}
use linvesther.Statistics.Bracket.Root.{IsRoot, isqrt_floor_exact}
use native.Mathlib.Nat.{div-mul-le_self, lt-mul-div-succ, mul-le-mul, div-add-mod}

abbrev scale_ℕ : ℕ
scale_ℕ = 1_000_000_000_000

checked_mul-pos :
    (m n : ℕ) {r : ℤ}
    → checked_mul_i128 (pos m) (pos n) ≡ some r
    → (r ≡ pos (m * n)) × (m * n < 2 ^ 127)
unfolding checked_mul_i128
checked_mul-pos m n h =
    let (same, small) = checked-eq-some i128_half (pos m *ℤ pos n) h in
    let e = rw (pos-*ℤ m n) at small in (sym same ∙ pos-*ℤ m n, omega arith)

pos-injective : (m n : ℕ) → pos m ≡ pos n → m ≡ n
pos-injective m n h = cc

-- The number whose square reaches the target, given the floor of its root.
round_up_lem :
    (r n : ℕ) {u : ℤ}
    → IsRoot n r
    → round_up (pos r) (pos n) ≡ some u
    → (b : ℕ) × (u ≡ pos b) × (n ≤ b * b) × (b ≤ r + 1)
unfolding round_up
round_up_lem r n root h =
    let (square, multiplied, made) = and_then-eq-some (checked_mul_i128 (pos r) (pos r)) _ h in
    let (is_square, small) = checked_mul-pos r r multiplied in
    let little : r + 1 < 2 ^ 127 = grind arith in
    elim (Bool-cases (ltb (r * r) n)) [
      | inl below ↦
          let test : ltb_ℤ square (pos n) ≡ true = rw is_square (ground arith) in
          let f = rw test at made in
          let next : pos r +i128 pos 1 ≡ pos (r + 1) =
            +i128_lem (pos r) (pos 1) (rw (pos-+ℤ r 1) (omega arith, omega arith)) ∙ pos-+ℤ r 1 in
          (r + 1, cc, omega arith, omega arith)
      | inr reached ↦
          let test : ltb_ℤ square (pos n) ≡ false = rw is_square (ground arith) in
          let f = rw test at made in (r, cc, ground arith, omega arith)
    ]

-- If `sqrt_of_scaled` gives a bracket for a value v of zero or more, then its ends are numbers of
-- zero or more with lower² ≤ v * SCALE ≤ upper², at most one apart: the bracket contains the root.
pub sqrt_of_scaled_sound :
    (v : ℕ) (b : Bracket)
    → v * 1_000_000_000_000 + 1 < 2 ^ 127
    → sqrt_of_scaled (pos v) ≡ some b
    → (low : ℕ) × (high : ℕ) × (b.lower ≡ pos low)
      × (b.upper ≡ pos high)
      × (low * low ≤ v * 1_000_000_000_000)
      × (v * 1_000_000_000_000 ≤ high * high)
      × (high ≤ low + 1)
unfolding sqrt_of_scaled
sqrt_of_scaled_sound v b small h =
    let negative : ltb_ℤ (pos v) (pos 0) ≡ false = ground arith in
    let f = rw negative at h in
    let (scaled, multiplied, f₁) = and_then-eq-some (checked_mul_i128 (pos v) scale) _ f in
    let (is_scaled, _) = checked_mul-pos v scale_ℕ multiplied in
    let (u, rounded, f₂) = and_then-eq-some (round_up (isqrt_floor scaled) scaled) _ f₁ in
    let (r, _, rooted, root) = isqrt_floor_exact (v * scale_ℕ) small in
    let rooted' : isqrt_floor scaled ≡ pos r = ap isqrt_floor is_scaled ∙ rooted in
    let same : round_up (pos r) (pos (v * scale_ℕ)) ≡ some u = cc in
    let (high, is_high, above, near) = round_up_lem r (v * scale_ℕ) root same in
    let built : record { lower = isqrt_floor scaled; upper = u } ≡ b = cc in
    (
      r,
      high,
      sym (ap (λ (x : Bracket). x.lower) built) ∙ rooted',
      sym (ap (λ (x : Bracket). x.upper) built) ∙ is_high,
      root.0,
      above,
      near,
    )

-- A quotient of numbers below 2^127, rounded up.
ceil_of_lem :
    (m : ℕ)
    → m < 2 ^ 127
    → (c : ℕ) × (ceil_of (pos m /ℤ scale) (pos m %ℤ scale) ≡ pos c) × (m ≤ c * scale_ℕ)
ceil_of_lem m small =
    let q = m / scale_ℕ in
    let below = lt-mul-div-succ m {b = scale_ℕ} (omega arith) in
    let next : pos q +i128 pos 1 ≡ pos (q + 1) =
      +i128_lem (pos q) (pos 1) (rw (pos-+ℤ q 1) (omega arith, omega arith)) ∙ pos-+ℤ q 1 in
    let whole = div-add-mod m scale_ℕ in
    elim (Bool-cases (m % scale_ℕ == 0)) [
      | inl none_left ↦
          let zero_left : m % scale_ℕ ≡ 0 = ground arith in
          let test : eqb_ℤ (pos m %ℤ scale) (pos 0) ≡ true =
            rw (pos-%ℤ m scale_ℕ, zero_left) refl in
          (q, rw (test, pos-/ℤ m scale_ℕ) refl, omega arith)
      | inr some_left ↦
          let test : eqb_ℤ (pos m %ℤ scale) (pos 0) ≡ false =
            rw (pos-%ℤ m scale_ℕ) (ground arith) in
          (q + 1, rw (test, pos-/ℤ m scale_ℕ) next, omega arith)
    ]

-- If `mul_bracket_nonneg` gives a bracket for two brackets with ends of zero or more, then for every
-- x in the first and y in the second the product x * y / SCALE lies in it.
mul_bracket_nonneg_sound :
    (al ah bl bh x y : ℕ) (c : Bracket)
    → mul_bracket_nonneg
        (record { lower = pos al; upper = pos ah })
        (record { lower = pos bl; upper = pos bh })
      ≡ some c
    → al ≤ x
    → x ≤ ah
    → bl ≤ y
    → y ≤ bh
    → (low : ℕ) × (high : ℕ) × (c.lower ≡ pos low)
      × (c.upper ≡ pos high)
      × (low * 1_000_000_000_000 ≤ x * y)
      × (x * y ≤ high * 1_000_000_000_000)
unfolding mul_bracket_nonneg
mul_bracket_nonneg_sound al ah bl bh x y c h hal hah hbl hbh =
    let (lower_num, lowered, f₁) = and_then-eq-some (checked_mul_i128 (pos al) (pos bl)) _ h in
    let (upper_num, raised, f₂) = and_then-eq-some (checked_mul_i128 (pos ah) (pos bh)) _ f₁ in
    let (is_lower, _) = checked_mul-pos al bl lowered in
    let (is_upper, small) = checked_mul-pos ah bh raised in
    let (high, is_high, above) = ceil_of_lem (ah * bh) small in
    let built : record {
      lower = lower_num /ℤ scale;
      upper = ceil_of (upper_num /ℤ scale) (upper_num %ℤ scale);
    }
        ≡ c =
      cc in
    let floor : lower_num /ℤ scale ≡ pos (al * bl / scale_ℕ) =
      rw is_lower (pos-/ℤ (al * bl) scale_ℕ) in
    (
      al * bl / scale_ℕ,
      high,
      sym (ap (λ (b : Bracket). b.lower) built) ∙ floor,
      sym (ap (λ (b : Bracket). b.upper) built)
          ∙ ap (λ t. ceil_of (t /ℤ scale) (t %ℤ scale)) is_upper
          ∙ is_high,
      omega (arith, div-mul-le_self (al * bl) scale_ℕ, mul-le-mul hal hbl),
      omega (arith, mul-le-mul hah hbh),
    )
