-- ===== src/Performance/Compute/Index.antt =====
-- `twr_index` (zkvm/methods/performance/guest/src/compute.rs) against a chain over exact numbers.
use linvesther.Prelude.{
  ℕ, ◌+◌, ◌*◌, ◌/◌, ◌<◌, ◌≤◌, ◌^◌, ◌≡◌, ◌∙◌, refl, List, [], ◌∷◌, map, ok, arith, All, false,
}
use linvesther.Prelude.Int.{pos, pos-*ℤ, leb_ℤ, leb_ℤ_of_lt}
use linvesther.Prelude.Machine.{◌*i128◌, *i128_lem, ◌/ℤ◌, pos-/ℤ}
use linvesther.Performance.Compute.{scale, index_loop, twr_index}
use native.Mathlib.Nat.{
  mul-div-le, div-mul-le_self, mul-le-mul_left, mul-le-mul_right, le_trans, mul_assoc,
}

-- A positive `i64`.
abbrev pub IsNav : ℕ → Type 0
IsNav n = (0 < n) × (n < 2 ^ 63)

abbrev pub scale_ℕ : ℕ
scale_ℕ = 1_000_000

-- The next index over exact numbers.
abbrev pub chain : ℕ → ℕ → ℕ → ℕ
chain index prev cur = index * (cur * scale_ℕ / prev) / scale_ℕ

-- The specification: the same chain without machine integers.
abbrev pub chained : ℕ → List ℕ → ℕ
chained index [] = index
chained index (prev ∷ []) = index
chained index (prev ∷ cur ∷ nav) = chained (chain index prev cur) (cur ∷ nav)

-- The last of a list that starts with `x`.
abbrev pub final : ℕ → List ℕ → ℕ
final x [] = x
final x (y ∷ ys) = final y ys

pub pos-*i128 : (m n : ℕ) → m * n < 2 ^ 127 → pos m *i128 pos n ≡ pos (m * n)
pos-*i128 m n h =
    *i128_lem (pos m) (pos n) (rw (pos-*ℤ m n) (omega arith, omega arith)) ∙ pos-*ℤ m n

-- prev * ratio ≤ cur * scale, so the product of index and ratio is small.
step_product :
    (index prev cur : ℕ)
    → index ≤ scale_ℕ * prev
    → index * (cur * scale_ℕ / prev) ≤ scale_ℕ * (cur * scale_ℕ)
step_product index prev cur h =
    let ratio = cur * scale_ℕ / prev in
    le_trans (mul-le-mul_right ratio h) (
      rw (mul_assoc scale_ℕ prev ratio) (mul-le-mul_left scale_ℕ (mul-div-le (cur * scale_ℕ) prev)))

-- The invariant is kept: the index times the first value is at most scale times the current one.
chain_bound :
    (index first prev cur : ℕ)
    → index * first ≤ scale_ℕ * prev
    → chain index prev cur * first ≤ scale_ℕ * cur
chain_bound index first prev cur h =
    let ratio = cur * scale_ℕ / prev in
    omega (
      arith,
      mul-le-mul_right first (div-mul-le_self (index * ratio) scale_ℕ),
      mul-le-mul_right ratio h,
      mul-div-le (cur * scale_ℕ) prev,
    )

-- One step of the machine loop is the exact step.
step_exact :
    (index prev cur : ℕ)
    → IsNav prev
    → IsNav cur
    → index ≤ scale_ℕ * prev
    → (pos index *i128 ((pos cur *i128 scale) /ℤ pos prev)) /ℤ scale ≡ pos (chain index prev cur)
step_exact index prev cur hp hc h =
    rw
      (
        pos-*i128 cur scale_ℕ (omega arith),
        pos-/ℤ (cur * scale_ℕ) prev,
        pos-*i128 index (cur * scale_ℕ / prev) (omega (arith, step_product index prev cur h)),
        pos-/ℤ (index * (cur * scale_ℕ / prev)) scale_ℕ,
      )
      refl

index_loop_exact :
    (i index first prev : ℕ) (nav : List ℕ)
    → 0 < first
    → All IsNav (prev ∷ nav)
    → index * first ≤ scale_ℕ * prev
    → (index_loop i (pos index) (map pos (prev ∷ nav)) ≡ ok (pos (chained index (prev ∷ nav))))
      × (chained index (prev ∷ nav) * first ≤ scale_ℕ * final prev nav)
unfolding index_loop
index_loop_exact i index first prev [] pf h le = (refl, le)
index_loop_exact i index first prev (cur ∷ nav) pf h le =
    let below : index ≤ scale_ℕ * prev = omega (arith, mul-le-mul_left index pf) in
    let (looped, bound) =
      index_loop_exact (i + 1) (chain index prev cur) first cur nav pf h.1
        (chain_bound index first prev cur le) in
    let positive : leb_ℤ (pos prev) (pos 0) ≡ false =
      leb_ℤ_of_lt (pos prev) (pos 0) (omega arith) in
    (rw (positive, step_exact index prev cur h.0 h.1.0 below) looped, bound)

-- For a series of positive `i64` values, `twr_index` succeeds, no product overflows `i128` (the
-- result is that of the same chain over unbounded integers), and the index never overstates:
-- index / SCALE is at most the last value divided by the first.
pub twr_index_exact :
    (first : ℕ) (nav : List ℕ)
    → All IsNav (first ∷ nav)
    → (twr_index (map pos (first ∷ nav)) ≡ ok (pos (chained scale_ℕ (first ∷ nav))))
      × (chained scale_ℕ (first ∷ nav) * first ≤ scale_ℕ * final first nav)
unfolding twr_index
twr_index_exact first nav h = index_loop_exact 0 scale_ℕ first first nav h.0.0 h (omega arith)
