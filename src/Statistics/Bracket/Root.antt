-- ===== src/Statistics/Bracket/Root.antt =====
-- Newton's method in `isqrt_floor` (zkvm/methods/statistics/guest/src/bracket.rs).
use linvesther.Prelude.{
  ℕ, zero, suc, ◌+◌, ◌-◌, ◌*◌, ◌/◌, ◌^◌, ◌<◌, ◌≤◌, ◌≡◌, inl, inr, ◌∙◌, ap, refl, some, arith,
  Bool-cases, true, false, ltb, ltb→lt,
}
use linvesther.Prelude.Int.{pos, negsuc, ◌+ℤ◌, ltb_ℤ, leb_ℤ_of_lt, pos-+ℤ}
use linvesther.Prelude.Machine.{wrap, ◌+i128◌, +i128_lem, ◌/ℤ◌, pos-/ℤ}
use linvesther.Statistics.Bracket.{isqrt_loop, isqrt_run, isqrt_floor, or_zero}
use native.Mathlib.Nat.{le-div_iff_mul-le, mul-div-le, lt-mul-div-succ, mul-le-mul, div_self}

-- The next guess.
abbrev newton : ℕ → ℕ → ℕ
newton n x = (x + n / x) / 2

am_gm_le : (a d : ℕ) → 4 * (a * (a + d)) ≤ (a + (a + d)) * (a + (a + d))
am_gm_le a d = omega arith

am_gm : (a b : ℕ) → 4 * (a * b) ≤ (a + b) * (a + b)
am_gm a b = elim (Bool-cases (ltb a b)) [
  | inl below ↦
      let h = ltb→lt a b below in
      let split : a + (b - a) ≡ b = omega arith in rw split at (am_gm_le a (b - a))
  | inr above ↦
      let h : b ≤ a = ground arith in
      let split : b + (a - b) ≡ a = omega arith in
      let e = rw split at (am_gm_le b (a - b)) in omega (arith, e)
]

-- No guess after the first is too low.
newton-above : (n x : ℕ) → 0 < x → n < (newton n x + 1) * (newton n x + 1)
newton-above n x h =
    let q = n / x in
    let y = newton n x in
    let above : x + (q + 1) ≤ 2 * (y + 1) = omega arith in
    let squares = mul-le-mul above above in
    omega (arith, lt-mul-div-succ n h, am_gm x (q + 1), squares)

sum_small : (n y : ℕ) → 0 < y → y ≤ n → y + n / y ≤ n + 1
sum_small n y h le = grind (arith, mul-div-le n y)

-- One round of the loop on machine integers.
step_exact :
    (n y : ℕ)
    → n + 1 < 2 ^ 127
    → 0 < y
    → y ≤ n
    → (pos y +i128 (pos n /ℤ pos y)) /ℤ pos 2 ≡ pos (newton n y)
step_exact n y small h le =
    let fits = sum_small n y h le in
    rw
      (
        pos-/ℤ n y,
        +i128_lem (pos y) (pos (n / y)) (rw (pos-+ℤ y (n / y)) (omega arith, omega arith)),
        pos-+ℤ y (n / y),
        pos-/ℤ (y + n / y) 2,
      )
      refl

-- The floor of the square root.
abbrev pub IsRoot : ℕ → ℕ → Type 0
IsRoot n r = (r * r ≤ n) × (n < (r + 1) * (r + 1))

stopped : (n x : ℕ) → 0 < x → x ≤ newton n x → x * x ≤ n
stopped n x h le = (le-div_iff_mul-le {k = x} {x = x} {y = n} h).0 (omega arith)

positive : (n y : ℕ) → 0 < n → n < (y + 1) * (y + 1) → 0 < y
positive n zero h lt = absurd (omega arith)
positive n (suc y) h lt = omega arith

isqrt_loop_exact :
    (fuel n x : ℕ)
    → 0 < n
    → n + 1 < 2 ^ 127
    → 0 < x
    → x ≤ n
    → x ≤ fuel
    → n < (x + 1) * (x + 1)
    → (r : ℕ) × (isqrt_loop fuel (pos n) (pos x) (pos (newton n x)) ≡ some (pos r)) × IsRoot n r
unfolding isqrt_loop
isqrt_loop_exact zero n x hn small hx le enough above = absurd (omega arith)
isqrt_loop_exact (suc fuel) n x hn small hx le enough above =
    elim (Bool-cases (ltb (newton n x) x)) [
      | inl lower ↦
          let lt = ltb→lt (newton n x) x lower in
          let next = newton-above n x hx in
          let hy = positive n (newton n x) hn next in
          let (r, looped, root) =
            isqrt_loop_exact fuel n (newton n x) hn small hy (omega arith) (omega arith) next in
          let test : ltb_ℤ (pos (newton n x)) (pos x) ≡ true = ground arith in
          (r, rw (test, step_exact n (newton n x) small hy (omega arith)) looped, root)
      | inr done ↦
          let test : ltb_ℤ (pos (newton n x)) (pos x) ≡ false = ground arith in
          (x, rw test refl, (stopped n x hx (ground arith), above))
    ]

isqrt_run-positive :
    (n : ℕ) → 0 < n → n + 1 < 2 ^ 127 → (r : ℕ) × (isqrt_run (pos n) ≡ some (pos r)) × IsRoot n r
unfolding isqrt_run
isqrt_run-positive n h small =
    let start : pos n +i128 pos 1 ≡ pos (n + 1) =
      +i128_lem (pos n) (pos 1) (rw (pos-+ℤ n 1) (omega arith, omega arith)) ∙ pos-+ℤ n 1 in
    let first : (n + 1) / 2 ≡ newton n n = rw (div_self {n = n} h) refl in
    let big : n < (n + 1) * (n + 1) = grind arith in
    let test = leb_ℤ_of_lt (pos n) (pos 0) (omega arith) in
    let (r, looped, root) = isqrt_loop_exact n n n h small h (omega arith) (omega arith) big in
    let begins : isqrt_run (pos n) ≡ isqrt_loop n (pos n) (pos n) (pos (newton n n)) =
      rw (test, start, pos-/ℤ (n + 1) 2, first) refl in
    (r, begins ∙ looped, root)

-- For every `n` from 0 up to two below 2^127 the loop of `isqrt_floor` ends within `n` rounds, and
-- the result is the largest number whose square is at most `n`.
pub isqrt_floor_exact :
    (n : ℕ)
    → n + 1 < 2 ^ 127
    → (r : ℕ) × (isqrt_run (pos n) ≡ some (pos r)) × (isqrt_floor (pos n) ≡ pos r) × IsRoot n r
unfolding isqrt_run isqrt_floor
isqrt_floor_exact zero small = (0, refl, refl, (omega arith, omega arith))
isqrt_floor_exact (suc m) small =
    let (r, ended, root) = isqrt_run-positive (suc m) (omega arith) small in
    (r, ended, ap or_zero ended, root)

-- The one input left out: at the largest `i128` the sum `x + 1` wraps, and the result is negative.
isqrt_floor_max : isqrt_floor (pos (2 ^ 127 - 1)) ≡ negsuc (2 ^ 126 - 1)
unfolding isqrt_floor isqrt_run isqrt_loop ◌+i128◌ ◌+ℤ◌ ◌/ℤ◌ wrap
isqrt_floor_max = refl
