-- ===== src/Prelude/Machine.antt =====
-- Rust's fixed-width integers as it compiles them in the release profile, which the workspace
-- leaves at its defaults: `+`, `-` and `*` wrap, the `checked_` forms give `None`, and the
-- `saturating_` forms stop at the bounds. A value is the integer that it stands for.
use linvesther.Prelude.Tests.{ltb, leb, if◌then◌else◌}
use linvesther.Prelude.Int.{ℤ, pos, negsuc, pos_part, neg_part, ◌+ℤ◌, ◌-ℤ◌, ◌*ℤ◌}
use Prim.Native.Nat.{ℕ, zero, suc, ◌+◌, ◌-◌, ◌/◌, ◌%◌, ◌^◌, ◌≤◌, ◌<◌}
use mathlib.Core.Path.{◌≡◌, refl}
use mathlib.Core.Bool.{Bool, true, false, ◌&&◌, not}
use mathlib.Core.Option.{Option, none, some}
use native.Mathlib.Omega.{arith}
use native.Mathlib.Nat.{mod-eq_of_lt, mod-lt}

-- Half the range of an integer type: 2 ^ 63 for `i64`, 2 ^ 127 for `i128`.
abbrev pub i64_half : ℕ
i64_half = 2 ^ 63

abbrev pub i128_half : ℕ
i128_half = 2 ^ 127

module _ (half : ℕ) where
  -- The values of a signed type run from -half to half - 1. (Written so that `omega` needs no
  -- fact about the two parts.)
  abbrev pub InRange : ℤ → Type 0
  InRange a = (pos_part a < half + neg_part a) × (neg_part a ≤ half + pos_part a)

  abbrev pub in_range : ℤ → Bool
  in_range a = ltb (pos_part a) half && leb (neg_part a) half

  -- The value with the same residue modulo 2 * half.
  abbrev pub of_residue : ℕ → ℤ
  of_residue r = if ltb r half then pos r else negsuc (half + half - r - 1)

  unfoldable pub wrap : ℤ → ℤ
  wrap (pos n) = of_residue (n % (half + half))
  wrap (negsuc n) = of_residue (half + half - 1 - n % (half + half))

  abbrev pub checked : ℤ → Option ℤ
  checked a = if in_range a then some a else none

pub in_range→InRange : (half : ℕ) (a : ℤ) → in_range half a ≡ true → InRange half a
in_range→InRange half a h = ground arith

-- Inside the range nothing wraps.
pub wrap_lem : (half : ℕ) (a : ℤ) → InRange half a → wrap half a ≡ a
unfolding wrap
wrap_lem half (pos n) h = rw (mod-eq_of_lt {n = n} {m = half + half} (omega arith)) (ground arith)
wrap_lem half (negsuc n) h =
    rw (mod-eq_of_lt {n = n} {m = half + half} (omega arith)) (ground arith)

-- What wraps stays in the range.
pub wrap-InRange : (half : ℕ) (a : ℤ) → 0 < half → InRange half (wrap half a)
unfolding wrap
wrap-InRange half (pos n) h = let lt = mod-lt n {m = half + half} (omega arith) in ground arith
wrap-InRange half (negsuc n) h = let lt = mod-lt n {m = half + half} (omega arith) in ground arith

pub checked-eq-some :
    (half : ℕ) (a : ℤ) {b : ℤ} → checked half a ≡ some b → (a ≡ b) × InRange half a
checked-eq-some half a h = ground arith

pub checked_lem : (half : ℕ) (a : ℤ) → InRange half a → checked half a ≡ some a
checked_lem half a h = ground arith

-- `i64`: the operators wrap.
infixl 65 ◌+i64◌ ◌-i64◌
unfoldable pub ◌+i64◌ : ℤ → ℤ → ℤ
a +i64 b = wrap i64_half (a +ℤ b)

unfoldable pub ◌-i64◌ : ℤ → ℤ → ℤ
a -i64 b = wrap i64_half (a -ℤ b)

pub +i64_lem : (a b : ℤ) → InRange i64_half (a +ℤ b) → a +i64 b ≡ a +ℤ b
unfolding ◌+i64◌
+i64_lem a b h = wrap_lem i64_half (a +ℤ b) h

pub -i64_lem : (a b : ℤ) → InRange i64_half (a -ℤ b) → a -i64 b ≡ a -ℤ b
unfolding ◌-i64◌
-i64_lem a b h = wrap_lem i64_half (a -ℤ b) h

-- `i128`: `as i128` of an `i64` is the value itself; the operators wrap.
infixl 65 ◌+i128◌ ◌-i128◌
infixl 70 ◌*i128◌
unfoldable pub ◌+i128◌ : ℤ → ℤ → ℤ
a +i128 b = wrap i128_half (a +ℤ b)

unfoldable pub ◌-i128◌ : ℤ → ℤ → ℤ
a -i128 b = wrap i128_half (a -ℤ b)

unfoldable pub ◌*i128◌ : ℤ → ℤ → ℤ
a *i128 b = wrap i128_half (a *ℤ b)

pub +i128_lem : (a b : ℤ) → InRange i128_half (a +ℤ b) → a +i128 b ≡ a +ℤ b
unfolding ◌+i128◌
+i128_lem a b h = wrap_lem i128_half (a +ℤ b) h

pub -i128_lem : (a b : ℤ) → InRange i128_half (a -ℤ b) → a -i128 b ≡ a -ℤ b
unfolding ◌-i128◌
-i128_lem a b h = wrap_lem i128_half (a -ℤ b) h

pub *i128_lem : (a b : ℤ) → InRange i128_half (a *ℤ b) → a *i128 b ≡ a *ℤ b
unfolding ◌*i128◌
*i128_lem a b h = wrap_lem i128_half (a *ℤ b) h

unfoldable pub checked_add_i128 : ℤ → ℤ → Option ℤ
checked_add_i128 a b = checked i128_half (a +ℤ b)

unfoldable pub checked_sub_i128 : ℤ → ℤ → Option ℤ
checked_sub_i128 a b = checked i128_half (a -ℤ b)

unfoldable pub checked_mul_i128 : ℤ → ℤ → Option ℤ
checked_mul_i128 a b = checked i128_half (a *ℤ b)

-- The integer of sign `s` (true for a negative one) and magnitude `n`.
abbrev pub signed : Bool → ℕ → ℤ
signed s zero = pos zero
signed false (suc n) = pos (suc n)
signed true (suc n) = negsuc n

abbrev pub magnitude : ℤ → ℕ
magnitude (pos n) = n
magnitude (negsuc n) = suc n

abbrev pub is_negative : ℤ → Bool
is_negative (pos n) = false
is_negative (negsuc n) = true

-- `/` and `%` truncate towards zero. The divisor is not zero where the code divides, and the
-- one quotient that leaves the range, MIN / -1, cannot arise from a positive divisor.
infixl 70 ◌/ℤ◌ ◌%ℤ◌
unfoldable pub ◌/ℤ◌ : ℤ → ℤ → ℤ
a /ℤ b =
    signed (if is_negative a then not (is_negative b) else is_negative b)
      (magnitude a / magnitude b)

unfoldable pub ◌%ℤ◌ : ℤ → ℤ → ℤ
a %ℤ b = signed (is_negative a) (magnitude a % magnitude b)

pub pos-/ℤ : (m n : ℕ) → ◌/ℤ◌ (pos m) (pos n) ≡ pos (m / n)
unfolding ◌/ℤ◌
pos-/ℤ m n = elim (m / n) as (λ q. signed false q ≡ pos q) [ zero ↦ refl | suc q ↦ refl ]

pub pos-%ℤ : (m n : ℕ) → ◌%ℤ◌ (pos m) (pos n) ≡ pos (m % n)
unfolding ◌%ℤ◌
pos-%ℤ m n = elim (m % n) as (λ r. signed false r ≡ pos r) [ zero ↦ refl | suc r ↦ refl ]
