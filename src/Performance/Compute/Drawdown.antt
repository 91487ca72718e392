-- ===== src/Performance/Compute/Drawdown.antt =====
-- `max_drawdown_bp` (zkvm/methods/performance/guest/src/compute.rs) against the maximum over pairs of
-- values.
use linvesther.Prelude.{
  ℕ, zero, suc, ◌+◌, ◌-◌, ◌*◌, ◌/◌, ◌<◌, ◌≤◌, ◌≡◌, ◌⊎◌, inl, inr, refl, ap, List, [], ◌∷◌, map,
  some, ok, arith, All, true, false, ltb, get_elem?, Bool-cases, if◌then◌else◌,
}
use linvesther.Prelude.Int.{pos, ◌-ℤ◌, ltb_ℤ, leb_ℤ_of_lt, int_laws}
use linvesther.Prelude.Machine.{◌*i128◌, ◌-i128◌, -i128_lem, ◌/ℤ◌, pos-/ℤ, wrap_lem, i64_half}
use linvesther.Performance.Compute.{scale, drawdown_loop, max_drawdown_bp}
use linvesther.Performance.Compute.Index.{IsNav, scale_ℕ, pos-*i128}
use native.Mathlib.Nat.{
  div-mul-le_self, mul-le-mul_right, le-div_iff_mul-le, div-le_of_le-mul, le_trans,
}

-- The fall from a peak to a value, in parts of SCALE; zero if the value is no lower.
abbrev pub drawdown : ℕ → ℕ → ℕ
drawdown peak value = (peak - value) * scale_ℕ / peak

-- The same in basis points, as the guest rounds it.
abbrev pub drawdown_bp : ℕ → ℕ → ℕ
drawdown_bp peak value = drawdown peak value * 10_000 / scale_ℕ

-- The loop over exact numbers.
deepest : ℕ → ℕ → List ℕ → ℕ
deepest peak worst [] = worst
deepest peak worst (value ∷ nav) =
    deepest (if ltb peak value then value else peak)
      (if ltb peak value
        then worst
        else if ltb worst (drawdown peak value)
        then drawdown peak value
        else worst)
      nav

drawdown-le : (peak value : ℕ) → 0 < peak → drawdown peak value ≤ scale_ℕ
drawdown-le peak value h = div-le_of_le-mul peak (omega arith)

-- One step of the machine loop.
drawdown_exact :
    (peak value : ℕ)
    → IsNav peak
    → value ≤ peak
    → ((pos peak -i128 pos value) *i128 scale) /ℤ pos peak ≡ pos (drawdown peak value)
drawdown_exact peak value h le =
    let fall : pos peak -ℤ pos value ≡ pos (peak - value) = omega int_laws in
    rw
      (
        -i128_lem (pos peak) (pos value) (rw fall (omega arith, omega arith)),
        fall,
        pos-*i128 (peak - value) scale_ℕ (omega arith),
        pos-/ℤ ((peak - value) * scale_ℕ) peak,
      )
      refl

drawdown_loop_exact :
    (i peak worst : ℕ) (nav : List ℕ)
    → IsNav peak
    → worst ≤ scale_ℕ
    → All IsNav nav
    → (drawdown_loop i (pos peak) (pos worst) (map pos nav) ≡ ok (pos (deepest peak worst nav)))
      × (deepest peak worst nav ≤ scale_ℕ)
unfolding drawdown_loop deepest
drawdown_loop_exact i peak worst [] hp hw h = (refl, hw)
drawdown_loop_exact i peak worst (value ∷ nav) hp hw h =
    let positive = leb_ℤ_of_lt (pos value) (pos 0) (omega arith) in
    elim (Bool-cases (ltb peak value)) [
      | inl higher ↦
          let up : ltb_ℤ (pos peak) (pos value) ≡ true = ground arith in
          rw (positive, up, higher) (drawdown_loop_exact (i + 1) value worst nav h.0 hw h.1)
      | inr lower ↦
          let down : ltb_ℤ (pos peak) (pos value) ≡ false = ground arith in
          let exact = drawdown_exact peak value hp (ground arith) in
          let small = drawdown-le peak value hp.0 in
          elim (Bool-cases (ltb worst (drawdown peak value))) [
            | inl deeper ↦
                let more : ltb_ℤ (pos worst) (pos (drawdown peak value)) ≡ true = ground arith in
                rw (positive, down, lower, exact, more, deeper)
                  (drawdown_loop_exact (i + 1) peak (drawdown peak value) nav hp small h.1)
            | inr no_deeper ↦
                let less : ltb_ℤ (pos worst) (pos (drawdown peak value)) ≡ false = ground arith in
                rw (positive, down, lower, exact, less, no_deeper)
                  (drawdown_loop_exact (i + 1) peak worst nav hp hw h.1)
          ]
    ]

-- A fall from further up is deeper.
fall_mono :
    (low e d top high : ℕ)
    → 0 < low
    → d ≤ low
    → top ≡ d + e
    → high ≡ low + e
    → d * scale_ℕ / low ≤ top * scale_ℕ / high
fall_mono low e d top high h le p q =
    let small : d * scale_ℕ / low ≤ scale_ℕ = div-le_of_le-mul low (omega arith) in
    rw (p, q)
      ((le-div_iff_mul-le (omega arith)).1
        (omega (arith, div-mul-le_self (d * scale_ℕ) low, mul-le-mul_right e small)))

drawdown_zero : (peak value : ℕ) → peak ≤ value → drawdown peak value ≤ 0
drawdown_zero peak value h = div-le_of_le-mul peak (omega arith)

drawdown_mono :
    (low high value : ℕ) → 0 < low → low ≤ high → drawdown low value ≤ drawdown high value
drawdown_mono low high value h le = elim (Bool-cases (ltb low value)) [
  | inl above ↦ le_trans (drawdown_zero low value (ground arith)) (omega arith)
  | inr below ↦
      let le' : value ≤ low = ground arith in
      fall_mono low (high - low) (low - value) (high - value) high h (omega arith) (omega arith)
        (omega arith)
]

-- The loop's result is at least what it started with, and at least the fall from any earlier value
-- to any value that it reads.
deepest-ge : (peak worst : ℕ) (nav : List ℕ) → worst ≤ deepest peak worst nav
unfolding deepest
deepest-ge peak worst [] = omega arith
deepest-ge peak worst (value ∷ nav) = ground (
  arith,
  deepest-ge value worst nav,
  deepest-ge peak worst nav,
  deepest-ge peak (drawdown peak value) nav,
)

deepest-ge_peak :
    (low peak worst : ℕ) (nav : List ℕ) (j b : ℕ)
    → 0 < low
    → low ≤ peak
    → get_elem? nav j ≡ some b
    → drawdown low b ≤ deepest peak worst nav
unfolding deepest
deepest-ge_peak low peak worst [] j b h le e = absurd cc
deepest-ge_peak low peak worst (value ∷ nav) zero b h le e =
    let here : value ≡ b = cc in
    rw (← here) (
      ground (
        arith,
        drawdown_zero low value,
        drawdown_mono low peak value h le,
        deepest-ge peak worst nav,
        deepest-ge peak (drawdown peak value) nav,
      ))
deepest-ge_peak low peak worst (value ∷ nav) (suc j) b h le e = ground (
  arith,
  deepest-ge_peak low value worst nav j b h,
  deepest-ge_peak low peak worst nav j b h le e,
  deepest-ge_peak low peak (drawdown peak value) nav j b h le e,
)

deepest-ge_pair :
    (peak worst : ℕ) (nav : List ℕ) (i j a b : ℕ)
    → All IsNav nav
    → i ≤ j
    → get_elem? nav i ≡ some a
    → get_elem? nav j ≡ some b
    → drawdown a b ≤ deepest peak worst nav
unfolding deepest
deepest-ge_pair peak worst [] i j a b h le ea eb = absurd cc
deepest-ge_pair peak worst (value ∷ nav) zero zero a b h le ea eb =
    let same : b ≡ a = cc in rw same (le_trans (drawdown_zero a a (omega arith)) (omega arith))
deepest-ge_pair peak worst (value ∷ nav) (suc i) zero a b h le ea eb = absurd (omega arith)
deepest-ge_pair peak worst (value ∷ nav) zero (suc j) a b h le ea eb =
    let here : value ≡ a = cc in
    rw (← here) (
      ground (
        arith,
        deepest-ge_peak value value worst nav j b h.0.0,
        deepest-ge_peak value peak worst nav j b h.0.0,
        deepest-ge_peak value peak (drawdown peak value) nav j b h.0.0,
      ))
deepest-ge_pair peak worst (value ∷ nav) (suc i) (suc j) a b h le ea eb = ground (
  arith,
  deepest-ge_pair value worst nav i j a b h.1,
  deepest-ge_pair peak worst nav i j a b h.1,
  deepest-ge_pair peak (drawdown peak value) nav i j a b h.1,
)

-- `r` is the fall between two values of the list, the first of them no later than the second.
abbrev pub IsFall : List ℕ → ℕ → Type 0
IsFall nav r =
    (i : ℕ) × (j : ℕ) × (a : ℕ) × (b : ℕ) × (i ≤ j)
    × (get_elem? nav i ≡ some a)
    × (get_elem? nav j ≡ some b)
    × (r ≡ drawdown a b)

IsFall-cons : (x : ℕ) (nav : List ℕ) (r : ℕ) → IsFall nav r → IsFall (x ∷ nav) r
IsFall-cons x nav r (i, j, a, b, le, ea, eb, e) = (suc i, suc j, a, b, omega arith, ea, eb, e)

-- A value put second.
IsFall-skip : (p x : ℕ) (nav : List ℕ) (r : ℕ) → IsFall (p ∷ nav) r → IsFall (p ∷ x ∷ nav) r
IsFall-skip p x nav r (zero, zero, a, b, le, ea, eb, e) = (0, 0, a, b, omega arith, ea, eb, e)
IsFall-skip p x nav r (zero, suc j, a, b, le, ea, eb, e) =
    (0, suc (suc j), a, b, omega arith, ea, eb, e)
IsFall-skip p x nav r (suc i, zero, a, b, le, ea, eb, e) = absurd (omega arith)
IsFall-skip p x nav r (suc i, suc j, a, b, le, ea, eb, e) =
    (suc (suc i), suc (suc j), a, b, omega arith, ea, eb, e)

-- The first value once is enough.
IsFall-dup : (p : ℕ) (nav : List ℕ) (r : ℕ) → IsFall (p ∷ p ∷ nav) r → IsFall (p ∷ nav) r
IsFall-dup p nav r (zero, zero, a, b, le, ea, eb, e) = (0, 0, a, b, omega arith, ea, eb, e)
IsFall-dup p nav r (zero, suc j, a, b, le, ea, eb, e) = (0, j, a, b, omega arith, ea, eb, e)
IsFall-dup p nav r (suc i, zero, a, b, le, ea, eb, e) = absurd (omega arith)
IsFall-dup p nav r (suc i, suc j, a, b, le, ea, eb, e) = (i, j, a, b, omega arith, ea, eb, e)

deepest-IsFall :
    (peak worst : ℕ) (nav : List ℕ)
    → (deepest peak worst nav ≡ worst) ⊎ IsFall (peak ∷ nav) (deepest peak worst nav)
unfolding deepest
deepest-IsFall peak worst [] = inl refl
deepest-IsFall peak worst (value ∷ nav) = elim (Bool-cases (ltb peak value)) [
  | inl higher ↦ rw higher (elim (deepest-IsFall value worst nav) [
    | inl same ↦ inl same
    | inr fall ↦ inr (IsFall-cons peak (value ∷ nav) _ fall)
  ])
  | inr lower ↦ rw lower (elim (Bool-cases (ltb worst (drawdown peak value))) [
    | inl deeper ↦ rw deeper (elim (deepest-IsFall peak (drawdown peak value) nav) [
      | inl same ↦ inr (0, 1, peak, value, omega arith, refl, refl, same)
      | inr fall ↦ inr (IsFall-skip peak value nav _ fall)
    ])
    | inr no_deeper ↦ rw no_deeper (elim (deepest-IsFall peak worst nav) [
      | inl same ↦ inl same
      | inr fall ↦ inr (IsFall-skip peak value nav _ fall)
    ])
  ])
]

-- What the guest publishes for a series: at least the fall in basis points between every two
-- values in order, and equal to the fall between some two; 10,000 at most.
pub record IsMaximum (nav : List ℕ) (r : ℕ) : Type 0 where
  pub bounds :
      (i j a b : ℕ)
      → i ≤ j
      → get_elem? nav i ≡ some a
      → get_elem? nav j ≡ some b
      → drawdown_bp a b ≤ r
  pub attained :
      (i : ℕ) × (j : ℕ) × (a : ℕ) × (b : ℕ) × (i ≤ j)
      × (get_elem? nav i ≡ some a)
      × (get_elem? nav j ≡ some b)
      × (r ≡ drawdown_bp a b)
  pub small : r ≤ 10_000

-- For a series of positive `i64` values `max_drawdown_bp` succeeds, and its result is the maximum
-- drawdown: no pair of an earlier and a later value falls by more basis points, some pair falls by
-- exactly as many, and it is 10,000 at most.
pub max_drawdown_bp_exact :
    (first : ℕ) (nav : List ℕ)
    → All IsNav (first ∷ nav)
    → (r : ℕ) × (max_drawdown_bp (map pos (first ∷ nav)) ≡ ok (pos r)) × IsMaximum (first ∷ nav) r
unfolding max_drawdown_bp
max_drawdown_bp_exact first nav h =
    let worst = deepest first 0 (first ∷ nav) in
    let (looped, small) = drawdown_loop_exact 0 first 0 (first ∷ nav) h.0 (omega arith) h in
    let positive = leb_ℤ_of_lt (pos first) (pos 0) (omega arith) in
    let (i, j, a, b, le, ea, eb, e) = fall in
    (
      worst * 10_000 / scale_ℕ,
      rw
          (
            positive,
            looped,
            pos-*i128 worst 10_000 (omega arith),
            pos-/ℤ (worst * 10_000) scale_ℕ,
            wrap_lem i64_half (pos (worst * 10_000 / scale_ℕ)) (omega arith, omega arith),
          )
          refl,
      record {
        bounds = λ i j a b le ea eb.
            let below = deepest-ge_pair first 0 (first ∷ nav) i j a b h le ea eb in omega arith;
        attained = (i, j, a, b, le, ea, eb, ap (λ (w : ℕ). w * 10_000 / scale_ℕ) e);
        small = omega arith;
      },
    )
  where
    fall : IsFall (first ∷ nav) (deepest first 0 (first ∷ nav))
    fall = elim (deepest-IsFall first 0 (first ∷ nav)) [
      | inr found ↦ IsFall-dup first nav _ found
      | inl same ↦
          let none_ : drawdown first first ≤ 0 = drawdown_zero first first (omega arith) in
          (0, 0, first, first, omega arith, refl, refl, omega arith)
    ]
