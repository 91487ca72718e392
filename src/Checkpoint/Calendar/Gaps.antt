-- ===== src/Checkpoint/Calendar/Gaps.antt =====
-- `derive_gaps` (crates/domain/checkpoint/src/calendar.rs) against the list that the calendar
-- prescribes.
use linvesther.Prelude.{
  ℕ, zero, suc, ◌+◌, ◌*◌, ◌<◌, ◌≡◌, ◌∙◌, ap, refl, inl, inr, Bool, true, none, some, List, [], ◌∷◌,
  get_elem?, if◌then◌else◌, Bool-cases, lt→ltb,
}
use linvesther.Prelude.Int.{
  ℤ, pos, ◌+ℤ◌, ◌≤ℤ◌, ◌<ℤ◌, ltb_ℤ, leb_ℤ, int_laws, ltb_ℤ→lt, ltb_ℤ-false, leb_ℤ→le, leb_ℤ-false,
}
use linvesther.Prelude.Machine.{◌+i64◌, +i64_lem, InRange, i64_half}
use linvesther.Checkpoint.Calendar.{CalendarPolicy, Gap, gaps_loop, derive_gaps}

-- The calendar's interval number `k`, counted from `start`.
abbrev pub interval : ℕ → ℤ → ℕ → Gap
interval i start k = record { start_ms = start +ℤ pos (k * i); end_ms = start +ℤ pos (k * i + i) }

-- The interval number `k` has passed its deadline.
abbrev pub is_missed : ℕ → ℕ → ℤ → ℤ → ℕ → Bool
is_missed i g start now k = leb_ℤ (start +ℤ pos (k * i + i + g)) now

-- An interval and a grace period after any instant up to `now` is still an `i64`, and the time
-- from `start` to `now` is below the fuel.
pub record Fits (i g : ℕ) (start now : ℤ) : Type 0 where
  pub start_fits : InRange i64_half start
  pub start_end : start +ℤ pos (i + g) <ℤ pos i64_half
  pub now_end : now +ℤ pos (i + g) <ℤ pos i64_half

interval-zero :
    (i : ℕ) (start : ℤ) → record { start_ms = start; end_ms = start +ℤ pos i } ≡ interval i start 0
interval-zero i start =
    let first : start ≡ start +ℤ pos (0 * i) = omega int_laws in
    let last : start +ℤ pos i ≡ start +ℤ pos (0 * i + i) = omega int_laws in
    λ j. record { start_ms = first j; end_ms = last j }

interval-suc :
    (i : ℕ) (start : ℤ) (k : ℕ) → interval i (start +ℤ pos i) k ≡ interval i start (suc k)
interval-suc i start k =
    let first : start +ℤ pos i +ℤ pos (k * i) ≡ start +ℤ pos (suc k * i) = omega int_laws in
    let last : start +ℤ pos i +ℤ pos (k * i + i) ≡ start +ℤ pos (suc k * i + i) = omega int_laws in
    λ j. record { start_ms = first j; end_ms = last j }

-- The list that the calendar prescribes from `start` on.
abbrev pub Prescribed : ℕ → ℕ → ℤ → ℤ → List Gap → Type 0
Prescribed i g start now gaps =
    (k : ℕ)
    → get_elem? gaps k ≡ (if is_missed i g start now k then some (interval i start k) else none)

abbrev pub policy : ℕ → ℕ → CalendarPolicy
policy i g = record { interval_ms = pos i; grace_ms = pos g }

module _ (i g : ℕ) (now : ℤ) where
  end_lem : (start : ℤ) → Fits i g start now → start +i64 pos i ≡ start +ℤ pos i
  end_lem start f = +i64_lem start (pos i) (omega int_laws, omega int_laws)

  deadline_lem :
      (start : ℤ) → Fits i g start now → (start +i64 pos i) +i64 pos g ≡ start +ℤ pos (i + g)
  deadline_lem start f =
      rw (end_lem start f)
        (+i64_lem (start +ℤ pos i) (pos g) (omega int_laws, omega int_laws) ∙ omega int_laws)

  Fits-next :
      (start : ℤ) → Fits i g start now → start +ℤ pos (i + g) ≤ℤ now → Fits i g (start +ℤ pos i) now
  Fits-next start f h = omega int_laws

  Prescribed-nil : (start : ℤ) → now <ℤ start +ℤ pos (i + g) → Prescribed i g start now []
  Prescribed-nil start h k = elim (Bool-cases (is_missed i g start now k)) [
    | inl missed ↦ absurd (omega (int_laws, leb_ℤ→le (start +ℤ pos (k * i + i + g)) now missed))
    | inr kept ↦ rw kept
  ]

  Prescribed-cons :
      (start : ℤ) (gaps : List Gap)
      → start +ℤ pos (i + g) ≤ℤ now
      → Prescribed i g (start +ℤ pos i) now gaps
      → Prescribed i g start now (record { start_ms = start; end_ms = start +ℤ pos i } ∷ gaps)
  Prescribed-cons start gaps h p zero = elim (Bool-cases (is_missed i g start now 0)) [
    | inl missed ↦ rw missed (ap some (interval-zero i start))
    | inr kept ↦ absurd (omega (int_laws, leb_ℤ-false (start +ℤ pos (0 * i + i + g)) now kept))
  ]
  Prescribed-cons start gaps h p (suc k) =
      let same : start +ℤ pos i +ℤ pos (k * i + i + g) ≡ start +ℤ pos (suc k * i + i + g) =
        omega int_laws in
      p k ∙ cc (interval-suc i start k)

  gaps_loop_lem :
      (fuel : ℕ) (start : ℤ)
      → 0 < i
      → Fits i g start now
      → now <ℤ start +ℤ pos fuel
      → (gaps : List Gap) × (gaps_loop (suc fuel) (policy i g) start now ≡ some gaps)
        × Prescribed i g start now gaps
  unfolding gaps_loop
  gaps_loop_lem zero start h f w =
      let late : ltb_ℤ now ((start +i64 pos i) +i64 pos g) ≡ true =
        rw (deadline_lem start f) (lt→ltb _ _ (omega int_laws)) in
      ([], rw late refl, Prescribed-nil start (omega int_laws))
  gaps_loop_lem (suc fuel) start h f w = elim (Bool-cases (ltb_ℤ now (start +ℤ pos (i + g)))) [
    | inl early ↦ (
      [],
      rw (deadline_lem start f, early) refl,
      Prescribed-nil start (ltb_ℤ→lt now (start +ℤ pos (i + g)) early),
    )
    | inr late ↦
        let due = ltb_ℤ-false now (start +ℤ pos (i + g)) late in
        let (rest, returns, prescribed) =
          gaps_loop_lem fuel (start +ℤ pos i) h (Fits-next start f due) (omega int_laws) in
        (
          record { start_ms = start; end_ms = start +ℤ pos i } ∷ rest,
          rw (deadline_lem start f, late, end_lem start f, returns) refl,
          Prescribed-cons start rest due prescribed,
        )
  ]

-- With a positive interval and a grace period of zero or more, and times far enough from the
-- bounds of `i64`, the loop ends within as many rounds as milliseconds have passed, and returns
-- exactly the intervals whose deadline (end plus grace) is at or before `now`, in order: the
-- element `k` of the list is interval `k` of the calendar if that is missed, and absent if not.
pub derive_gaps_exact :
    (i g : ℕ) (last now : ℤ) (fuel : ℕ)
    → 0 < i
    → Fits i g last now
    → now <ℤ last +ℤ pos fuel
    → (gaps : List Gap) × (derive_gaps (suc fuel) (policy i g) last now ≡ some gaps)
      × Prescribed i g last now gaps
unfolding derive_gaps
derive_gaps_exact i g last now fuel h f w = gaps_loop_lem i g now fuel last h f w
