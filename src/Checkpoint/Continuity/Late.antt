-- ===== src/Checkpoint/Continuity/Late.antt =====
-- `recover_late` (crates/domain/checkpoint/src/continuity.rs) on the gaps of `derive_gaps`.
use linvesther.Prelude.{
  ℕ, suc, ◌+◌, ◌*◌, ◌<◌, ◌≡◌, ◌∙◌, refl, inl, inr, true, some, none, List, arith, get_elem?, Result,
  ok, err, Bool-cases, if◌then◌else◌, ap, sym,
}
use linvesther.Prelude.Int.{
  ℤ, pos, ◌+ℤ◌, ◌≤ℤ◌, ◌<ℤ◌, leb_ℤ, int_laws, leb_ℤ→le, leb_ℤ-false, leb_ℤ_of_le,
}
use linvesther.Prelude.Machine.{◌+i64◌, +i64_lem, InRange, i64_half}
use linvesther.Checkpoint.Calendar.{Gap, derive_gaps}
use linvesther.Checkpoint.Calendar.Gaps.{interval, is_missed, policy, Fits, derive_gaps_exact}
use linvesther.Checkpoint.Continuity.{LateSupplement, LateRecoveryError, not_late, recover_late}

module _ (i g : ℕ) (start : ℤ) (k : ℕ) where
  abbrev pub deadline : ℤ
  deadline = start +ℤ pos (k * i + i + g)

  deadline_lem : InRange i64_half deadline → (interval i start k).end_ms +i64 pos g ≡ deadline
  deadline_lem h =
      let same : start +ℤ pos (k * i + i) +ℤ pos g ≡ deadline = omega int_laws in
      +i64_lem (start +ℤ pos (k * i + i)) (pos g) (rw same h) ∙ same

  abbrev outcome : ℤ → Result LateRecoveryError LateSupplement
  outcome t =
      if leb_ℤ t deadline
      then err (not_late t deadline)
      else ok (record { gap = interval i start k; recovered_at_ms = t })

  outcome_past :
      (t : ℤ)
      → deadline <ℤ t
      → outcome t ≡ ok (record { gap = interval i start k; recovered_at_ms = t })
  outcome_past t h = elim (Bool-cases (leb_ℤ t deadline)) [
    | inl e ↦ absurd (omega (arith, leb_ℤ→le t deadline e))
    | inr e ↦ rw e refl
  ]

  outcome_by : (t : ℤ) → t ≤ℤ deadline → outcome t ≡ err (not_late t deadline)
  outcome_by t h = elim (Bool-cases (leb_ℤ t deadline)) [
    | inl e ↦ rw e refl
    | inr e ↦ absurd (omega (arith, leb_ℤ-false t deadline e))
  ]

  -- `recover_late` compares the time with the deadline of the calendar.
  recover_late-interval :
      (t : ℤ)
      → InRange i64_half deadline
      → recover_late (policy i g) (interval i start k) t ≡ outcome t
  unfolding recover_late
  recover_late-interval t h = rw (deadline_lem h) refl

-- What is in the prescribed list is a missed interval.
missed_of_get :
    (i g : ℕ) (start now : ℤ) (k : ℕ) {gap : Gap}
    → (if is_missed i g start now k then some (interval i start k) else none) ≡ some gap
    → (is_missed i g start now k ≡ true) × (interval i start k ≡ gap)
missed_of_get i g start now k h = elim (Bool-cases (is_missed i g start now k)) [
  | inl missed ↦ (missed, let e = rw missed at h in cc)
  | inr kept ↦ let e = rw kept at h in cc
]

-- A gap that `derive_gaps` reports at `now` is accepted by `recover_late` as a late supplement,
-- the gap unchanged, at any later time: what the calendar has marked as missed cannot be
-- recovered on time afterwards. (Positive interval, times far enough from the bounds of `i64`.)
derive_gaps-recover_late :
    (i g : ℕ) (last now : ℤ) (fuel : ℕ) (k : ℕ) (gap : Gap) (t : ℤ)
    → 0 < i
    → Fits i g last now
    → now <ℤ last +ℤ pos fuel
    → (gaps : List Gap) → derive_gaps (suc fuel) (policy i g) last now ≡ some gaps
    → get_elem? gaps k ≡ some gap
    → now <ℤ t
    → recover_late (policy i g) gap t ≡ ok (record { gap = gap; recovered_at_ms = t })
derive_gaps-recover_late i g last now fuel k gap t pi f w gaps returns at_k later =
    let (gaps', returns', prescribed) = derive_gaps_exact i g last now fuel pi f w in
    let same : gaps' ≡ gaps = cc in
    let here =
      missed_of_get i g last now k (sym (prescribed k) ∙ (ap (λ l. get_elem? l k) same ∙ at_k)) in
    let due = leb_ℤ→le (deadline i g last k) now here.0 in
    rw (← here.1) (
      recover_late-interval i g last k t (omega int_laws, omega int_laws)
      ∙ outcome_past i g last k t (omega arith))

-- At the very instant of its deadline (end plus grace) an interval is in both states: the
-- calendar reports it as missed, and `recover_late` refuses the recovery as not late.
deadline_instant :
    (i g : ℕ) (last : ℤ) (fuel : ℕ)
    → 0 < i
    → Fits i g last (last +ℤ pos (i + g))
    → i + g < fuel
    → (gaps : List Gap) × (derive_gaps (suc fuel) (policy i g) last (last +ℤ pos (i + g))
        ≡ some gaps)
      × (get_elem? gaps 0 ≡ some (interval i last 0))
      × (recover_late (policy i g) (interval i last 0) (last +ℤ pos (i + g))
          ≡ err (not_late (last +ℤ pos (i + g)) (deadline i g last 0)))
deadline_instant i g last fuel pi f w =
    let (gaps, returns, prescribed) =
      derive_gaps_exact i g last (last +ℤ pos (i + g)) fuel pi f (omega int_laws) in
    let missed : is_missed i g last (last +ℤ pos (i + g)) 0 ≡ true =
      leb_ℤ_of_le (last +ℤ pos (0 * i + i + g)) (last +ℤ pos (i + g)) (omega int_laws) in
    (
      gaps,
      returns,
      prescribed 0 ∙ rw missed refl,
      recover_late-interval i g last 0 (last +ℤ pos (i + g)) (omega int_laws, omega int_laws)
          ∙ outcome_by i g last 0 (last +ℤ pos (i + g)) (omega int_laws),
    )
