-- ===== src/Recovery/Retention.antt =====
-- infra/recovery/src/retention.rs: the deadlines by which removed data must be gone.
use linvesther.Prelude.{
  ◌≡◌, ◌⊎◌, ◌↔◌, inl, inr, refl, Bool, true, false, ◌&&◌, Bool-cases, Result, ok, err, arith,
  if◌then◌else◌,
}
use linvesther.Prelude.Int.{ℤ, pos, ◌+ℤ◌, ◌≤ℤ◌, ltb_ℤ, ltb_ℤ→lt, ltb_ℤ-false}
use linvesther.Prelude.Machine.{◌+i64◌, +i64_lem, InRange, i64_half}

pub data DataCategory : Type 0 where
  credential private_active backup : DataCategory

-- 24 hours, 30 days and 35 days.
unfoldable pub deadline_ms : DataCategory → ℤ
deadline_ms credential = pos 86_400_000
deadline_ms private_active = pos 2_592_000_000
deadline_ms backup = pos 3_024_000_000

unfoldable pub purge_deadline_ms : DataCategory → ℤ → ℤ
purge_deadline_ms category requested_at_ms = requested_at_ms +i64 deadline_ms category

pub record RetentionViolation : Type 0 where
  pub category : DataCategory
  pub deadline : ℤ
  pub now_ms : ℤ

unfoldable pub check_purged_by_deadline :
    DataCategory → ℤ → Bool → ℤ → Result RetentionViolation (Unit {0})
unfolding purge_deadline_ms
check_purged_by_deadline category requested_at_ms still_present now_ms =
    let deadline = purge_deadline_ms category requested_at_ms in
    if still_present && ltb_ℤ deadline now_ms
    then err (record { category = category; deadline = deadline; now_ms = now_ms })
    else ok tt

-- For a deadline that is an `i64`, the check passes exactly if the data is gone or the deadline of its
-- category, counted from the request, has not passed.
check_purged_by_deadline_iff :
    (category : DataCategory) (requested_at_ms now_ms : ℤ) (still_present : Bool)
    → InRange i64_half (requested_at_ms +ℤ deadline_ms category)
    → (check_purged_by_deadline category requested_at_ms still_present now_ms ≡ ok tt)
      ↔ ((still_present ≡ false) ⊎ (now_ms ≤ℤ requested_at_ms +ℤ deadline_ms category))
unfolding check_purged_by_deadline
check_purged_by_deadline_iff category requested_at_ms now_ms false fits = (λ h. inl refl, λ h. refl)
check_purged_by_deadline_iff category requested_at_ms now_ms true fits =
    let deadline = requested_at_ms +ℤ deadline_ms category in
    rw (+i64_lem requested_at_ms (deadline_ms category) fits)
      (elim (Bool-cases (ltb_ℤ deadline now_ms)) [
        | inl late ↦ rw late (
          λ h. cc,
          λ h. elim h [
            | inl gone ↦ cc
            | inr early ↦ absurd (omega (arith, ltb_ℤ→lt deadline now_ms late))
          ],
        )
        | inr early ↦ rw early (λ h. inr (ltb_ℤ-false deadline now_ms early), λ h. refl)
      ])
